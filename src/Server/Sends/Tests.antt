-- ===== src/Server/Sends/Tests.antt =====
-- A text that can be opened twice, tried four times: too early with a wrong password, and then
-- twice with success.
use nad_safe_password_manage.Prelude.{
  ℕ, ◌+◌, ◌≤◌, ◌≡◌, refl, true, false, Option, none, some, List, [], ◌∷◌, ◌==◌, arith, pos,
}
use nad_safe_password_manage.Server.Handler.{pure, fail, gets, some_or, write, ◌>>=◌, ◌>>◌}
use nad_safe_password_manage.Server.Table.{find, put, modify}
use nad_safe_password_manage.Server.Organization.Tests
use nad_safe_password_manage.Server.Sends.Model.{
  Send, Db, Env, save, check_password, update_users_revision,
}
use nad_safe_password_manage.Server.Sends.Requests.{post_access, refusal}
use nad_safe_password_manage.Server.Sends.Accesses.{successes, accesses_bounded}

abbrev env : Env
env = record {
  organization = Tests.env;
  sends_allowed = true;
  now = 5;
  fresh_uuid = 40;
  fresh_salt = 2;
  decode_access_id = λ id. some id;
  hash_password = λ password salt iterations. password + salt + iterations;
  verify_password_hash = λ password salt hash iterations. password + salt + iterations == hash;
  disable_hide_email = λ data_text. none;
}

abbrev message : Send
message = record {
  uuid = 40;
  user_uuid = some 1;
  organization_uuid = none;
  name = 1;
  notes = none;
  atype = 0;
  data_text = 3;
  akey = 4;
  password_hash = some 100009;
  password_salt = some 2;
  password_iter = some 100000;
  max_access_count = some (pos 2);
  access_count = pos 0;
  creation_date = 0;
  revision_date = 0;
  expiration_date = none;
  deletion_date = 100;
  disabled = false;
  hide_email = none;
}

abbrev db : Db
db = record { sends = message ∷ []; files = []; organization = Tests.db }

abbrev tries : List (ℕ × Option ℕ)
tries = (5, some 6) ∷ (6, some 7) ∷ (7, some 7) ∷ (8, some 7) ∷ []

successes_lem : successes env 40 tries db ≡ 2
unfolding post_access refusal check_password save update_users_revision find put modify pure fail
    gets some_or write ◌>>=◌ ◌>>◌
successes_lem = refl

accesses_bounded_example : successes env 40 tries db ≤ 2
unfolding find
accesses_bounded_example =
    accesses_bounded env 40 40 tries message db 2 0 refl refl refl refl refl (omega arith)
