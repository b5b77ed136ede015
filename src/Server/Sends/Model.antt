-- ===== src/Server/Sends/Model.antt =====
-- server/src/db/models/send.rs: the row, its password, its queries. Texts are numbers, times are
-- seconds. The accounts and the policies are those of Server/Organization.
use nad_safe_password_manage.Prelude.{
  ℕ, ◌-◌, ◌^◌, Bool, false, not, Option, none, some, List, [], ◌∷◌, ◌==◌, ltb, keep_if,
  if◌then◌else◌, ℤ, pos, negsuc, ◌+ℤ◌, ◌==ℤ◌,
}
use nad_safe_password_manage.Server.Handler.{Handler}
use nad_safe_password_manage.Server.Table.{find, put, remove, check}
use nad_safe_password_manage.Server.Organization.Model.{update_uuid_revision}
use nad_safe_password_manage.Server.Organization.Model

pub data SendType : Type 0 where
  text file : SendType

abbrev pub type_code : SendType → ℕ
type_code text = 0
type_code file = 1

pub record Send : Type 0 where
  pub uuid : ℕ
  pub user_uuid : Option ℕ
  pub organization_uuid : Option ℕ
  pub name : ℕ
  pub notes : Option ℕ
  pub atype : ℕ
  pub data_text : ℕ
  pub akey : ℕ
  pub password_hash : Option ℕ
  pub password_salt : Option ℕ
  pub password_iter : Option ℕ
  pub max_access_count : Option ℤ
  pub access_count : ℤ
  pub creation_date : ℕ
  pub revision_date : ℕ
  pub expiration_date : Option ℕ
  pub deletion_date : ℕ
  pub disabled : Bool
  pub hide_email : Option Bool

-- `files` are the sends that have a folder of files.
pub record Db : Type 0 where
  pub sends : List Send
  pub files : List ℕ
  pub organization : Model.Db

-- The configuration and the crates: the identifier in a link, hashing and checking a password, and
-- what serde reads from the data of a policy.
pub record Env : Type 0 where
  pub organization : Model.Env
  pub sends_allowed : Bool
  pub now : ℕ
  pub fresh_uuid : ℕ
  pub fresh_salt : ℕ
  pub decode_access_id : ℕ → Option ℕ
  pub hash_password : ℕ → ℕ → ℕ → ℕ
  pub verify_password_hash : ℕ → ℕ → ℕ → ℕ → Bool
  pub disable_hide_email : ℕ → Option Bool

pub data Error : Type 0 where
  inaccessible invalid_password password_not_provided policy_forbids hide_email_forbidden : Error
  invalid_type data_not_provided too_far_in_future invalid_count not_found not_owned : Error
  type_changed : Error

abbrev pub M : Type 0 → Type 0
M A = Handler Db Error A

-- `Send::new`
unfoldable pub new : Env → ℕ → ℕ → ℕ → ℕ → ℕ → Send
new env atype name content akey deletion_date = record {
  uuid = env.fresh_uuid;
  user_uuid = none;
  organization_uuid = none;
  name = name;
  notes = none;
  atype = atype;
  data_text = content;
  akey = akey;
  password_hash = none;
  password_salt = none;
  password_iter = none;
  max_access_count = none;
  access_count = pos 0;
  creation_date = env.now;
  revision_date = env.now;
  expiration_date = none;
  deletion_date = deletion_date;
  disabled = false;
  hide_email = none;
}

abbrev password_iterations : ℕ
password_iterations = 100000

unfoldable pub set_password : Env → Option ℕ → Send → Send
set_password env (some password) s = record s {
  password_iter = some password_iterations;
  password_salt = some env.fresh_salt;
  password_hash = some (env.hash_password password env.fresh_salt password_iterations);
}
set_password env none s = record s {
  password_iter = none;
  password_salt = none;
  password_hash = none;
}

abbrev checked : Env → ℕ → Option ℕ → Option ℕ → Option ℕ → Bool
checked env password (some hash) (some salt) (some iterations) =
    env.verify_password_hash password salt hash iterations
checked env password _ _ _ = false

unfoldable pub check_password : Env → ℕ → Send → Bool
check_password env password s = checked env password s.password_hash s.password_salt s.password_iter

-- `access_count += 1` of an `i32`, which wraps
abbrev pub add_access : Send → Send
add_access s = record s {
  access_count =
      if s.access_count ==ℤ pos (2 ^ 31 - 1) then negsuc (2 ^ 31 - 1) else s.access_count +ℤ pos 1;
}

abbrev touch : Env → Option ℕ → Db → Db
touch env none db = db
touch env (some id) db = record db {
  organization = update_uuid_revision env.organization id db.organization;
}

-- `update_users_revision`; a send of an organization alone changes no account
unfoldable pub update_users_revision : Env → Send → Db → Db
update_users_revision env s db = touch env s.user_uuid db

abbrev pub revised : Env → Send → Send
revised env s = record s { revision_date = env.now }

unfoldable pub save : Env → Send → Db → Db
save env s db =
    let db' = update_users_revision env s db in
    record db' { sends = put (λ x. x.uuid) (revised env s) db'.sends }

unfoldable pub delete : Env → Send → Db → Db
delete env s db =
    let db' = update_users_revision env s db in
    record db' {
      sends = remove (λ x. x.uuid) s.uuid db'.sends;
      files =
          if s.atype == type_code file
          then keep_if (λ id. not (id == s.uuid)) db'.files
          else db'.files;
    }

abbrev pub find_send : ℕ → Db → Option Send
find_send id db = find (λ s. s.uuid) id db.sends

abbrev is_users : ℕ → Option ℕ → Bool
is_users user_id none = false
is_users user_id (some id) = id == user_id

abbrev pub find_by_uuid_and_user : ℕ → ℕ → Db → Option Send
find_by_uuid_and_user id user_id db = check (λ s. is_users user_id s.user_uuid) (find_send id db)

abbrev pub find_by_past_deletion_date : Env → Db → List Send
find_by_past_deletion_date env db = keep_if (λ s. ltb s.deletion_date env.now) db.sends

-- `Send::purge`
abbrev pub delete_all : Env → List Send → Db → Db
delete_all env [] db = db
delete_all env (s ∷ rest) db = delete_all env rest (delete env s db)

unfoldable pub purge : Env → Db → Db
purge env db = delete_all env (find_by_past_deletion_date env db) db

abbrev pub find_by_user : ℕ → Db → List Send
find_by_user user_id db = keep_if (λ s. is_users user_id s.user_uuid) db.sends

unfoldable pub delete_all_by_user : Env → ℕ → Db → Db
delete_all_by_user env user_id db = delete_all env (find_by_user user_id db) db
