-- ===== src/Server/Sends/Requests.antt =====
-- server/src/api/core/sends.rs: the handlers of sends. Notifications are left out, and the upload of
-- files.
use nad_safe_password_manage.Prelude.{
  ℕ, ◌+◌, ◌*◌, Bool, false, not, ◌&&◌, ◌||◌, Option, none, some, List, ◌==◌, ltb, exists, keep_if,
  if◌then◌else◌, ℤ, ltb_ℤ,
}
use nad_safe_password_manage.Server.Handler.{pure, fail, gets, some_or, write, require, ◌>>=◌, ◌>>◌}
use nad_safe_password_manage.Server.EmergencyAccess.Model.{is_some}
use nad_safe_password_manage.Server.Organization.Roles.{confirmed, has_status}
use nad_safe_password_manage.Server.Organization.Model.{OrgPolicy, find_confirmed_by_user_and_org}
use nad_safe_password_manage.Server.Organization.Model
use nad_safe_password_manage.Server.Organization.Policy.{
  disable_send, send_options, policy_code, is_applicable_to_user, is_below_admin,
}
use nad_safe_password_manage.Server.Sends.Model.{
  text, file, type_code, Send, Env, Error, inaccessible, invalid_password, password_not_provided,
  policy_forbids, hide_email_forbidden, invalid_type, data_not_provided, too_far_in_future,
  invalid_count, not_found, not_owned, type_changed, M, new, set_password, check_password,
  add_access, revised, save, delete, find_send, find_by_uuid_and_user,
}

-- the data of a request; the text and the file as they are stored, the count as it is read
pub record SendData : Type 0 where
  pub atype : ℕ
  pub key : ℕ
  pub password : Option ℕ
  pub max_access_count : Option (Option ℤ)
  pub expiration_date : Option ℕ
  pub deletion_date : ℕ
  pub disabled : Bool
  pub hide_email : Option Bool
  pub name : ℕ
  pub notes : Option ℕ
  pub text_value : Option ℕ
  pub file_value : Option ℕ

unfoldable pub enforce_disable_send_policy : Env → ℕ → M (Unit {0})
enforce_disable_send_policy env user_id = do
  applies ← gets (λ db. is_applicable_to_user user_id disable_send none db.organization)
  require (not (not env.sends_allowed || applies)) policy_forbids

-- `OrgPolicy::find_confirmed_by_user_and_active_policy`, of the send options
abbrev pub confirmed_send_options : ℕ → Model.Db → List OrgPolicy
confirmed_send_options user_id db =
    keep_if
      (λ p.
        p.atype == policy_code send_options
        && p.enabled
        && exists
            (λ m. m.user_uuid == user_id && m.org_uuid == p.org_uuid && has_status confirmed m)
            db.memberships)
      db.policies

abbrev or_false : Option Bool → Bool
or_false none = false
or_false (some b) = b

-- `OrgPolicy::is_hide_email_disabled`
unfoldable pub is_hide_email_disabled : Env → ℕ → Model.Db → Bool
is_hide_email_disabled env user_id db =
    exists
      (λ p.
        is_below_admin (find_confirmed_by_user_and_org user_id p.org_uuid db)
        && or_false (env.disable_hide_email p.data_text))
      (confirmed_send_options user_id db)

unfoldable pub enforce_disable_hide_email_policy : Env → SendData → ℕ → M (Unit {0})
enforce_disable_hide_email_policy env request user_id = do
  disabled ← gets (λ db. is_hide_email_disabled env user_id db.organization)
  require (not (or_false request.hide_email && disabled)) hide_email_forbidden

-- 31 days from now
abbrev pub last_deletion_date : Env → ℕ
last_deletion_date env = env.now + 31 * 86400

abbrev pub read_count : Option (Option ℤ) → M (Option ℤ)
read_count none = pure none
read_count (some none) = fail invalid_count
read_count (some (some n)) = pure (some n)

unfoldable pub create_send : Env → SendData → ℕ → M Send
create_send env request user_id = do
  require (request.atype == type_code text || request.atype == type_code file) invalid_type
  content ←
      some_or data_not_provided
        (if request.atype == type_code text then request.text_value else request.file_value)
  require (not (ltb (last_deletion_date env) request.deletion_date)) too_far_in_future
  count ← read_count request.max_access_count
  pure (
      set_password env request.password
        (record (new env request.atype request.name content request.key request.deletion_date) {
          user_uuid = some user_id;
          notes = request.notes;
          max_access_count = count;
          expiration_date = request.expiration_date;
          disabled = request.disabled;
          hide_email = request.hide_email;
        }))

unfoldable pub post_send : Env → SendData → ℕ → M Send
post_send env request user_id = do
  enforce_disable_send_policy env user_id
  enforce_disable_hide_email_policy env request user_id
  require (not (request.atype == type_code file)) invalid_type
  s ← create_send env request user_id
  write (save env s)
  pure (revised env s)

-- `access_count >= max_access_count`, if there is a maximum
abbrev pub is_used_up : Send → Bool
is_used_up s = elim s.max_access_count [ none ↦ false | some max ↦ not (ltb_ℤ s.access_count max) ]

abbrev pub is_expired : Env → Send → Bool
is_expired env s = elim s.expiration_date [
  | none ↦ false
  | some expiration ↦ not (ltb env.now expiration)
]

abbrev pub password_refusal : Env → Send → Option ℕ → Option Error
password_refusal env s none = some password_not_provided
password_refusal env s (some p) = if check_password env p s then none else some invalid_password

-- the first check that an access fails, in the order of the code
unfoldable pub refusal : Env → Send → Option ℕ → Option Error
refusal env s password =
    if is_used_up s
    then some inaccessible
    else if is_expired env s
    then some inaccessible
    else if not (ltb env.now s.deletion_date)
    then some inaccessible
    else if s.disabled
    then some inaccessible
    else if is_some s.password_hash
    then password_refusal env s password
    else none

abbrev pub unless_refused : {A : Type 0} → Option Error → M A → M A
unless_refused (some e) m = fail e
unless_refused none m = m

unfoldable pub post_access : Env → ℕ → Option ℕ → M Send
post_access env access_id password = do
  id ← some_or inaccessible (env.decode_access_id access_id)
  found ← gets (find_send id)
  s ← some_or inaccessible found
  let s' = if s.atype == type_code text then add_access s else s
  unless_refused (refusal env s password) (do write (save env s'); pure (revised env s'))

unfoldable pub post_access_file : Env → ℕ → Option ℕ → M (Unit {0})
post_access_file env send_id password = do
  found ← gets (find_send send_id)
  s ← some_or inaccessible found
  unless_refused (refusal env s password) (write (save env (add_access s)))

abbrev is_owner : ℕ → Option ℕ → Bool
is_owner user_id none = false
is_owner user_id (some id) = id == user_id

abbrev new_password : Env → Option ℕ → Send → Send
new_password env none s = s
new_password env (some p) s = set_password env (some p) s

unfoldable pub update_send_from_data : Env → Send → SendData → ℕ → M Send
update_send_from_data env s request user_id = do
  require (is_owner user_id s.user_uuid) not_owned
  require (s.atype == request.atype) type_changed
  require (not (ltb (last_deletion_date env) request.deletion_date)) too_far_in_future
  content ←
      some_or data_not_provided
        (if request.atype == type_code text then request.text_value else some s.data_text)
  count ← read_count request.max_access_count
  let s' = new_password env request.password (record s {
    data_text = content;
    name = request.name;
    akey = request.key;
    deletion_date = request.deletion_date;
    notes = request.notes;
    max_access_count = count;
    expiration_date = request.expiration_date;
    hide_email = request.hide_email;
    disabled = request.disabled;
  })
  write (save env s')
  pure (revised env s')

unfoldable pub put_send : Env → ℕ → SendData → ℕ → M Send
put_send env send_id request user_id = do
  enforce_disable_send_policy env user_id
  enforce_disable_hide_email_policy env request user_id
  found ← gets (find_by_uuid_and_user send_id user_id)
  s ← some_or not_found found
  update_send_from_data env s request user_id

unfoldable pub delete_send : Env → ℕ → ℕ → M (Unit {0})
delete_send env send_id user_id = do
  found ← gets (find_by_uuid_and_user send_id user_id)
  s ← some_or not_found found
  write (delete env s)

unfoldable pub put_remove_password : Env → ℕ → ℕ → M Send
put_remove_password env send_id user_id = do
  enforce_disable_send_policy env user_id
  found ← gets (find_by_uuid_and_user send_id user_id)
  s ← some_or not_found found
  let s' = set_password env none s
  write (save env s')
  pure (revised env s')
