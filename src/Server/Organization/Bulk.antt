-- ===== src/Server/Organization/Bulk.antt =====
-- server/src/api/core/organizations.rs: the confirmation of several memberships at once.
use nad_safe_password_manage.Prelude.{ℕ, Option, none, some, List, [], ◌∷◌, ◌==◌}
use nad_safe_password_manage.Server.Handler.{pure, some_or, require, attempt, ◌>>=◌, ◌>>◌}
use nad_safe_password_manage.Server.Handler.Ends.{
  Ends, after_some_or, after_step, in_attempt, last_pure,
}
use nad_safe_password_manage.Server.Organization.Model.{
  Db, Env, Error, ids_do_not_match, missing_id, M,
}
use nad_safe_password_manage.Server.Organization.Members.{AdminHeaders}
use nad_safe_password_manage.Server.Organization.Invitations.{confirm_invite_impl}

pub record ConfirmData : Type 0 where
  pub id : Option ℕ
  pub key : Option ℕ

-- `unwrap_or_default`, on texts
abbrev unwrap_or_default : Option ℕ → ℕ
unwrap_or_default none = 0
unwrap_or_default (some text) = text

-- the loop of `bulk_confirm_invite`; it panics at an item with no id
unfoldable pub confirm_all : Env → AdminHeaders → ℕ → List ConfirmData → M (List (ℕ × Option Error))
confirm_all env headers org_id [] = pure []
confirm_all env headers org_id (item ∷ keys) = do
  member_id ← some_or missing_id item.id
  error ← attempt (confirm_invite_impl env headers org_id member_id (unwrap_or_default item.key))
  rest ← confirm_all env headers org_id keys
  pure ((member_id, error) ∷ rest)

abbrev pub some_keys : Option (List ConfirmData) → List ConfirmData
some_keys none = []
some_keys (some keys) = keys

unfoldable pub bulk_confirm_invite :
    Env → AdminHeaders → ℕ → Option (List ConfirmData) → M (List (ℕ × Option Error))
bulk_confirm_invite env headers org_id keys = do
  require (org_id == headers.org_id) ids_do_not_match
  confirm_all env headers org_id (some_keys keys)

-- what each confirmation keeps, all of them keep
module _ {P : Db → Type 0} (env : Env) (headers : AdminHeaders) (org_id : ℕ)
    (each : (member_id key : ℕ) (d : Db)
      → P d
      → Ends P (confirm_invite_impl env headers org_id member_id key) d) where
  pub in_confirm_all :
      (keys : List ConfirmData) (db : Db) → P db → Ends P (confirm_all env headers org_id keys) db
  unfolding confirm_all
  in_confirm_all [] db p = last_pure [] db p
  in_confirm_all (item ∷ keys) db p = after_some_or _ _ _ db p (λ member_id _.
      after_step P _ _ db (in_attempt _ db (each member_id _ db p)) (λ d q. q)
        (λ error d q.
          after_step P _ _ d (in_confirm_all keys d q) (λ _ q'. q')
            (λ rest d' q'. last_pure ((member_id, error) ∷ rest) d' q')))
