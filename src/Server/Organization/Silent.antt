-- ===== src/Server/Organization/Silent.antt =====
-- The steps of the handlers that leave the memberships alone.
use nad_safe_password_manage.Prelude.{
  ℕ, refl, Bool, true, false, Option, none, some, List, arith, if◌then◌else◌,
}
use nad_safe_password_manage.Server.Handler.{
  pure, fail, gets, some_or, write, require, when, for_each, ◌>>=◌, ◌>>◌,
}
use nad_safe_password_manage.Server.Handler.Ends.{
  Ends, after_step, after_then, last_write, last_pure, in_when, in_for_each,
}
use nad_safe_password_manage.Server.Organization.Roles.{Membership}
use nad_safe_password_manage.Server.Organization.Model.{
  CollectionUser, Db, Env, Error, M, Mail, get_uuid, send, save_invitation, create_user,
  take_invitation, save_collection_user,
}
use nad_safe_password_manage.Server.Organization.Policy.{
  find_and_activate_email_2fa, activate_email_2fa, enforce_policies, check_user_allowed,
}
use nad_safe_password_manage.Server.Organization.Members.{
  CollectionData, add_collection, add_group, keep_an_owner,
}
use nad_safe_password_manage.Server.Organization.Sound.{
  Quiet, Quiet-trans, kept, save_group_user-Quiet,
}

abbrev pub Silent : {A : Type 0} → M A → Type 0
Silent m = (a b : Db) → Quiet a b → Ends (Quiet a) m b

pub write-Silent : (f : Db → Db) → ((d : Db) → Quiet d (f d)) → Silent (write f)
write-Silent f h a b q = last_write f b (Quiet-trans q (h b))

pub fail-Silent : {A : Type 0} (e : Error) → Silent {A = A} (fail e)
unfolding fail
fail-Silent e a b q = record { holds = q }

pub require-Silent : (test : Bool) (e : Error) → Silent (require test e)
unfolding require
require-Silent true e a b q = record { holds = q }
require-Silent false e a b q = record { holds = q }

pub then-Silent : {A : Type 0} {m : M (Unit {0})} {k : M A} → Silent m → Silent k → Silent (m >> k)
then-Silent {A} {m} {k} hm hk a b q =
    after_then (Quiet a) m k b (hm a b q) (λ d p. p) (λ d p. hk a d p)

pub bind-Silent :
    {A B : Type 0} {m : M A} {k : A → M B} → Silent m → ((x : A) → Silent (k x)) → Silent (m >>= k)
bind-Silent {A} {B} {m} {k} hm hk a b q =
    after_step (Quiet a) m k b (hm a b q) (λ d p. p) (λ x d p. hk x a d p)

pub gets-Silent : {A : Type 0} (f : Db → A) → Silent (gets f)
unfolding gets
gets-Silent f a b q = record { holds = q }

pub some_or-Silent : {A : Type 0} (e : Error) (o : Option A) → Silent (some_or e o)
unfolding some_or
some_or-Silent e none a b q = record { holds = q }
some_or-Silent e (some x) a b q = record { holds = q }

pub pure-Silent : {A : Type 0} (x : A) → Silent (pure x)
pure-Silent x a b q = last_pure x b q

pub when-Silent : (test : Bool) {m : M (Unit {0})} → Silent m → Silent (when test m)
when-Silent test {m} h a b q = in_when test m b q (λ _. h a b q)

pub if-Silent :
    {A : Type 0} (test : Bool) {m k : M A} → Silent m → Silent k → Silent (if test then m else k)
if-Silent true hm hk = hm
if-Silent false hm hk = hk

pub for_each-Silent :
    {A : Type 0} (list : List A) {f : A → M (Unit {0})}
    → ((x : A) → Silent (f x))
    → Silent (for_each list f)
for_each-Silent list {f} h a b q = in_for_each list f b q (λ x d p. h x a d p)

pub get_uuid-Silent : Silent get_uuid
unfolding get_uuid
get_uuid-Silent a b q = record {
  holds = Quiet-trans q (record { same = refl; same_uuids = refl; more_drawn = omega arith });
}

pub send-Silent : (env : Env) (mail : Mail) → Silent (send env mail)
unfolding send
send-Silent env mail a b q = record {
  holds = Quiet-trans q (kept (ground arith) (ground arith) (ground arith));
}

pub save_invitation-Silent : (env : Env) (mail : ℕ) → Silent (save_invitation env mail)
unfolding save_invitation
save_invitation-Silent env mail =
    then-Silent (require-Silent _ _) (write-Silent _ (λ d. kept refl refl refl))

pub take_invitation-Quiet : (env : Env) (mail : ℕ) (d : Db) → Quiet d (take_invitation env mail d)
unfolding take_invitation
take_invitation-Quiet env mail d = kept refl refl refl

pub create_user-Silent : (env : Env) (email : ℕ) → Silent (create_user env email)
unfolding create_user
create_user-Silent env email = bind-Silent get_uuid-Silent (λ id.
    then-Silent (require-Silent _ _)
      (then-Silent (write-Silent _ (λ d. kept refl refl refl)) (pure-Silent _)))

find_and_activate_email_2fa-Silent : (id : ℕ) → Silent (find_and_activate_email_2fa id)
unfolding find_and_activate_email_2fa activate_email_2fa
find_and_activate_email_2fa-Silent id = bind-Silent (gets-Silent _) (λ known.
    bind-Silent (some_or-Silent _ known)
      (λ u. then-Silent (require-Silent _ _) (write-Silent _ (λ d. kept refl refl refl))))

pub check_user_allowed-Silent : (env : Env) (m : Membership) → Silent (check_user_allowed env m)
unfolding check_user_allowed enforce_policies
check_user_allowed-Silent env m = when-Silent _ (
    bind-Silent (gets-Silent _) (λ lacking.
      then-Silent
        (when-Silent lacking (
          if-Silent env.email_2fa_auto_fallback (find_and_activate_email_2fa-Silent m.user_uuid)
            (fail-Silent _)))
        (bind-Silent (gets-Silent _) (λ forbidden.
          then-Silent (require-Silent _ _)
            (bind-Silent (gets-Silent _) (λ elsewhere. require-Silent _ _))))))

save_collection_user-Quiet :
    (env : Env) (c : CollectionUser) (d : Db) → Quiet d (save_collection_user env c d)
unfolding save_collection_user
save_collection_user-Quiet env c d = kept refl refl refl

pub add_collection-Silent :
    (env : Env) (o id : ℕ) (c : CollectionData) → Silent (add_collection env o id c)
unfolding add_collection
add_collection-Silent env o id c = bind-Silent (gets-Silent _) (λ known.
    then-Silent (require-Silent known _) (write-Silent _ (λ d. save_collection_user-Quiet env _ d)))

pub add_group-Silent : (env : Env) (id g : ℕ) → Silent (add_group env id g)
unfolding add_group
add_group-Silent env id g = write-Silent _ (λ d. save_group_user-Quiet env _ d)

pub keep_an_owner-Silent : (test : Bool) (o : ℕ) → Silent (keep_an_owner test o)
unfolding keep_an_owner
keep_an_owner-Silent test o = bind-Silent (gets-Silent _) (λ last. require-Silent _ _)
