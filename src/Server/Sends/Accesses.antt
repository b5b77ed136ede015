-- ===== src/Server/Sends/Accesses.antt =====
-- How often a text can be opened.
use nad_safe_password_manage.Prelude.{
  ℕ, ◌+◌, ◌-◌, ◌^◌, ◌≤◌, ◌<◌, ◌≡◌, refl, ap, ◌∙◌, true, false, not, Option, none, some, List, [],
  ◌∷◌, ◌==◌, ==_refl, ok, err, Result, ltb, arith, Bool-cases, Option-cases, inl, inr, pos,
}
use nad_safe_password_manage.Server.Handler.{pure, fail, gets, some_or, write, ◌>>=◌, ◌>>◌}
use nad_safe_password_manage.Server.Table.{find-put, put, key-find}
use nad_safe_password_manage.Server.Sends.Model.{
  text, type_code, Send, Db, Env, Error, add_access, revised, update_users_revision, save,
  find_send,
}
use nad_safe_password_manage.Server.Sends.Requests.{is_used_up, refusal, post_access}

abbrev pub at_time : Env → ℕ → Env
at_time env now = record env { now = now }

abbrev opened : {A : Type 0} → Result Error A → ℕ
opened (ok a) = 1
opened (err e) = 0

-- how many of the accesses succeed, each at a time and perhaps with a password, one after the other
abbrev pub successes : Env → ℕ → List (ℕ × Option ℕ) → Db → ℕ
successes env access_id [] db = 0
successes env access_id ((now, password) ∷ rest) db =
    let (r, db') = post_access (at_time env now) access_id password db in
    opened r + successes env access_id rest db'

not_used_up :
    (env : Env) (s : Send) (password : Option ℕ)
    → refusal env s password ≡ none
    → is_used_up s ≡ false
unfolding refusal
not_used_up env s password h = elim (Bool-cases (is_used_up s)) [
  | inl used ↦ cc (rw used at h)
  | inr unused ↦ unused
]

module _ (env : Env) (access_id id : ℕ) (s : Send) (db : Db) (password : Option ℕ)
    (decoded : env.decode_access_id access_id ≡ some id) (found : find_send id db ≡ some s)
    (is_text : s.atype ≡ type_code text) where
  refused :
      {e : Error}
      → refusal env s password ≡ some e
      → post_access env access_id password db ≡ (err e, db)
  unfolding post_access some_or gets fail ◌>>=◌
  refused h = rw (decoded, found, h) refl

  allowed :
      refusal env s password ≡ none
      → post_access env access_id password db
        ≡ (ok (revised env (add_access s)), save env (add_access s) db)
  unfolding post_access some_or gets pure write ◌>>=◌ ◌>>◌
  allowed h =
      let same : (s.atype == 0) ≡ true = ap (λ n. n == 0) is_text in
      rw (decoded, found, h, same) refl

sends_kept :
    (env : Env) (s : Send) (db : Db) (owner : Option ℕ)
    → s.user_uuid ≡ owner
    → (update_users_revision env s db).sends ≡ db.sends
unfolding update_users_revision
sends_kept env s db none e = rw e refl
sends_kept env s db (some id) e = rw e refl

found-save :
    (env : Env) (id : ℕ) (s s' : Send) (db : Db)
    → find_send id db ≡ some s
    → s'.uuid ≡ s.uuid
    → find_send id (save env s' db) ≡ some (revised env s')
unfolding save
found-save env id s s' db found same =
    let key : s'.uuid ≡ id = same ∙ key-find (λ x. x.uuid) id db.sends found in
    ap (λ t. find_send id (record db { sends = put (λ x. x.uuid) (revised env s') t }))
      (sends_kept env s' db s'.user_uuid refl)
    ∙ find-put (λ x. x.uuid) id (revised env s') db.sends
    ∙ rw (ap (λ n. n == id) key ∙ ==_refl id) refl

below :
    (s : Send) (m c : ℕ)
    → is_used_up s ≡ false
    → s.max_access_count ≡ some (pos m)
    → s.access_count ≡ pos c
    → c < m
below s m c unused max count =
    let test : not (ltb c m) ≡ false = rw (max, count) at unused in ground (arith, test)

one_more :
    (s : Send) (m c : ℕ)
    → s.access_count ≡ pos c
    → c < m
    → m < 2 ^ 31
    → (add_access s).access_count ≡ pos (c + 1)
one_more s m c count less bound =
    let room : (c == 2 ^ 31 - 1) ≡ false = ground arith in rw (count, room) refl

-- A text with a maximal number of accesses is opened at most as often as that number is above the
-- number of accesses so far, however often, whenever and with whatever passwords it is tried, as
-- long as nothing else changes it; the maximum is an `i32`.
pub accesses_bounded :
    (env : Env) (access_id id : ℕ) (accesses : List (ℕ × Option ℕ)) (s : Send) (db : Db) (m c : ℕ)
    → env.decode_access_id access_id ≡ some id
    → find_send id db ≡ some s
    → s.atype ≡ type_code text
    → s.max_access_count ≡ some (pos m)
    → s.access_count ≡ pos c
    → m < 2 ^ 31
    → successes env access_id accesses db ≤ m - c
accesses_bounded env access_id id [] s db m c decoded found is_text max count bound = omega arith
accesses_bounded env access_id id ((now, password) ∷ rest) s db m c decoded found is_text max count
      bound =
    elim (Option-cases (refusal (at_time env now) s password)) [
      | inl none_refused ↦
          let less =
            below s m c (not_used_up (at_time env now) s password none_refused) max count in
          let s' = revised (at_time env now) (add_access s) in
          let result =
            allowed (at_time env now) access_id id s db password decoded found is_text
              none_refused in
          let later =
            accesses_bounded env access_id id rest s' (save (at_time env now) (add_access s) db) m
              (c + 1) decoded (found-save (at_time env now) id s (add_access s) db found refl)
              is_text max (one_more s m c count less bound) bound in
          rw result (omega (arith, later, less))
      | inr (e, is) ↦
          rw (refused (at_time env now) access_id id s db password decoded found is_text is) (
            omega (
              arith,
              accesses_bounded env access_id id rest s db m c decoded found is_text max count bound,
            ))
    ]
