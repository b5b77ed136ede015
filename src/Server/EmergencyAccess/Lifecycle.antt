-- ===== src/Server/EmergencyAccess/Lifecycle.antt =====
-- The life of one emergency access as a state machine: which changes of its row are allowed, and to
-- whom. It is the abstract view of server/src/api/core/emergency_access.rs.
pub mod Rules
pub mod Requests
pub mod Contacts
pub mod Clock
pub mod Steps
pub mod Safety
pub mod Invariant
use nad_safe_password_manage.Prelude.{ℕ, ◌≡◌, ◌⊎◌, true, Option, none, some}
use nad_safe_password_manage.Server.EmergencyAccess.Model.{
  EmergencyAccess, EmergencyAccessType, EmergencyAccessStatus, invited, accepted, confirmed,
  recovery_initiated, recovery_approved, WaitTime, Env, or_else,
}
use nad_safe_password_manage.Server.EmergencyAccess.Jobs.{is_timed_out, is_reminder_due}

-- a request of a user, or a job
pub data Actor : Type 0 where
  by : ℕ → Actor
  clock : Actor

-- The owner is the row's grantor, the contact its grantee.
pub data Update (env : Env) (who : Actor) (r r' : EmergencyAccess) : Type 0 where
  edits :
      (t : EmergencyAccessType) (wait : WaitTime) (key : Option ℕ)
      → who ≡ by r.grantor_uuid
      → r' ≡ record r {
        atype = t;
        wait_time_days = wait;
        key_encrypted = or_else key r.key_encrypted;
        updated_at = env.now;
      }
      → Update env who r r'
  accepts :
      (contact email : ℕ)
      → r.email ≡ some email
      → r' ≡ record r {
        status = accepted;
        grantee_uuid = some contact;
        email = none;
        updated_at = env.now;
      }
      → Update env who r r'
  confirms :
      (contact key : ℕ)
      → who ≡ by r.grantor_uuid
      → r.status ≡ accepted
      → r.grantee_uuid ≡ some contact
      → r' ≡ record r {
        status = confirmed;
        key_encrypted = some key;
        email = none;
        updated_at = env.now;
      }
      → Update env who r r'
  initiates :
      (contact : ℕ)
      → who ≡ by contact
      → r.grantee_uuid ≡ some contact
      → r.status ≡ confirmed
      → r' ≡ record r {
        status = recovery_initiated;
        recovery_initiated_at = some env.now;
        last_notification_at = some env.now;
        updated_at = env.now;
      }
      → Update env who r r'
  approves :
      who ≡ by r.grantor_uuid
      → r.status ≡ recovery_initiated
      → r' ≡ record r { status = recovery_approved; updated_at = env.now }
      → Update env who r r'
  rejects :
      who ≡ by r.grantor_uuid
      → (r.status ≡ recovery_initiated) ⊎ (r.status ≡ recovery_approved)
      → r' ≡ record r { status = confirmed; updated_at = env.now }
      → Update env who r r'
  times_out :
      who ≡ clock
      → r.status ≡ recovery_initiated
      → is_timed_out env.now r ≡ true
      → r' ≡ record r { status = recovery_approved; updated_at = env.now }
      → Update env who r r'
  reminds :
      who ≡ clock
      → r' ≡ record r { last_notification_at = some env.now; updated_at = env.now }
      → Update env who r r'

pub data Change (env : Env) (who : Actor)
    : Option EmergencyAccess → Option EmergencyAccess → Type 0 where
  creates :
      (r : EmergencyAccess) (email : ℕ)
      → who ≡ by r.grantor_uuid
      → r.status ≡ invited
      → r.grantee_uuid ≡ none
      → r.email ≡ some email
      → Change env who none (some r)
  updates : {r r' : EmergencyAccess} → Update env who r r' → Change env who (some r) (some r')
  deletes :
      (r : EmergencyAccess) (user : ℕ)
      → who ≡ by user
      → (r.grantor_uuid ≡ user) ⊎ (r.grantee_uuid ≡ some user)
      → Change env who (some r) none

-- any number of changes
pub data Changes (env : Env) (who : Actor)
    : Option EmergencyAccess → Option EmergencyAccess → Type 0 where
  stays : (o : Option EmergencyAccess) → Changes env who o o
  more :
      {o p q : Option EmergencyAccess}
      → Change env who o p
      → Changes env who p q
      → Changes env who o q
