-- ===== src/Server/Organization/Roles.antt =====
-- server/src/db/models/organization.rs: the membership row, its status and its type, whose `i32`
-- columns keep what the database holds. Identifiers and texts are numbers; 0 is the empty text.
use nad_safe_password_manage.Prelude.{
  ℕ, Bool, true, false, not, ◌&&◌, ◌||◌, Option, none, some, ◌==◌, ltb, if◌then◌else◌, ℤ, pos,
  negsuc, ◌+ℤ◌, ◌-ℤ◌, ltb_ℤ, ◌==ℤ◌,
}
use nad_safe_password_manage.Server.EmergencyAccess.Model.{
  MembershipType, owner, admin, user, manager,
}

pub data MembershipStatus : Type 0 where
  revoked invited accepted confirmed : MembershipStatus

-- `as i32`
abbrev pub status_code : MembershipStatus → ℤ
status_code revoked = negsuc 0
status_code invited = pos 0
status_code accepted = pos 1
status_code confirmed = pos 2

-- `MembershipStatus::from_i32`
abbrev pub status_from_i32 : ℤ → Option MembershipStatus
status_from_i32 (pos n) =
    if n == 0
    then some invited
    else if n == 1
    then some accepted
    else if n == 2
    then some confirmed
    else none
status_from_i32 (negsuc n) = none

abbrev pub type_code : MembershipType → ℕ
type_code owner = 0
type_code admin = 1
type_code user = 2
type_code manager = 3

-- `FromPrimitive::from_i32`
abbrev pub type_from_i32 : ℕ → Option MembershipType
type_from_i32 n =
    if n == 0
    then some owner
    else if n == 1
    then some admin
    else if n == 2
    then some user
    else if n == 3
    then some manager
    else none

-- the texts that `MembershipType::from_str` knows
pub data RawType : Type 0 where
  digit : ℕ → RawType
  owner_name admin_name user_name manager_name custom_name other : RawType

abbrev pub from_str : RawType → Option MembershipType
from_str (digit n) = if n == 4 then some manager else type_from_i32 n
from_str owner_name = some owner
from_str admin_name = some admin
from_str user_name = some user
from_str manager_name = some manager
from_str custom_name = some manager
from_str other = none

-- `raw_type.eq("4")`
abbrev pub is_custom : RawType → Bool
is_custom (digit n) = n == 4
is_custom _ = false

abbrev pub access_level : MembershipType → ℕ
access_level owner = 3
access_level admin = 2
access_level user = 0
access_level manager = 1

-- `MembershipType >= MembershipType`
abbrev pub at_least : MembershipType → MembershipType → Bool
at_least a b = not (ltb (access_level a) (access_level b))

abbrev pub type_eq : MembershipType → MembershipType → Bool
type_eq a b = type_code a == type_code b

abbrev pub known_lt : Option MembershipType → MembershipType → Bool
known_lt none t = true
known_lt (some a) t = not (at_least a t)

-- `i32 < MembershipType`, which holds of an unknown code
abbrev pub type_lt : ℕ → MembershipType → Bool
type_lt code t = known_lt (type_from_i32 code) t

abbrev pub known_ge : Option MembershipType → MembershipType → Bool
known_ge none t = false
known_ge (some a) t = at_least a t

-- `i32 >= MembershipType`, the default from `partial_cmp`
abbrev pub type_ge : ℕ → MembershipType → Bool
type_ge code t = known_ge (type_from_i32 code) t

pub record Membership : Type 0 where
  pub uuid : ℕ
  pub user_uuid : ℕ
  pub org_uuid : ℕ
  pub invited_by_email : Option ℕ
  pub access_all : Bool
  pub akey : ℕ
  pub status : ℤ
  pub atype : ℕ
  pub reset_password_key : Option ℕ
  pub external_id : Option ℕ

abbrev pub activate_revoke_diff : ℤ
activate_revoke_diff = pos 128

-- `Membership::new`, with the identifier drawn for it
unfoldable pub new : ℕ → ℕ → ℕ → Option ℕ → Membership
new id user_id org_id invited_by = record {
  uuid = id;
  user_uuid = user_id;
  org_uuid = org_id;
  invited_by_email = invited_by;
  access_all = false;
  akey = 0;
  status = status_code accepted;
  atype = type_code user;
  reset_password_key = none;
  external_id = none;
}

-- the row after `restore`, and whether it changed
unfoldable pub restore : Membership → Membership × Bool
restore m =
    if ltb_ℤ m.status (status_code invited)
    then (record m { status = m.status +ℤ activate_revoke_diff }, true)
    else (m, false)

-- the row after `revoke`, and whether it changed
unfoldable pub revoke : Membership → Membership × Bool
revoke m =
    if ltb_ℤ (status_code revoked) m.status
    then (record m { status = m.status -ℤ activate_revoke_diff }, true)
    else (m, false)

unfoldable pub get_unrevoked_status : Membership → ℤ
get_unrevoked_status m =
    if not (ltb_ℤ (status_code revoked) m.status)
    then m.status +ℤ activate_revoke_diff
    else m.status

abbrev same_text : Option ℕ → Option ℕ → Bool
same_text none none = true
same_text (some a) (some b) = a == b
same_text _ _ = false

abbrev filled : Option ℕ → Option ℕ
filled none = none
filled (some id) = if id == 0 then none else some id

unfoldable pub set_external_id : Option ℕ → Membership → Membership × Bool
set_external_id id m =
    if not (same_text m.external_id id)
    then (record m { external_id = filled id }, true)
    else (m, false)

unfoldable pub type_manager_as_custom : Membership → ℕ
type_manager_as_custom m = if m.atype == 3 then 4 else m.atype

abbrev pub has_status : MembershipStatus → Membership → Bool
has_status s m = m.status ==ℤ status_code s

abbrev pub has_type : MembershipType → Membership → Bool
has_type t m = m.atype == type_code t

unfoldable pub has_full_access : Membership → Bool
has_full_access m = (m.access_all || type_ge m.atype admin) && has_status confirmed m
