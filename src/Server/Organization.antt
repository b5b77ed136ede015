-- ===== src/Server/Organization.antt =====
-- Organizations and their memberships (server/src/api/core/organizations.rs,
-- server/src/db/models/organization.rs and org_policy.rs).
pub mod Roles
pub mod Model
pub mod Policy
pub mod Members
pub mod Invitations
pub mod Bulk
pub mod Settings
pub mod Sound
pub mod Silent
pub mod Owners
pub mod Requests
pub mod Invariant
pub mod Revocation
pub mod Rights
pub mod Admission
pub mod Tests
