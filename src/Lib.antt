-- ===== src/Lib.antt =====
-- The verification library of the NadSafe password manager: the cryptographic core of the clients
-- and the emergency access, the organizations, some second factors and the sends of the server.
--
-- The program's parts. crates/crypto-core makes and opens encrypted strings (enc_string.rs) under
-- keys that come from a master password (kdf.rs, keys.rs) or a recovery phrase (recovery.rs), and
-- generates passwords (password_gen.rs) and TOTP codes (totp.rs). The desktop client calls it
-- through commands (clients/desktop/src-tauri/src/commands/vault.rs). The server stores what the
-- clients encrypted; with emergency access (server/src/api/core/emergency_access.rs,
-- server/src/db/models/emergency_access.rs) a user lets a contact see the vault or take over the
-- account after a wait time. Users share what they store in organizations, whose members have a
-- type and a status (server/src/api/core/organizations.rs, server/src/db/models/organization.rs,
-- org_policy.rs, and the guards of server/src/auth.rs). A request may ask for a second factor
-- (server/src/api/core/two_factor/authenticator.rs, protected_actions.rs). A send is a text or a
-- file that anyone with its link can open (server/src/api/core/sends.rs,
-- server/src/db/models/send.rs).
--
-- The files.
--   Prelude, Prelude/*: names that all share, Boolean tests, lists, results, counting.
--   Std, Std/*: what the sources use of Rust's standard library on text and numbers.
--   Crypto/Crates: the foreign crates as a record of operations, their documented behaviour as
--     records of laws; Crypto/Crates/Toy is an instance of all of them, for the examples.
--   Crypto/Error, EncString, Kdf, MasterKey, UserKey, OrgKey, Recovery, PasswordGen, Totp: one file
--     for each source file or type of crates/crypto-core/src, with the source's names; the files
--     below each hold the proofs. Key types have a file each, as their operations share names.
--   Desktop/Vault: the commands of the desktop client.
--   Server/Table: a database table with a primary key, and Table/Count, what of it passes a test;
--     Server/Handler: a request handler that may stop with an error and keeps what it has written
--     before, and Handler/Ends, what holds of the state that it leaves.
--   Server/EmergencyAccess/Model: rows, queries, save and delete; Invite, Recovery: the handlers;
--     Jobs: the two jobs; Vault: the ciphers that a view answers with; Kept: what a takeover
--     leaves of other rows; Lifecycle: the state machine of one emergency access, with the proofs
--     that the handlers and jobs follow it (Lifecycle/Requests, Contacts, Clock, Steps) and what
--     follows (Lifecycle/Safety, Invariant); Acceptance: what it takes to accept an invitation;
--     Access: what the uses of an approved access do.
--   Server/Organization/Roles: the membership row, status and type; Model: rows, queries, save
--     and delete; Policy: org_policy.rs; Members: the guards, leaving, editing, deleting,
--     revoking and restoring; Invitations: inviting, accepting and confirming; Bulk: several
--     confirmations; Settings: creating an organization and setting a policy; Requests: these
--     with their guards, and the states that they lead to. The proofs: Sound, Silent, Owners and
--     its child modules, Invariant (what every request keeps), Rights (what an administrator
--     cannot change), Admission (what a confirmation has checked), Revocation.
--   Server/TwoFactor/Model: the rows; Authenticator, with Replay: TOTP codes and their time steps;
--     ProtectedActions, with Attempts: codes by mail and their guesses.
--   Server/Sends/Model: the row and its queries, beside the database of Server/Organization, whose
--     policies it asks; Requests: the handlers; Accesses: how often a text can be opened.
--   The modules Tests hold examples.
--
-- Correspondence. Bytes and text are lists of numbers, a byte below 256, a character its code
-- point. A Rust array of n bytes is a list with `IsArray n`. Random bytes are arguments, and the
-- password generator takes the random source as a record, and the kind of build and the length
-- that a vector can grow to as another. A panic is `none` in PasswordGen and
-- Totp, and an error that stops the handler in Server. In Server a database is a record of tables;
-- identifiers, addresses, names and keys are numbers that are only compared and copied, times are
-- seconds, and the configuration, the clock, the mail server and fresh identifiers are the record
-- `Env`. The code's accept_invite handler is accept_emergency_invite, as the model's method has the
-- same name. A save is taken to succeed and to replace the row of the same uuid. In
-- Server/Organization the generator of identifiers is part of the database, and an `i32` status is
-- an integer, which stays in its range by a theorem.
--
-- Bounds and fuel. `fill` has one round more than the length of the password, which is enough as
-- every round adds a character; `chunks` has as many rounds as there are digits; `decimal` one more
-- than the number. The sum of `usize` values in `min_total` panics past 2 ^ 64 in a build with
-- overflow checks and wraps in one without; the decoder's bits wrap at 2 ^ 32; the `u64` expiration
-- time of a code by mail is cast to an `i64`. The number of days is a natural number or the
-- negative of one; a job panics where the days lead out of the range of dates, which is in `Env`.
--
-- Not modelled: failures of the database, concurrent requests within one handler, the JSON views
-- (that of a cipher is a function of `Env`), the text of mails, events and notifications, in
-- Server/EmergencyAccess the rows of collections and groups that a membership's deletion also
-- removes, deleting an organization, the tables of an account that Server/Organization does not
-- use, the files of sends, the lock command of the desktop client, and the other parts of the
-- server.
pub mod Prelude
pub mod Std
pub mod Crypto
pub mod Desktop
pub mod Server
