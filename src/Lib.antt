-- ===== src/Lib.antt =====
-- ConfigDeck keeps the environment variables of services: values are encrypted, changes go through
-- requests that are reviewed, previewed and applied, and users sign in with a second factor. This
-- library models the core of the server, the Rust code under src/, and proves its main promises.
--
-- The parts, and where they are modelled:
--   * Prelude: numbers, texts as lists of code points, `i64`, tables as maps from their primary key.
--   * Errors: `AppError` of src/error.rs, and chains of steps that may fail.
--   * Users: roles and capabilities of src/users/mod.rs (`Role::allows`, `can_access_service`).
--   * Accounts: the operations of src/users/mod.rs that change accounts and grants. Accounts.antt has
--     the tables and their statements, Accounts/Guards.antt the tests, Accounts/Passwords.antt and
--     Accounts/Manage.antt the operations, Accounts/Steps.antt sequences of their transactions, and
--     Accounts/Administrators.antt, Ended.antt and Managers.antt what holds of them. Accounts feeds
--     the sessions of Auth: `store_of` is the view that the sessions have of its tables.
--   * Variables: the `validate_*` functions of src/variables/mod.rs.
--   * Dotenv: src/dotenv/mod.rs. Dotenv/Values.antt has keys, values and single assignments,
--     Dotenv/Parse.antt lines, groups and values of several lines, Dotenv/Report.antt the loop of
--     `parse`. The loop goes down the list of lines and counts the lines that a value has consumed.
--   * Crypto: src/crypto/mod.rs. Crypto/Aad.antt has `AadBuilder` and the five kinds of authenticated
--     data, Crypto/Manager.antt the operations of `CryptoManager`, Crypto/Binding.antt and the
--     modules under Crypto/Manager what they promise. A field of 2^32 bytes or more is a panic.
--   * Auth: one-time codes of src/auth/totp.rs and `verify_and_consume_totp` of src/auth/service.rs
--     (Auth/Totp.antt and below), sessions of src/auth/session.rs (Auth/Session.antt,
--     Auth/Session/Store.antt for `create`, `load` and `revoke`, Store/Rotate.antt for `rotate`,
--     and Store/Refused.antt for sequences of all of these).
--   * Requests: src/requests/mod.rs. Requests/Rows.antt has the tables, Requests/Schema.antt the
--     CHECKs and triggers of migrations/0001_initial.sql on the table change_requests,
--     Requests/Workflow.antt `approve`, `reject` and `fulfill_value`, Requests/Selection.antt the
--     selection of requests and its fingerprint, Requests/Apply.antt with Apply/Persist.antt and
--     Apply/Commit.antt below it
--     `preview_resulting` and `mark_applied`, Requests/History.antt sequences of these.
--   * Rotations: `rotate_dek` of src/rotations/mod.rs. Rotations.antt has the sealed records and what
--     is done with one, through an interface that the three tables implement (its laws are in
--     Rotations/Laws.antt), Rotations/Batch.antt one batch, Rotations/Dek.antt the loop and the
--     verification, Rotations/Whole.antt the rest. The proofs take the abstract view of
--     Rotations/Secrets.antt, the plain texts by record, in Kept.antt, Written.antt, Refines.antt and
--     Finalized.antt, with what a batch counts in Balance.antt, what others may do in the meantime in
--     Rely.antt, and a batch of another run, as an instance of it, in Runs.antt; they count turns in Progress.antt,
--     Ends.antt, Emptied.antt and Completes.antt.
--   * Catalog: services and environments, src/services/mod.rs (Catalog/Services.antt) and
--     src/environments/mod.rs (Catalog/Environments.antt), over the tables of Catalog.antt; what
--     sequences of their changes keep is in Histories.antt, with Stays.antt and Archived.antt, and
--     the key of a new environment in Keys.antt.
--   * Tests: concrete runs.
--
-- How the code is modelled. A transaction is a function from the database to an error, which leaves
-- the database as it was, or to a new database. An operation that reads before its transaction
-- takes two databases, and a step of a history takes what was read before as an argument, so that
-- others may act in between; the rotation takes what others do as functions. An `UPDATE … WHERE` by
-- primary key is a test of one row. Loops are recursions on the lists that they go through. The loop of a rotation runs on fuel, which each turn
-- uses up by one; it is enough if there is more of it than unfinished operations have records left
-- and sealed records are stored, together.
--
-- Parameters stand for code of libraries: ChaCha20-Poly1305 and HKDF (sealing and opening are
-- inverse to each other), HMAC-SHA-1, SHA-256, Argon2, the lower case of Unicode, hexadecimal,
-- UUIDs, URIs, the clock and randomness.
-- The data keys and values of an environment are a parameter of the application of requests
-- (`Vault`).
--
-- Not modelled: the web handlers, the lists and pages, the creation and the editing of requests, the
-- rotation of the master key, imports, `dotenv::render` but for single values, logging
-- in, backups, configuration and start. A history of requests therefore consists of approvals,
-- rejections, fulfilled values, previews and applications only, one of accounts of the
-- operations of src/users/mod.rs, and one of the catalog of its own operations. The requests, the
-- accounts, the rotation and the catalog have a database each, with the tables that they use. Failures of the database itself are left out.
pub mod Accounts
pub mod Auth
pub mod Catalog
pub mod Crypto
pub mod Dotenv
pub mod Errors
pub mod Prelude
pub mod Requests
pub mod Rotations
pub mod Tests
pub mod Users
pub mod Variables
