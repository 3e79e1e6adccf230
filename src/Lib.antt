-- ===== src/Lib.antt =====
-- A verification library for the vault server: login throttling and custody of keys
-- (internal/auth), the encrypted store (internal/store), the primitives (internal/crypto), the
-- vault itself (internal/vault), its backups (internal/backup), its web surface (internal/web), its
-- configuration (internal/config) and the restore at its start (cmd/grafted).
--
-- The vault seals every field of its content under a data key, wraps that key under a key derived
-- from the passphrase, and keeps both kinds of ciphertext in SQLite. A session holds the data key
-- between requests, and the limiter throttles the attempts to unlock. A request passes the
-- middleware, which finds its session and checks its token, and reaches a handler, which calls the
-- vault with the key of the session.
--
-- - Prelude and its modules: Boolean tests, lists over the native numbers, texts as lists of code
--   points, association lists for maps.
-- - Exec: Go functions with an error result that work on the outside world.
-- - Auth.Limiter: internal/auth/ratelimit.go; `allowed`, `fail`, `reset`, `sweep`, `retry_after`.
-- - Auth.Sessions: internal/auth/session.go, with data keys as buffers in a store, so that zeroing
--   and sharing can be stated.
-- - Store.Schema: the tables, and a world of the database, the clock, a schedule of statements that
--   the driver fails, and the bytes of the random source. Store.Content, Store.Secrets and
--   Store.VaultRow are the queries and statements of internal/store/model.go and vault_row.go;
--   Store.Transaction and Store.Rekey are the transactions of store.go and rekey.go. A statement
--   is one step, has no effect when a constraint refuses it, and a foreign key cascades.
-- - Store.Migration: `migrate` of store.go, with what a migration does as a parameter.
-- - Store.Atomic and Store.Ensures: rules for operations that leave the database alone when they
--   fail, and for what they ensure when they succeed. Store.Integrity: keys and foreign keys.
-- - Crypto, Crypto.Totp: internal/crypto over a record `Primitives` of the library functions (GCM,
--   Argon2id, the code generator), with the laws of `IsLawful`.
-- - Vault.Aad, Vault.Lifecycle: internal/vault/vault.go. Vault.Items, Vault.Secrets, Vault.Search,
--   Vault.Factor: internal/vault/content.go and attachments.go. Vault.Calls: its operations on the
--   key and the content as one type. Vault.Search.Bounds and Completeness: what `Search`
--   finds.
-- - Store.Rekey.Cells, Recs, Loop and Contents: each ciphertext of the database as a cell, and what
--   the rekey transaction leaves in it. Vault.Lifecycle.Reencryption: the view of the plain texts
--   under a key.
-- - Auth.Address: `ClientIP` of internal/auth/session.go. Config: internal/config/config.go.
-- - Web.Server, Web.Middleware: internal/web/server.go; the state is the database, the outside world,
--   the sessions, the limiter and the backup schedule, and a handler is an operation on it that
--   returns a response or panics. Web.Login: internal/web/handlers_auth.go. Web.Settings:
--   internal/web/handlers_settings.go. Web.Serving: what the middleware does for every handler.
--   Web.Content: handlers.go and handlers_content.go. Web.Secrets: handlers_secret.go and
--   handlers_attach.go, with Web.Disposition for the header of a download and Web.FileName for the
--   cleaning of the name of an upload. Web.EnvFile and Web.Import: handlers_import.go.
--   Web.Server.Outcome and Web.Login.Admitting: rules for what a handler leaves behind.
--   Web.Backups: the snapshots, downloads and restores of handlers_settings.go. Web.Sizes: its
--   `humanSize`. Web.Routes: the table of routes and the multiplexer, with Web.Reads and
--   Vault.Reading for what only reads.
-- - Backup: internal/backup/backup.go over a directory of files; a call of package os is one step,
--   which a list of faults may fail. Backup.Waiting has the time zone as a parameter. Boot: the
--   restore at the start of cmd/grafted/main.go, and `ValidateVaultFile` of store.go.
-- - Modules named Tests: concrete runs, and an instance of the library functions with their laws.
--
-- Times of the limiter and the sessions are natural numbers of nanoseconds, with the zero time as
-- 0 and a difference that stops at 0; those of the store are Unix seconds. Two functions
-- are on fuel: the printing of a number in decimal, which has one unit more than the number, and the
-- loop of `humanSize`, for which six units are enough. The mutexes
-- make a method one step, so histories of calls are sequences of steps. A request is handled at one
-- moment with no other request in between. The durations of the configuration are signed.
--
-- Not modelled: the list of backups on the settings page, response headers but the disposition of
-- a download, the cleaning of request paths, what each migration does, the wiring and signals of
-- main.go, templates and scripts; the scrubbing of local copies of keys. What a database file holds is a
-- parameter.
-- Functions of Go's library (`strings.ToLower`, `strings.TrimSpace`, the parsers of numbers,
-- durations, times and addresses, base64) are parameters.
pub mod Prelude
pub mod Exec
pub mod Auth
pub mod Store
pub mod Crypto
pub mod Vault
pub mod Web
pub mod Config
pub mod Backup
pub mod Boot
