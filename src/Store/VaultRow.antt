-- ===== src/Store/VaultRow.antt =====
-- internal/store/vault_row.go: the single row of vault metadata.
use grafted_keys.Prelude.{ℕ, Bool, true, false, not, Option, none, some, ltb, Bytes, length}
use grafted_keys.Exec.{Exec}
use grafted_keys.Store.Schema.{VaultRow, Db, World, query, query_row, execute}

abbrev has_row : Option VaultRow → Bool
has_row none = false
has_row (some v) = true

unfoldable pub vault_initialized : Exec World Bool
unfolding query
vault_initialized = query λ db. has_row db.vault

unfoldable pub has_data : Exec World Bool
unfolding query
has_data = query λ db. ltb 0 (length db.projects)

unfoldable pub get_vault : Exec World VaultRow
unfolding query_row
get_vault = query_row λ db. db.vault

unfoldable pub init_vault : VaultRow → Exec World (Unit {0})
unfolding execute
init_vault v =
    execute (λ w. not (has_row w.db.vault))
      λ w. record w.db { vault = some (record v { totp_enc = none; totp_last = 0 }) }

-- `UPDATE vault SET … WHERE id = 1`; with no row it affects none, and that is no error.
abbrev pub update_row : (VaultRow → VaultRow) → Db → Db
update_row f db = record db { vault = elim db.vault [ none ↦ none | some v ↦ some (f v) ] }

abbrev pub set_wrap : VaultRow → VaultRow → VaultRow
set_wrap new v = record v {
  epoch = new.epoch;
  argon_time = new.argon_time;
  argon_mem = new.argon_mem;
  argon_par = new.argon_par;
  salt = new.salt;
  wrapped_dek = new.wrapped_dek;
}

unfoldable pub update_vault_wrap : VaultRow → Exec World (Unit {0})
unfolding execute
update_vault_wrap v = execute (λ _. true) λ w. update_row (set_wrap v) w.db

unfoldable pub set_totp : Bytes → ℕ → Exec World (Unit {0})
unfolding execute
set_totp enc last_step =
    execute (λ _. true)
      λ w. update_row (λ v. record v { totp_enc = some enc; totp_last = last_step }) w.db

unfoldable pub clear_totp : Exec World (Unit {0})
unfolding execute
clear_totp =
    execute (λ _. true) λ w. update_row (λ v. record v { totp_enc = none; totp_last = 0 }) w.db

unfoldable pub update_totp_last : ℕ → Exec World (Unit {0})
unfolding execute
update_totp_last step =
    execute (λ _. true) λ w. update_row (λ v. record v { totp_last = step }) w.db
