-- ===== src/Vault/Factor.antt =====
-- internal/vault/content.go: the second factor of the vault.
pub mod Replay
use grafted_keys.Prelude.{
  ℕ, Bool, true, false, Option, none, some, List, [], ◌∷◌, Bytes, Text, codes, ltb, length,
}
use grafted_keys.Exec.{Exec, Result, pure, lift, ◌>>=◌, ◌>>◌}
use grafted_keys.Store.Schema.{World}
use grafted_keys.Store.VaultRow.{get_vault, set_totp, clear_totp, update_totp_last}
use grafted_keys.Crypto.{Primitives}
use grafted_keys.Crypto.Totp.{Verdict, accepted, replayed, no_match, validate_totp}
use grafted_keys.Vault.Items.{seal_field, field}

-- NULL is read as no bytes.
abbrev pub blob_of : Option Bytes → Bytes
blob_of none = []
blob_of (some b) = b

-- `time.Now()`
abbrev pub clock : Exec World ℕ
clock w = pure w.now w

unfoldable pub totp_enabled : Exec World Bool
unfolding get_vault
totp_enabled = do v ← get_vault; pure (ltb 0 (length (blob_of v.totp_enc)))

abbrev vault : Text
vault = codes "vault"

abbrev totp : Text
totp = codes "totp"

-- A code that is not accepted is no error.
abbrev pub on_accept : Verdict → (ℕ → Exec World (Unit {0})) → Exec World Bool
on_accept (accepted s) act = act s >> pure true
on_accept (replayed s) act = pure false
on_accept no_match act = pure false

module _ (p : Primitives) (dek : Bytes) where
  unfoldable pub confirm_totp : Text → Text → Exec World Bool
  unfolding validate_totp seal_field set_totp
  confirm_totp secret code = do
    now ← clock
    verdict ← lift (validate_totp p secret code none now)
    on_accept verdict
        λ step. do enc ← seal_field p dek secret vault (codes "1") totp; set_totp enc step

  unfoldable pub verify_login_totp : Text → Exec World Bool
  unfolding get_vault field validate_totp update_totp_last
  verify_login_totp code = do
    v ← get_vault
    secret ← lift (field p dek (blob_of v.totp_enc) vault (codes "1") totp)
    now ← clock
    verdict ← lift (validate_totp p secret code (some v.totp_last) now)
    on_accept verdict update_totp_last

unfoldable pub disable_totp : Exec World (Unit {0})
unfolding clear_totp
disable_totp = clear_totp
