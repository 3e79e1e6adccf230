-- ===== src/Vault/Tests.antt =====
-- A vault with concrete stand-ins for the cryptographic library.
mod Content
mod Finding
mod Rotating
use grafted_keys.Prelude.{
  ℕ, zero, suc, ◌+◌, ◌-◌, ◌/◌, ◌≤◌, ◌<◌, ◌≡◌, refl, ap, ◌∙◌, Bool, true, false, Option, none, some,
  List, [], ◌∷◌, ◌++◌, arith, Text, Bytes, codes, length, take, drop, length-append, text_dec, leb,
  ltb, same,
}
use grafted_keys.Exec.{Result, ok, err, driver_failed}
use grafted_keys.Store.Schema.{World, Db, VaultRow}
use grafted_keys.Crypto.{Primitives, IsLawful, KdfParams, key_len}
use grafted_keys.Crypto.Sealing.{length-take}
use grafted_keys.Crypto.{const_equal}
use grafted_keys.Vault.Lifecycle.{Argon, params, wrap_row, setup, unlock, change_passphrase, rekey}
use grafted_keys.Vault.Lifecycle.Unlocking.{setup-unlock}
use grafted_keys.Vault.Lifecycle.Rewrapping.{change_passphrase-unlock, change_passphrase_epoch}
use grafted_keys.Vault.Lifecycle.Rotation.{rekey-unlock}
use grafted_keys.Vault.Calls.{Call, call_setup, perform, perform_failure}

-- Sixteen zeros in front of the plaintext stand for the tag.
abbrev pub zeros : ℕ → Bytes
zeros zero = []
zeros (suc n) = 0 ∷ zeros n

abbrev pub strip : ℕ → Bytes → Option Bytes
strip zero bs = some bs
strip (suc n) [] = none
strip (suc n) (zero ∷ bs) = strip n bs
strip (suc n) (suc b ∷ bs) = none

strip-zeros : (n : ℕ) (pt : Bytes) → strip n (zeros n ++ pt) ≡ some pt
strip-zeros zero pt = refl
strip-zeros (suc n) pt = strip-zeros n pt

zeros-strip : (n : ℕ) (ct pt : Bytes) → strip n ct ≡ some pt → ct ≡ zeros n ++ pt
zeros-strip zero ct pt h = cc
zeros-strip (suc n) [] pt h = absurd (cc)
zeros-strip (suc n) (zero ∷ bs) pt h = ap (◌∷◌ 0) (zeros-strip n bs pt h)
zeros-strip (suc n) (suc b ∷ bs) pt h = absurd (cc)

abbrev pub toy : Primitives
toy = record {
  gcm_seal = λ key nonce pt aad. zeros 16 ++ pt;
  gcm_open = λ key nonce ct aad. strip 16 ct;
  argon2id = λ pass k. take 32 (pass ++ zeros 32);
  totp_code = λ secret t. some (t / 30 ∷ []);
}

pub toy-IsLawful : IsLawful toy
toy-IsLawful = record {
  open-seal = λ key nonce pt aad. strip-zeros 16 pt;
  seal-open = λ key nonce ct aad pt h. zeros-strip 16 ct pt h;
  length-seal = λ key nonce pt aad. omega (arith, length-append (zeros 16) pt);
  length-argon2id =
      λ pass k. length-take 32 (pass ++ zeros 32) (omega (arith, length-append pass (zeros 32)));
}

abbrev pub countdown : ℕ → Bytes
countdown zero = []
countdown (suc n) = n ∷ countdown n

abbrev pub argon : Argon
argon = record { time_t = 1; mem_kib = 8; par = 1 }

abbrev pub empty_db : Db
empty_db = record {
  vault = none;
  projects = [];
  environments = [];
  folders = [];
  secrets = [];
  attachments = [];
  app_settings = [];
}

-- A first start, with random bytes for a few operations.
abbrev pub start : World
start = record { db = empty_db; now = 900; faults = []; entropy = countdown 128 }

abbrev pub password : Bytes
password = codes "hunter2"

abbrev pub new_password : Bytes
new_password = codes "correct horse"

abbrev pub dek : Bytes
dek = take 32 (drop 16 start.entropy)

abbrev pub after_setup : World
after_setup = (setup toy argon password start).1

setup-unlock_example : (unlock toy argon password after_setup).0 ≡ ok dek
unfolding setup const_equal
setup-unlock_example = setup-unlock toy argon argon password dek start after_setup refl refl refl

abbrev pub wrapped_row : VaultRow
wrapped_row =
    wrap_row 1 (params argon (take 16 start.entropy))
      (take 12 (drop 48 start.entropy) ++ (zeros 16 ++ dek))

abbrev pub after_change : World
after_change = (change_passphrase toy argon dek new_password after_setup).1

change_passphrase-unlock_example : (unlock toy argon new_password after_change).0 ≡ ok dek
unfolding setup change_passphrase const_equal
change_passphrase-unlock_example =
    change_passphrase-unlock toy argon argon dek new_password wrapped_row after_setup after_change
      refl refl refl refl

-- The driver fails the third statement of `Setup`, the insertion.
abbrev pub failing : World
failing = record start { faults = false ∷ false ∷ true ∷ [] }

perform_failure_example : (perform toy argon (call_setup password) failing).1.db ≡ empty_db
unfolding perform setup const_equal
perform_failure_example = perform_failure toy argon (call_setup password) failing driver_failed refl

abbrev after_rekey : World
after_rekey = (rekey toy argon password after_setup).1

abbrev rotated_dek : Bytes
rotated_dek = take 32 (drop 60 start.entropy)
