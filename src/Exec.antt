-- ===== src/Exec.antt =====
-- Go functions that return an error beside their result and work on the outside world: the
-- database, the clock, the random source. What was done before an error stays done, so the state
-- comes back beside the error too. A value that Go returns beside an error is dropped, as the callers
-- do.
use grafted_keys.Prelude.{◌≡◌, refl}

-- The errors that the modelled packages return, and the panic of a failing random source.
pub data Error : Type 0 where
  -- internal/store: `ErrNotFound`, a violated constraint, and a statement that the driver failed
  not_found constraint_failed driver_failed newer_schema : Error
  -- internal/crypto
  decrypt_failed bad_key_length entropy_failed panicked bad_totp_secret : Error
  -- internal/vault
  not_init already_init orphan_data bad_passphrase self_check_failed : Error
  -- internal/config
  bad_config : Error
  -- packages os and io
  io_failed not_exist : Error
  -- `ValidateVaultFile`
  not_a_database unsupported_version no_vault : Error

pub data Result {ℓ} (A : Type ℓ) : Type ℓ where
  ok : A → Result A
  err : Error → Result A

abbrev pub Exec {ℓ} : Type ℓ → Type ℓ → Type ℓ
Exec S A = S → Result A × S

pub ok_injective {ℓ} : {A : Type ℓ} (a b : A) → ok a ≡ ok b → a ≡ b
ok_injective a b h = cc

module _ {ℓ} {S A : Type ℓ} where
  abbrev pub pure : A → Exec S A
  pure a s = (ok a, s)

  abbrev pub raise : Error → Exec S A
  raise e s = (err e, s)

  abbrev pub lift : Result A → Exec S A
  lift r s = (r, s)

module _ {ℓ} {S A B : Type ℓ} where
  abbrev pub continue : Result A → (A → Exec S B) → Exec S B
  continue (ok a) f s = f a s
  continue (err e) f s = (err e, s)

  infixl 10 ◌>>=◌ ◌>>◌
  abbrev pub ◌>>=◌ : Exec S A → (A → Exec S B) → Exec S B
  ◌>>=◌ m f s = continue (m s).0 f (m s).1

  abbrev pub ◌>>◌ : Exec S A → Exec S B → Exec S B
  m >> n = m >>= λ _. n

  -- What every step of a chain keeps, a chain keeps.
  pub continue_keeps :
      (P : S → Type 0) (x : Result A) (f : A → Exec S B) (s : S)
      → P s
      → ((a : A) (t : S) → P t → P (f a t).1)
      → P (continue x f s).1
  continue_keeps P (ok a) f s p k = k a s p
  continue_keeps P (err e) f s p k = p

  -- A chain that succeeds is its first part, which succeeds, and then the rest.
  pub bind_inversion :
      (m : Exec S A) (f : A → Exec S B) (s : S) (b : B)
      → ((m >>= f) s).0 ≡ ok b
      → (a : A) × ((m s).0 ≡ ok a) × ((f a (m s).1).0 ≡ ok b) × ((m >>= f) s ≡ f a (m s).1)
  bind_inversion m f s b h = after (m s).0 (m s).1 h
    where
      after :
          (x : Result A) (t : S)
          → (continue x f t).0 ≡ ok b
          → (a : A) × (x ≡ ok a) × ((f a t).0 ≡ ok b) × (continue x f t ≡ f a t)
      after (ok a) t k = (a, refl, k, refl)
      after (err e) t k = absurd (cc)
