-- ===== src/Crypto.antt =====
-- internal/crypto. AES-256-GCM, Argon2id and the TOTP code generator are libraries: a record of
-- functions that the definitions take, with what the code relies on as laws.
pub mod Sealing
pub mod Totp
pub mod Identifiers
use grafted_keys.Prelude.{
  ℕ, zero, suc, ◌+◌, ◌-◌, ◌*◌, ◌/◌, ◌%◌, ◌^◌, ◌≡◌, Bool, true, false, not, Option, none, some, List,
  [], ◌∷◌, ◌++◌, map, ltb, leb, ◌==◌, if◌then◌else◌, Bytes, Text, length, take, drop, codes,
  get_elem?,
}
use grafted_keys.Exec.{
  Exec, Result, ok, err, pure, raise, lift, ◌>>=◌, decrypt_failed, bad_key_length, entropy_failed,
  panicked,
}
use grafted_keys.Store.Schema.{World}

abbrev pub key_len : ℕ
key_len = 32

abbrev pub salt_len : ℕ
salt_len = 16

abbrev pub nonce_len : ℕ
nonce_len = 12

pub record KdfParams : Type 0 where
  pub time_t : ℕ
  pub mem_kib : ℕ
  pub par : ℕ
  pub salt : Bytes

-- The library functions: GCM's `Seal` and `Open` of one key, `argon2.IDKey`, and
-- `totp.GenerateCodeCustom` of a secret at a Unix time.
pub record Primitives : Type 0 where
  pub gcm_seal : Bytes → Bytes → Bytes → Bytes → Bytes
  pub gcm_open : Bytes → Bytes → Bytes → Bytes → Option Bytes
  pub argon2id : Bytes → KdfParams → Bytes
  pub totp_code : Text → ℕ → Option Text

-- GCM opens what it sealed, opens nothing else (its tag is a function of the other inputs), and
-- adds a tag of 16 bytes. Argon2id returns a key of the length asked for.
pub record IsLawful (p : Primitives) : Type 0 where
  pub open-seal :
      (key nonce pt aad : Bytes) → p.gcm_open key nonce (p.gcm_seal key nonce pt aad) aad ≡ some pt
  pub seal-open :
      (key nonce ct aad pt : Bytes)
      → p.gcm_open key nonce ct aad ≡ some pt
      → ct ≡ p.gcm_seal key nonce pt aad
  pub length-seal :
      (key nonce pt aad : Bytes) → length (p.gcm_seal key nonce pt aad) ≡ length pt + 16
  pub length-argon2id : (pass : Bytes) (k : KdfParams) → length (p.argon2id pass k) ≡ key_len

-- `io.ReadFull` of the random source: exactly `n` bytes, or an error.
unfoldable pub rand_bytes : ℕ → Exec World Bytes
rand_bytes n w =
    if leb n (length w.entropy)
    then (ok (take n w.entropy), record w { entropy = drop n w.entropy })
    else (err entropy_failed, record w { entropy = [] })

-- Base32 with the standard alphabet and no padding: the bits in groups of five, the last group
-- filled up with zeros.
abbrev alphabet : Text
alphabet = codes "ABCDEFGHIJKLMNOPQRSTUVWXYZ234567"

abbrev symbol : ℕ → ℕ
symbol d = elim (get_elem? alphabet d) [ none ↦ 0 | some c ↦ c ]

big_endian : ℕ → Bytes → ℕ
big_endian acc [] = acc
big_endian acc (b ∷ bs) = big_endian (acc * 256 + b) bs

-- The last `n` base-32 digits of a number, most significant first.
base32_digits : ℕ → ℕ → Text → Text
base32_digits zero v acc = acc
base32_digits (suc n) v acc = base32_digits n (v / 32) (symbol (v % 32) ∷ acc)

unfoldable pub base32 : Bytes → Text
unfolding big_endian base32_digits
base32 bs =
    let chars = (8 * length bs + 4) / 5 in
    base32_digits chars (big_endian 0 bs * 2 ^ (5 * chars - 8 * length bs)) []

-- `RandID`: a failing random source is a panic.
abbrev or_panic : Result Bytes × World → Result Text × World
or_panic (ok b, w) = (ok (base32 b), w)
or_panic (err e, w) = (err panicked, w)

unfoldable pub rand_id : Exec World Text
unfolding rand_bytes
rand_id w = or_panic (rand_bytes 16 w)

-- `ConstEqual`
unfoldable pub const_equal : Bytes → Bytes → Bool
const_equal [] [] = true
const_equal [] (y ∷ ys) = false
const_equal (x ∷ xs) [] = false
const_equal (x ∷ xs) (y ∷ ys) = let rest = const_equal xs ys in if x == y then rest else false

module _ (p : Primitives) where
  -- `DeriveKEK`
  abbrev pub derive_kek : Bytes → KdfParams → Bytes
  derive_kek pass k = p.argon2id pass k

  -- `Seal`: nonce, ciphertext and tag. A key of another length is refused by `newGCM`.
  unfoldable pub seal : Bytes → Bytes → Bytes → Exec World Bytes
  unfolding rand_bytes
  seal key pt aad w =
      if length key == key_len
      then (do nonce ← rand_bytes nonce_len; pure (nonce ++ p.gcm_seal key nonce pt aad)) w
      else (err bad_key_length, w)

  abbrev opened : Option Bytes → Result Bytes
  opened none = err decrypt_failed
  opened (some pt) = ok pt

  -- `Open`
  unfoldable pub open_blob : Bytes → Bytes → Bytes → Result Bytes
  open_blob key blob aad =
      if length key == key_len
      then if ltb (length blob) nonce_len
        then err decrypt_failed
        else opened (p.gcm_open key (take nonce_len blob) (drop nonce_len blob) aad)
      else err bad_key_length
