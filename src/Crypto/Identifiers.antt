-- ===== src/Crypto/Identifiers.antt =====
-- The identifiers of `RandID` in internal/crypto/crypto.go.
use grafted_keys.Prelude.{
  ℕ, zero, suc, ◌+◌, ◌/◌, ◌%◌, ◌*◌, ◌≤◌, ◌<◌, ◌≡◌, refl, some, [], ◌∷◌, Bytes, Text, All, arith,
  length, take, get_elem?, leb, ◌&&◌, ◌||◌, Bool, true, false, if◌then◌else◌,
}
use grafted_keys.Exec.{ok}
use grafted_keys.Store.Schema.{World}
use grafted_keys.Crypto.{alphabet, symbol, base32_digits, base32, rand_bytes, rand_id}
use grafted_keys.Crypto.Sealing.{length-take}

-- `[A-Z2-7]`
abbrev pub is_base32 : ℕ → Bool
is_base32 c = (leb 65 c && leb c 90) || (leb 50 c && leb c 55)

abbrev pub IsBase32 : ℕ → Type 0
IsBase32 c = is_base32 c ≡ true

element_IsBase32 :
    (s : Text) (d : ℕ)
    → All IsBase32 s
    → d < length s
    → (c : ℕ) × (get_elem? s d ≡ some c) × (is_base32 c ≡ true)
element_IsBase32 [] d h k = absurd (omega arith)
element_IsBase32 (x ∷ s) zero (h, hs) k = (x, refl, h)
element_IsBase32 (x ∷ s) (suc d) (h, hs) k = element_IsBase32 s d hs (omega arith)

all_base32 : Text → Bool
all_base32 [] = true
all_base32 (c ∷ s) = let rest = all_base32 s in if is_base32 c then rest else false

All-IsBase32 : (s : Text) → all_base32 s ≡ true → All IsBase32 s
unfolding all_base32
All-IsBase32 [] h = tt
All-IsBase32 (c ∷ s) h = (ground arith, All-IsBase32 s (ground arith))

alphabet-IsBase32 : All IsBase32 alphabet
unfolding all_base32
alphabet-IsBase32 = All-IsBase32 alphabet refl

symbol-IsBase32 : (d : ℕ) → d < 32 → IsBase32 (symbol d)
symbol-IsBase32 d k = let (c, e, h) = element_IsBase32 alphabet d alphabet-IsBase32 k in rw e h

base32_digits-IsBase32 :
    (n v : ℕ) (acc : Text) → All IsBase32 acc → All IsBase32 (base32_digits n v acc)
unfolding base32_digits
base32_digits-IsBase32 zero v acc h = h
base32_digits-IsBase32 (suc n) v acc h =
    base32_digits-IsBase32 n (v / 32) (symbol (v % 32) ∷ acc)
      (symbol-IsBase32 (v % 32) (omega arith), h)

length-base32_digits : (n v : ℕ) (acc : Text) → length (base32_digits n v acc) ≡ n + length acc
unfolding base32_digits
length-base32_digits zero v acc = omega arith
length-base32_digits (suc n) v acc =
    omega (arith, length-base32_digits n (v / 32) (symbol (v % 32) ∷ acc))

rand_id_inversion :
    (w : World) (id : Text)
    → (rand_id w).0 ≡ ok id
    → (16 ≤ length w.entropy) × (id ≡ base32 (take 16 w.entropy))
unfolding rand_id rand_bytes
rand_id_inversion w id h = (ground arith, ground arith)

base32_symbols : (b : Bytes) → length b ≡ 16 → (length (base32 b) ≡ 26) × All IsBase32 (base32 b)
unfolding base32
base32_symbols b h = (
  omega (arith, h, length-base32_digits ((8 * length b + 4) / 5) _ []),
  base32_digits-IsBase32 ((8 * length b + 4) / 5) _ [] tt,
)

-- An identifier that is drawn has 26 symbols, each a capital letter or one of the digits 2 to 7.
pub rand_id_symbols :
    (w : World) (id : Text) → (rand_id w).0 ≡ ok id → (length id ≡ 26) × All IsBase32 id
rand_id_symbols w id h =
    let (n, e) = rand_id_inversion w id h in
    rw e (base32_symbols (take 16 w.entropy) (length-take 16 w.entropy n))
