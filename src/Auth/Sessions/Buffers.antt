-- ===== src/Auth/Sessions/Buffers.antt =====
-- The key buffers of internal/auth/session.go, by address.
use grafted_keys.Prelude.{
  ℕ, suc, zero, ◌≡◌, refl, ap, ℕ_discrete, ◌≢◌, ◌⊎◌, inl, inr, Option, none, some, List, [], ◌∷◌,
  ◌++◌, arith, ◌==◌, if◌then◌else◌, Bytes, All, length, get_elem?, set, Option-cases,
}
use grafted_keys.Auth.Sessions.{zero_bytes, zero_key}

abbrev pub Cleared : Bytes → Type 0
Cleared = All (λ x. x ≡ 0)

pub zero_bytes-Cleared : (b : Bytes) → Cleared (zero_bytes b)
unfolding zero_bytes
zero_bytes-Cleared [] = tt
zero_bytes-Cleared (x ∷ b) = (refl, zero_bytes-Cleared b)

module _ {ℓ} {A : Type ℓ} where
  pub get_elem?-set :
      (xs : List A) (i j : ℕ) (v w : A)
      → get_elem? xs i ≡ some w
      → get_elem? (set xs i v) j ≡ (if i == j then some v else get_elem? xs j)
  get_elem?-set [] i j v w e = cc
  get_elem?-set (x ∷ xs) zero zero v w e = ground arith
  get_elem?-set (x ∷ xs) zero (suc j) v w e = ground arith
  get_elem?-set (x ∷ xs) (suc i) zero v w e = ground arith
  get_elem?-set (x ∷ xs) (suc i) (suc j) v w e = ground (arith, get_elem?-set xs i j v w e)

  pub get_elem?-append :
      (xs : List A) (v : A) (j : ℕ)
      → get_elem? (xs ++ v ∷ []) j ≡ (if length xs == j then some v else get_elem? xs j)
  get_elem?-append [] v zero = ground arith
  get_elem?-append [] v (suc j) = ground arith
  get_elem?-append (x ∷ xs) v zero = ground arith
  get_elem?-append (x ∷ xs) v (suc j) = ground (arith, get_elem?-append xs v j)

  pub get_elem?-length : (xs : List A) → get_elem? xs (length xs) ≡ none
  get_elem?-length [] = refl
  get_elem?-length (x ∷ xs) = get_elem?-length xs

abbrev zeroed : Option Bytes → Option Bytes
zeroed none = none
zeroed (some b) = some (zero_bytes b)

pub get_elem?-zero_key :
    (mem : List Bytes) (o : Option ℕ) (j : ℕ)
    → get_elem? (zero_key o mem) j ≡ elim o [
      | none ↦ get_elem? mem j
      | some a ↦ if a == j then zeroed (get_elem? mem j) else get_elem? mem j
    ]
get_elem?-zero_key mem none j = refl
get_elem?-zero_key mem (some a) j = elim (Option-cases (get_elem? mem a)) [
  | inl e ↦ ground arith
  | inr (b, e) ↦ ground (arith, get_elem?-set mem a j (zero_bytes b) b e)
]

-- A buffer after a key is cleared: it is the cleared one, or it is as before.
pub zero_key-cases :
    (mem : List Bytes) (o : Option ℕ) (a : ℕ) (b : Bytes)
    → get_elem? (zero_key o mem) a ≡ some b
    → Cleared b ⊎ ((o ≢ some a) × (get_elem? mem a ≡ some b))
zero_key-cases mem none a b p = inr (λ e. cc, p)
zero_key-cases mem (some c) a b p = elim (Option-cases (get_elem? mem a)) [
  | inl e ↦ absurd (ground (arith, get_elem?-zero_key mem (some c) a))
  | inr (w, e) ↦ elim (ℕ_discrete c a) [
    | yes q ↦ inl (rw (cleared w e q) (zero_bytes-Cleared w))
    | no q ↦ inr (λ r. q (cc), ground (arith, get_elem?-zero_key mem (some c) a))
  ]
]
  where
    cleared : (w : Bytes) → get_elem? mem a ≡ some w → c ≡ a → b ≡ zero_bytes w
    cleared w e q = ground (arith, get_elem?-zero_key mem (some c) a)

pub get_elem?-zero_key_ne :
    (mem : List Bytes) (o : Option ℕ) (a : ℕ)
    → get_elem? mem a ≢ none
    → get_elem? (zero_key o mem) a ≢ none
get_elem?-zero_key_ne mem none a h e = h e
get_elem?-zero_key_ne mem (some c) a h e = elim (Option-cases (get_elem? mem a)) [
  | inl n ↦ h n
  | inr (w, n) ↦ ground (arith, get_elem?-zero_key mem (some c) a)
]

length-set : (xs : List Bytes) (i : ℕ) (v : Bytes) → length (set xs i v) ≡ length xs
length-set [] i v = refl
length-set (x ∷ xs) zero v = refl
length-set (x ∷ xs) (suc i) v = ap suc (length-set xs i v)

pub length-zero_key : (mem : List Bytes) (o : Option ℕ) → length (zero_key o mem) ≡ length mem
length-zero_key mem none = refl
length-zero_key mem (some a) = elim (Option-cases (get_elem? mem a)) [
  | inl e ↦ ground arith
  | inr (b, e) ↦ ground (arith, length-set mem a (zero_bytes b))
]
