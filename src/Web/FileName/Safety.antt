-- ===== src/Web/FileName/Safety.antt =====
-- What `sanitizeFilename` of internal/web/handlers_attach.go guarantees of the name it returns.
use grafted_keys.Prelude.{
  ℕ, zero, suc, ◌≡◌, ◌≢◌, ◌≤◌, ◌⊎◌, inl, inr, refl, ap, ◌++◌, Bool, true, false, not, ◌&&◌,
  Bool-cases, [], ◌∷◌, if◌then◌else◌, ltb, ◌==◌, length, take, drop, select, Text, codes, same, All,
  arith, text_dec,
}
use grafted_keys.Store.Table.Keys.{All-append, All-select}
use grafted_keys.Crypto.Sealing.{length-take}
use grafted_keys.Web.FileName.{
  with_slashes, last_element, file_base, is_shown, or_default, shortened, sanitize_filename,
}

-- The function returns a part of the text.
unfoldable pub IsSlicing : (Text → Text) → Type 0
IsSlicing trim = (t : Text) → (n m : ℕ) × (trim t ≡ take n (drop m t))

-- No separator of a path.
abbrev is_inside : ℕ → Bool
is_inside c = not (c == b'/') && not (c == b'\\')

abbrev IsInside : ℕ → Type 0
IsInside c = is_inside c ≡ true

-- Neither a separator of a path nor one of the control characters of ASCII.
abbrev pub IsPlain : ℕ → Type 0
IsPlain c = (c ≢ 0x2f) × (c ≢ 0x5c) × (0x20 ≤ c) × (c ≢ 0x7f)

IsPlain-kept : (c : ℕ) → IsInside c → is_shown c ≡ true → IsPlain c
IsPlain-kept c h k =
    (λ e. ground (arith, e), λ e. ground (arith, e), ground arith, λ e. ground (arith, e))

All-take : (P : ℕ → Type 0) (n : ℕ) (t : Text) → All P t → All P (take n t)
All-take P zero t a = tt
All-take P (suc n) [] a = tt
All-take P (suc n) (c ∷ t) (h, a) = (h, All-take P n t a)

All-drop : (P : ℕ → Type 0) (n : ℕ) (t : Text) → All P t → All P (drop n t)
All-drop P zero t a = a
All-drop P (suc n) [] a = tt
All-drop P (suc n) (c ∷ t) (h, a) = All-drop P n t a

All-if : (P : ℕ → Type 0) (b : Bool) (t u : Text) → All P t → All P u → All P (if b then t else u)
All-if P true t u a h = a
All-if P false t u a h = h

with_slashes-All : (t : Text) → All (λ c. (c == b'\\') ≡ false) (with_slashes t)
unfolding with_slashes
with_slashes-All [] = tt
with_slashes-All (c ∷ t) = (ground arith, with_slashes-All t)

last_element-All :
    (t last element : Text)
    → All IsInside last
    → All IsInside element
    → All (λ c. (c == b'\\') ≡ false) t
    → All IsInside (last_element last element t)
unfolding last_element
last_element-All [] last element a b h = All-if IsInside (same element []) last element a b
last_element-All (c ∷ t) last element a b (k, h) =
    last_element-All t _ _
      (All-if IsInside (c == b'/') _ last (All-if IsInside (same element []) last element a b) a)
      (next (c == b'/') refl) h
  where
    next : (b' : Bool) → (c == b'/') ≡ b' → All IsInside (if b' then [] else element ++ c ∷ [])
    next true y = tt
    next false y = All-append IsInside element c b (ground arith)

-- The last element of a path is "/", or has no separator.
file_base-All :
    (t : Text)
    → All (λ c. (c == b'\\') ≡ false) t
    → (file_base t ≡ codes "/") ⊎ All IsInside (file_base t)
unfolding file_base
file_base-All t h = elim (Bool-cases (same t [])) [
  | inl y ↦ rw y (inr (refl, tt))
  | inr y ↦ rw y (elim (Bool-cases (same (last_element [] [] t) [])) [
    | inl z ↦ rw z (inl refl)
    | inr z ↦ rw z (inr (last_element-All t [] [] tt tt h))
  ])
]

slice_of_slash :
    (n m : ℕ) → (take n (drop m (codes "/")) ≡ []) ⊎ (take n (drop m (codes "/")) ≡ codes "/")
slice_of_slash zero m = inl refl
slice_of_slash (suc zero) zero = inr refl
slice_of_slash (suc (suc n)) zero = inr refl
slice_of_slash (suc n) (suc zero) = inl refl
slice_of_slash (suc n) (suc (suc m)) = inl refl

all_plain : Text → Bool
all_plain [] = true
all_plain (c ∷ t) = (is_inside c && is_shown c) && all_plain t

All-IsPlain : (t : Text) → all_plain t ≡ true → All IsPlain t
unfolding all_plain
All-IsPlain [] h = tt
All-IsPlain (c ∷ t) h = (IsPlain-kept c (ground arith) (ground arith), All-IsPlain t (ground arith))

IsKept : Text → Type 0
IsKept t = (t ≡ codes "/") ⊎ All IsPlain t

-- The controls that are dropped, and the part that is left of the name.
slice-IsKept :
    (n m : ℕ) (t : Text)
    → (t ≡ codes "/") ⊎ All IsInside t
    → IsKept (take n (drop m (select is_shown t)))
unfolding IsKept select
slice-IsKept n m t (inr a) = inr (
    All-take IsPlain n _
      (All-drop IsPlain m _ (All-select IsInside IsPlain is_shown t IsPlain-kept a)))
slice-IsKept n m t (inl e) =
    rw e (elim (slice_of_slash n m) [ inl y ↦ rw y (inr tt) | inr y ↦ inl y ])

length-if : (b : Bool) (t u : Text) → 1 ≤ length t → 1 ≤ length u → 1 ≤ length (if b then t else u)
length-if true t u h k = h
length-if false t u h k = k

length-or_default : (t : Text) → 1 ≤ length (or_default t)
unfolding text_dec
length-or_default [] = omega arith
length-or_default (c ∷ t) = length-if _ (codes "attachment") (c ∷ t) (omega arith) (omega arith)

take_long-IsKept : (t : Text) → ltb 200 (length t) ≡ true → IsKept t → IsKept (take 200 t)
unfolding IsKept
take_long-IsKept t y (inr a) = inr (All-take IsPlain 200 t a)
take_long-IsKept t y (inl e) = let one = ap length e in absurd (ground arith)

attachment-IsPlain : All IsPlain (codes "attachment")
unfolding all_plain
attachment-IsPlain = All-IsPlain (codes "attachment") refl

or_default-IsKept : (t : Text) → IsKept t → IsKept (or_default t)
unfolding IsKept text_dec
or_default-IsKept t (inl e) = rw e (inl refl)
or_default-IsKept t (inr a) = inr (All-if IsPlain _ (codes "attachment") t attachment-IsPlain a)

shortened_lem :
    (t : Text)
    → 1 ≤ length t
    → IsKept t
    → (1 ≤ length (shortened t)) × (length (shortened t) ≤ 200) × IsKept (shortened t)
unfolding IsKept
shortened_lem t h k = elim (Bool-cases (ltb 200 (length t))) [
  | inl y ↦
      rw (y, length-take 200 t (ground arith)) (omega arith, omega arith, take_long-IsKept t y k)
  | inr y ↦ rw y (h, ground arith, k)
]

-- The name of an upload, as it is stored, has 1 to 200 bytes, and is "/" or has neither slashes nor
-- backslashes nor control characters of ASCII; given that `strings.TrimSpace` returns a part of its
-- argument.
pub sanitize_filename-IsPlain :
    (trim_space : Text → Text)
    → IsSlicing trim_space
    → (name : Text)
    → let out = sanitize_filename trim_space name in
      (1 ≤ length out) × (length out ≤ 200) × ((out ≡ codes "/") ⊎ All IsPlain out)
unfolding sanitize_filename IsSlicing IsKept
sanitize_filename-IsPlain trim_space slicing name =
    let (n, m, e) = slicing (select is_shown (file_base (with_slashes name))) in
    rw e (
      shortened_lem _ (length-or_default _) (
        or_default-IsKept _
          (slice-IsKept n m _ (file_base-All (with_slashes name) (with_slashes-All name)))))
