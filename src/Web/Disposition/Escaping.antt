-- ===== src/Web/Disposition/Escaping.antt =====
-- That the header of a download, as a browser reads it, gives back the name.
use grafted_keys.Prelude.{
  ℕ, ◌+◌, ◌-◌, ◌*◌, ◌/◌, ◌%◌, ◌<◌, ◌≤◌, ◌≡◌, ◌≢◌, ◌⊎◌, refl, ap, ◌∙◌, Bool, true, false, [], ◌∷◌,
  ◌++◌, if◌then◌else◌, ltb, ◌==◌, Text, Bytes, codes, same, select, arith, All, Bool-cases, inl,
  inr, ℕ_discrete,
}
use mathlib.Core.List.{Memᴰ}
use mathlib.Core.Path.{subst}
use grafted_keys.Web.Disposition.{
  one_of, between, is_attr_char, hex_digit, escape_byte, rfc5987_escape, is_quotable, or_attachment,
  content_disposition,
}

-- The value of a hexadecimal digit, in upper case.
abbrev pub hex_value : ℕ → ℕ
hex_value d = if ltb d 65 then d - b'0' else d - 55

-- How a value in the form of RFC 5987 is read: outside an escape, after the percent sign, or after
-- the first digit.
pub data Reading : Type 0 where
  plain percent : Reading
  digit : ℕ → Reading

abbrev next : Reading → ℕ → Reading
next plain c = if c == b'%' then percent else plain
next percent c = digit (hex_value c)
next (digit h) c = plain

abbrev emitted : Reading → ℕ → Bytes
emitted plain c = if c == b'%' then [] else c ∷ []
emitted percent c = []
emitted (digit h) c = (16 * h + hex_value c) ∷ []

unfoldable pub unescape : Reading → Text → Bytes
unescape state [] = []
unescape state (c ∷ cs) = emitted state c ++ unescape (next state c) cs

abbrev pub IsByte : ℕ → Type 0
IsByte c = c < 256

-- Printable ASCII, and neither a quote nor a backslash.
abbrev pub IsQuotable : ℕ → Type 0
IsQuotable c = (0x20 ≤ c) × (c ≤ 0x7e) × (c ≢ 0x22) × (c ≢ 0x5c)

is_quotable-IsQuotable : (c : ℕ) → is_quotable c ≡ true → IsQuotable c
unfolding is_quotable
is_quotable-IsQuotable c h =
    (ground arith, ground arith, λ e. ground (arith, e), λ e. ground (arith, e))

All-IsQuotable : (t : Text) → All (λ c. is_quotable c ≡ true) t → All IsQuotable t
All-IsQuotable [] h = tt
All-IsQuotable (c ∷ t) (h, hs) = (is_quotable-IsQuotable c h, All-IsQuotable t hs)

-- A character that an extended value may hold.
unfoldable pub IsExtended : ℕ → Type 0
IsExtended c =
    ((0x30 ≤ c) × (c ≤ 0x39))
    ⊎ ((0x41 ≤ c) × (c ≤ 0x5a))
    ⊎ ((0x61 ≤ c) × (c ≤ 0x7a))
    ⊎ Memᴰ c (codes "%!#$&+-.^_`|~")

one_of-Mem : (c : ℕ) (t : Text) → one_of c t ≡ true → Memᴰ c t
one_of-Mem c [] h = absurd (cc)
one_of-Mem c (d ∷ t) h = elim (ℕ_discrete c d) [
  | yes e ↦ subst (λ x. Memᴰ c (x ∷ t)) e (Memᴰ.head refl)
  | no n ↦ Memᴰ.tail (one_of-Mem c t (ground arith))
]

is_attr_char-IsExtended : (c : ℕ) → is_attr_char c ≡ true → IsExtended c
unfolding is_attr_char IsExtended
is_attr_char-IsExtended c h = elim (Bool-cases (between b'A' b'Z' c)) [
  | inl e ↦ inr (inl (ground arith, ground arith))
  | inr e ↦ elim (Bool-cases (between b'a' b'z' c)) [
    | inl f ↦ inr (inr (inl (ground arith, ground arith)))
    | inr f ↦ elim (Bool-cases (between b'0' b'9' c)) [
      | inl g ↦ inl (ground arith, ground arith)
      | inr g ↦ inr (inr (inr (Memᴰ.tail (one_of-Mem c (codes "!#$&+-.^_`|~") (ground arith)))))
    ]
  ]
]

hex_value-hex_digit : (d : ℕ) → d < 16 → hex_value (hex_digit d) ≡ d
unfolding hex_digit
hex_value-hex_digit d h = ground arith

attr_char-percent : (c : ℕ) → is_attr_char c ≡ true → (c == b'%') ≡ false
unfolding is_attr_char
attr_char-percent c h = elim (ℕ_discrete c b'%') [
  | yes q ↦ absurd (no_percent (subst (λ x. is_attr_char x ≡ true) q h))
  | no q ↦ ground arith
]
  where
    no_percent : is_attr_char b'%' ≡ true → ⊥
    no_percent k = cc

unescape-escape_byte :
    (c : ℕ) (rest : Text)
    → IsByte c
    → unescape plain (escape_byte c ++ rest) ≡ c ∷ unescape plain rest
unfolding escape_byte unescape
unescape-escape_byte c rest h = elim (Bool-cases (is_attr_char c)) [
  | inl e ↦ rw (e, attr_char-percent c e) refl
  | inr e ↦ rw e (ap (λ x. x ∷ unescape plain rest) (joined c h))
]
  where
    joined :
        (x : ℕ) → x < 256 → 16 * hex_value (hex_digit (x / 16)) + hex_value (hex_digit (x % 16)) ≡ x
    joined x k = omega (
      arith,
      hex_value-hex_digit (x / 16) (omega arith),
      hex_value-hex_digit (x % 16) (omega arith),
    )

unescape-rfc5987_escape :
    (name : Bytes) → All IsByte name → unescape plain (rfc5987_escape name) ≡ name
unfolding rfc5987_escape
unescape-rfc5987_escape [] h = unfold unescape in refl
unescape-rfc5987_escape (c ∷ cs) (h, hs) =
    unescape-escape_byte c (rfc5987_escape cs) h ∙ ap (◌∷◌ c) (unescape-rfc5987_escape cs hs)

All-append : (P : ℕ → Type 0) (xs ys : Text) → All P xs → All P ys → All P (xs ++ ys)
All-append P [] ys h k = k
All-append P (x ∷ xs) ys (h, hs) k = (h, All-append P xs ys hs k)

hex_digit-IsExtended : (d : ℕ) → d < 16 → IsExtended (hex_digit d)
unfolding hex_digit IsExtended
hex_digit-IsExtended d h = elim (Bool-cases (ltb d 10)) [
  | inl e ↦ rw e (inl (omega arith, ground arith))
  | inr e ↦ rw e (inr (inl (ground arith, omega arith)))
]

escape_byte-IsExtended : (c : ℕ) → IsByte c → All IsExtended (escape_byte c)
unfolding escape_byte IsExtended
escape_byte-IsExtended c h = elim (Bool-cases (is_attr_char c)) [
  | inl e ↦ rw e (is_attr_char-IsExtended c e, tt)
  | inr e ↦ rw e (
    inr (inr (inr (Memᴰ.head refl))),
    (
      hex_digit-IsExtended (c / 16) (omega arith),
      (hex_digit-IsExtended (c % 16) (omega arith), tt),
    ),
  )
]

rfc5987_escape-IsExtended : (name : Bytes) → All IsByte name → All IsExtended (rfc5987_escape name)
unfolding rfc5987_escape
rfc5987_escape-IsExtended [] h = tt
rfc5987_escape-IsExtended (c ∷ cs) (h, hs) =
    All-append IsExtended (escape_byte c) (rfc5987_escape cs) (escape_byte-IsExtended c h)
      (rfc5987_escape-IsExtended cs hs)

select-All : (f : ℕ → Bool) (xs : Text) → All (λ c. f c ≡ true) (select f xs)
unfolding select
select-All f [] = tt
select-All f (x ∷ xs) = elim (Bool-cases (f x)) [
  | inl e ↦ rw e (e, select-All f xs)
  | inr e ↦ rw e (select-All f xs)
]

abbrev pub IsHeader : Bytes → Text → Type 0
IsHeader name header =
    (fallback : Text) × (value : Text) × (header
      ≡ codes "attachment; filename=\"" ++ (fallback ++ (codes "\"; filename*=UTF-8''" ++ value)))
    × All IsQuotable fallback
    × All IsExtended value
    × (unescape plain value ≡ name)

or_attachment-IsQuotable : (t : Text) → All IsQuotable t → All IsQuotable (or_attachment t)
unfolding is_quotable
or_attachment-IsQuotable t h = elim (Bool-cases (same t [])) [
  | inl e ↦ rw e (
      All-IsQuotable (codes "attachment")
        (refl, (refl, (refl, (refl, (refl, (refl, (refl, (refl, (refl, (refl, tt)))))))))))
  | inr e ↦ rw e h
]

-- The header of a download is the one that was meant, whatever the name: a fallback in quotes of
-- printable ASCII without a quote and a backslash, and an extended value of ASCII letters, digits and
-- the other characters that RFC 5987 allows, which reads as exactly the bytes of the name; given that `strings.TrimSpace` adds no character to a text.
pub content_disposition-IsHeader :
    (trim : Text → Text) (name : Bytes)
    → ((P : ℕ → Type 0) (t : Text) → All P t → All P (trim t))
    → All IsByte name
    → IsHeader name (content_disposition trim name)
unfolding content_disposition
content_disposition-IsHeader trim name keeps h = (
  or_attachment (trim (select is_quotable name)),
  rfc5987_escape name,
  refl,
  or_attachment-IsQuotable (trim (select is_quotable name))
      (keeps IsQuotable _ (All-IsQuotable _ (select-All is_quotable name))),
  rfc5987_escape-IsExtended name h,
  unescape-rfc5987_escape name h,
)
