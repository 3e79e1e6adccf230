-- ===== src/Web/EnvFile/Quoting.antt =====
-- `unquoteEnv` of internal/web/handlers_import.go turns back the quoting of a value.
use grafted_keys.Prelude.{
  ℕ, suc, ◌-◌, ◌≡◌, refl, ap, false, ◌++◌, [], ◌∷◌, if◌then◌else◌, ◌==◌, length, take, get_elem?,
  length-append, Text, All, arith, some, ltb,
}
use grafted_keys.Web.EnvFile.{replace_pair, unquote_env}

-- A value as the inside of double quotes.
unfoldable pub escape_quotes : Text → Text
escape_quotes [] = []
escape_quotes (c ∷ cs) =
    let rest = escape_quotes cs in if c == b'"' then b'\\' ∷ b'"' ∷ rest else c ∷ rest

unfoldable pub escape : Text → Text
escape [] = []
escape (c ∷ cs) =
    let rest = escape cs in
    if c == 10 then b'\\' ∷ b'n' ∷ rest else if c == b'"' then b'\\' ∷ b'"' ∷ rest else c ∷ rest

unfoldable pub quote : Text → Text
unfolding escape
quote v = b'"' ∷ (escape v ++ b'"' ∷ [])

unfoldable pub HasNoBackslash : Text → Type 0
HasNoBackslash v = All (λ c. (c == b'\\') ≡ false) v

-- The first replacement turns back the line feeds, the second one the quotes.
replace_pair-escape :
    (v : Text) → HasNoBackslash v → replace_pair b'\\' b'n' 10 false (escape v) ≡ escape_quotes v
unfolding replace_pair escape escape_quotes HasNoBackslash
replace_pair-escape [] h = refl
replace_pair-escape (c ∷ v) (h, k) = ground (arith, replace_pair-escape v k)

replace_pair-escape_quotes :
    (v : Text) → HasNoBackslash v → replace_pair b'\\' b'"' b'"' false (escape_quotes v) ≡ v
unfolding replace_pair escape_quotes HasNoBackslash
replace_pair-escape_quotes [] h = refl
replace_pair-escape_quotes (c ∷ v) (h, k) = ground (arith, replace_pair-escape_quotes v k)

take-append : (t rest : Text) → take (length t) (t ++ rest) ≡ t
take-append [] rest = refl
take-append (c ∷ t) rest = ap (λ x. c ∷ x) (take-append t rest)

get_elem?-append_last : (t : Text) (c : ℕ) → get_elem? (t ++ c ∷ []) (length t) ≡ some c
get_elem?-append_last [] c = refl
get_elem?-append_last (d ∷ t) c = get_elem?-append_last t c

length-quote : (t : Text) (c : ℕ) → length (t ++ c ∷ []) ≡ suc (length t)
length-quote t c = omega (arith, length-append t (c ∷ []))

-- A value without backslashes, written between double quotes with its line feeds and its quotes
-- escaped, is what `unquoteEnv` returns for it.
pub unquote_env-quote : (v : Text) → HasNoBackslash v → unquote_env (quote v) ≡ v
unfolding unquote_env quote
unquote_env-quote v h =
    rw
      (
        length-quote (escape v) b'"',
        long,
        minus_one,
        minus_two,
        get_elem?-append_last (escape v) b'"',
      )
      (rw (take-append (escape v) (b'"' ∷ []), replace_pair-escape v h)
        (replace_pair-escape_quotes v h))
  where
    long : ltb (suc (suc (length (escape v)))) 2 ≡ false
    long = ground arith

    minus_one : suc (suc (length (escape v))) - 1 ≡ suc (length (escape v))
    minus_one = omega arith

    minus_two : suc (suc (length (escape v))) - 2 ≡ length (escape v)
    minus_two = omega arith
