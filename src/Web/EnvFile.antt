-- ===== src/Web/EnvFile.antt =====
-- The parsing of .env files in internal/web/handlers_import.go. `strings.TrimSpace` is a parameter.
pub mod Quoting
use grafted_keys.Prelude.{
  ℕ, ◌-◌, ◌++◌, Bool, true, false, not, ◌&&◌, ◌||◌, Option, none, some, List, [], ◌∷◌,
  if◌then◌else◌, ltb, ◌==◌, length, take, drop, get_elem?, Text, codes, same,
}
use grafted_keys.Vault.Search.{has_prefix}
use grafted_keys.Web.Settings.{trim_suffix}

pub record EnvPair : Type 0 where
  pub key : Text
  pub value : Text

-- What `ReplaceAll` of the two bytes `a`, `b` by `c` writes at the byte `x`, where `held` says that an
-- `a` before it has not been written.
abbrev emitted : ℕ → ℕ → ℕ → Bool → ℕ → Text
emitted a b c held x =
    if held && x == b
    then c ∷ []
    else (if held then a ∷ [] else []) ++ (if x == a then [] else x ∷ [])

abbrev holds : ℕ → ℕ → Bool → ℕ → Bool
holds a b held x = not (held && x == b) && x == a

unfoldable pub replace_pair : ℕ → ℕ → ℕ → Bool → Text → Text
replace_pair a b c held [] = if held then a ∷ [] else []
replace_pair a b c held (x ∷ xs) = emitted a b c held x ++ replace_pair a b c (holds a b held x) xs

abbrev is_byte : ℕ → Option ℕ → Bool
is_byte q none = false
is_byte q (some c) = c == q

abbrev quoted_by : ℕ → Text → Bool
quoted_by q v = is_byte q (get_elem? v 0) && is_byte q (get_elem? v (length v - 1))

abbrev inner : Text → Text
inner v = take (length v - 2) (drop 1 v)

unfoldable pub unquote_env : Text → Text
unfolding replace_pair
unquote_env v =
    if ltb (length v) 2
    then v
    else if quoted_by b'"' v
    then replace_pair b'\\' b'"' b'"' false (replace_pair b'\\' b'n' 10 false (inner v))
    else if quoted_by b'\'' v
    then inner v
    else v

-- `strings.Split(s, "\n")`: the line that has been read so far comes first.
unfoldable pub split_lines : Text → Text → List Text
split_lines line [] = line ∷ []
split_lines line (c ∷ cs) =
    let rest = split_lines (if c == 10 then [] else line ++ c ∷ []) cs in
    if c == 10 then line ∷ rest else rest

-- The text before the first "=" and the text after it.
unfoldable pub cut : Text → Option (Text × Text)
cut [] = none
cut (c ∷ cs) =
    let rest = cut cs in
    if c == b'=' then some ([], cs) else elim rest [ none ↦ none | some (k, v) ↦ some (c ∷ k, v) ]

unfoldable pub trim_prefix : Text → Text → Text
unfolding has_prefix
trim_prefix s prefix = if has_prefix s prefix then drop (length prefix) s else s

module _ (trim_space : Text → Text) where
  -- No pair where there is no "=", or nothing before it.
  abbrev pair_of : Option (Text × Text) → List EnvPair
  pair_of none = []
  pair_of (some ([], v)) = []
  pair_of (some (c ∷ k, v)) =
      if same (trim_space (c ∷ k)) []
      then []
      else record { key = trim_space (c ∷ k); value = unquote_env (trim_space v) } ∷ []

  unfoldable pub pairs_of_line : Text → List EnvPair
  unfolding unquote_env cut trim_prefix has_prefix
  pairs_of_line line =
      if same line [] || has_prefix line (codes "#")
      then []
      else pair_of (cut (trim_prefix line (codes "export ")))

  unfoldable pub parse_lines : List Text → List EnvPair
  unfolding pairs_of_line trim_suffix
  parse_lines [] = []
  parse_lines (raw ∷ rest) =
      pairs_of_line (trim_space (trim_suffix raw (13 ∷ []))) ++ parse_lines rest

  unfoldable pub parse_env : Text → List EnvPair
  unfolding parse_lines split_lines
  parse_env content = parse_lines (split_lines [] content)
