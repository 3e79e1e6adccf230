-- ===== src/Web/Disposition.antt =====
-- internal/web/handlers_attach.go: the header of a download. A name is its UTF-8 bytes; the runes that
-- `contentDisposition` keeps are the ASCII ones, which are single bytes.
pub mod Escaping
mod Tests
use grafted_keys.Prelude.{
  ℕ, zero, suc, ◌+◌, ◌*◌, ◌/◌, ◌%◌, ◌≤◌, ◌<◌, ◌≡◌, Bool, true, false, not, ◌&&◌, ◌||◌, Option, none,
  some, List, [], ◌∷◌, ◌++◌, if◌then◌else◌, ltb, leb, ◌==◌, Text, Bytes, codes, same, select,
  get_elem?,
}

abbrev pub one_of : ℕ → Text → Bool
one_of c [] = false
one_of c (d ∷ ds) = c == d || one_of c ds

abbrev pub between : ℕ → ℕ → ℕ → Bool
between low high c = leb low c && leb c high

-- RFC 5987 attr-char.
unfoldable pub is_attr_char : ℕ → Bool
is_attr_char c =
    between b'A' b'Z' c
    || between b'a' b'z' c
    || between b'0' b'9' c
    || one_of c (codes "!#$&+-.^_`|~")

-- `upperhex[d]`
unfoldable pub hex_digit : ℕ → ℕ
hex_digit d = if ltb d 10 then b'0' + d else 55 + d

unfoldable pub escape_byte : ℕ → Text
unfolding is_attr_char hex_digit
escape_byte c =
    if is_attr_char c then c ∷ [] else b'%' ∷ hex_digit (c / 16) ∷ hex_digit (c % 16) ∷ []

unfoldable pub rfc5987_escape : Bytes → Text
rfc5987_escape [] = []
rfc5987_escape (c ∷ cs) = escape_byte c ++ rfc5987_escape cs

-- What the quoted string may hold: printable ASCII but the quote and the backslash.
unfoldable pub is_quotable : ℕ → Bool
is_quotable c = not (ltb c 0x20 || c == 0x7f || c == b'"' || c == 0x5c || ltb 0x7e c)

abbrev pub or_attachment : Text → Text
or_attachment t = if same t [] then codes "attachment" else t

-- `trim` is `strings.TrimSpace`.
unfoldable pub content_disposition : (Text → Text) → Bytes → Text
unfolding is_quotable rfc5987_escape
content_disposition trim name =
    codes "attachment; filename=\""
    ++ (or_attachment (trim (select is_quotable name))
        ++ (codes "\"; filename*=UTF-8''" ++ rfc5987_escape name))
