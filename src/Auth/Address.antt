-- ===== src/Auth/Address.antt =====
-- internal/auth/session.go: `ClientIP`, the key of the limiter for a request.
use grafted_keys.Prelude.{
  ℕ, ◌≡◌, ◌≢◌, refl, sym, ◌∙◌, Bool, true, false, Option, none, some, [], ◌∷◌, ◌++◌, if◌then◌else◌,
  ◌==◌, Text, same, arith, All,
}
use mathlib.Core.List.{append_assoc, append-nil}

abbrev comma : ℕ
comma = b','

-- `parts[len(parts)-1]` of `strings.Split(xff, ",")`; `last` is the part read so far.
last_from : Text → Text → Text
last_from last [] = last
last_from last (c ∷ cs) = last_from (if c == comma then [] else last ++ c ∷ []) cs

unfoldable pub last_part : Text → Text
unfolding last_from
last_part xff = last_from [] xff

abbrev peer : Text → Option Text → Text
peer remote none = remote
peer remote (some host) = host

-- `trim` is `strings.TrimSpace` and `host` the host of `net.SplitHostPort`.
module _ (trim : Text → Text) (host : Text → Option Text) where
  unfoldable pub client_ip : Bool → Text → Text → Text
  unfolding last_part
  client_ip trust_proxy forwarded_for remote_addr =
      if trust_proxy
      then if same forwarded_for []
        then peer remote_addr (host remote_addr)
        else if same (trim (last_part forwarded_for)) []
        then peer remote_addr (host remote_addr)
        else trim (last_part forwarded_for)
      else peer remote_addr (host remote_addr)

-- An entry of the header, as the proxy writes one.
abbrev pub NoComma : Text → Type 0
NoComma = All (λ c. (c == comma) ≡ false)

last_from-append : (last xs ys : Text) → last_from last (xs ++ comma ∷ ys) ≡ last_from [] ys
unfolding last_from
last_from-append last [] ys = refl
last_from-append last (c ∷ xs) ys =
    last_from-append (if c == comma then [] else last ++ c ∷ []) xs ys

last_from-NoComma : (last xs : Text) → NoComma xs → last_from last xs ≡ last ++ xs
unfolding last_from
last_from-NoComma last [] _ = sym (append-nil last)
last_from-NoComma last (c ∷ xs) (n, h) =
    rw n (last_from-NoComma (last ++ c ∷ []) xs h ∙ append_assoc last (c ∷ []) xs)

last_part-append : (sent entry : Text) → NoComma entry → last_part (sent ++ comma ∷ entry) ≡ entry
unfolding last_part
last_part-append sent entry h = last_from-append [] sent entry ∙ last_from-NoComma [] entry h

append_ne : (xs : Text) (c : ℕ) (ys : Text) → xs ++ c ∷ ys ≢ []
append_ne [] c ys e = cc
append_ne (x ∷ xs) c ys e = cc

-- Behind the proxy a client does not choose its key: whatever it sends in front of the entry that the
-- proxy adds, the key is that entry, unless that is blank.
pub client_ip_forged :
    (trim : Text → Text) (host : Text → Option Text) (sent entry remote : Text)
    → NoComma entry
    → trim entry ≢ []
    → client_ip trim host true (sent ++ comma ∷ entry) remote ≡ trim entry
unfolding client_ip
client_ip_forged trim host sent entry remote h ne =
    ground (arith, last_part-append sent entry h, append_ne sent comma entry)
