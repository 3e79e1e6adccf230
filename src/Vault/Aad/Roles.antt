-- ===== src/Vault/Aad/Roles.antt =====
-- That the associated data of a field names its role.
use grafted_keys.Prelude.{ℕ, ◌≡◌, ◌≢◌, refl, [], ◌∷◌, ◌++◌, Text, All}
use grafted_keys.Vault.Aad.{field_aad}

abbrev pub slash : ℕ
slash = 47

abbrev pub NoSlash : Text → Type 0
NoSlash = All (λ c. c ≢ slash)

-- A text up to its first slash, and what follows.
split_slash :
    (a b x y : Text)
    → NoSlash a
    → NoSlash b
    → a ++ (slash ∷ x) ≡ b ++ (slash ∷ y)
    → (a ≡ b) × (x ≡ y)
split_slash [] [] x y h k e = (refl, cc)
split_slash [] (c ∷ b) x y h (k, ks) e = absurd (k (cc))
split_slash (c ∷ a) [] x y (h, hs) k e = absurd (h (cc))
split_slash (c ∷ a) (d ∷ b) x y (h, hs) (k, ks) e =
    let (p, q) = split_slash a b x y hs ks (cc) in (cc, q)

-- Two fields have the same associated data only if they are the same field of the same row of the
-- same kind, as long as kinds and identifiers have no slash in them.
pub field_aad_injective :
    (entity entity' id id' field field' : Text)
    → NoSlash entity
    → NoSlash entity'
    → NoSlash id
    → NoSlash id'
    → field_aad entity id field ≡ field_aad entity' id' field'
    → (entity ≡ entity') × (id ≡ id') × (field ≡ field')
unfolding field_aad
field_aad_injective entity entity' id id' field field' a b c d e =
    let (p, q) =
      split_slash entity entity' (id ++ (slash ∷ field)) (id' ++ (slash ∷ field')) a b (cc) in
    let (r, s) = split_slash id id' field field' c d q in (p, r, s)
