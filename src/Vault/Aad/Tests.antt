-- ===== src/Vault/Aad/Tests.antt =====
-- Two ways to write one role.
use grafted_keys.Prelude.{◌≡◌, refl, ◌++◌, codes, arith}
use grafted_keys.Vault.Aad.Roles.{field_aad_injective}

field_aad_injective_example :
    (codes "ab" ≡ codes "a" ++ codes "b") × (codes "1" ≡ codes "1") × (codes "name" ≡ codes "name")
field_aad_injective_example =
    field_aad_injective (codes "ab") (codes "a" ++ codes "b") (codes "1") (codes "1") (codes "name")
      (codes "name") (λ e. omega arith, (λ e. omega arith, tt))
      (λ e. omega arith, (λ e. omega arith, tt)) (λ e. omega arith, tt) (λ e. omega arith, tt) refl
