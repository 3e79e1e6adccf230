-- ===== src/Web/Tests/FileName.antt =====
-- The name of an upload that comes with a path.
use grafted_keys.Prelude.{◌++◌, ◌≡◌, ◌≤◌, ◌⊎◌, refl, ap, take, length, [], ◌∷◌, Text, codes, All}
use grafted_keys.Web.FileName.{sanitize_filename}
use grafted_keys.Web.FileName.Safety.{sanitize_filename-IsPlain, IsPlain, IsSlicing}

take_all : (t : Text) → t ≡ take (length t) t
take_all [] = refl
take_all (c ∷ t) = ap (λ x. c ∷ x) (take_all t)

sanitize_filename-IsPlain_example :
    let out = sanitize_filename (λ t. t) (codes "..\\a/b" ++ (27 ∷ 127 ∷ codes ".txt/")) in
    (1 ≤ length out) × (length out ≤ 200) × ((out ≡ codes "/") ⊎ All IsPlain out)
unfolding IsSlicing
sanitize_filename-IsPlain_example =
    sanitize_filename-IsPlain (λ t. t) (λ t. (length t, 0, take_all t))
      (codes "..\\a/b" ++ (27 ∷ 127 ∷ codes ".txt/"))
