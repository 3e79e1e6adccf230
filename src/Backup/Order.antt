-- ===== src/Backup/Order.antt =====
-- The order of names in internal/backup/backup.go, and lists that descend in it.
use grafted_keys.Prelude.{
  ℕ, zero, suc, ◌≡◌, refl, ◌∙◌, Bool, true, false, ◌&&◌, ◌||◌, Bool-cases, inl, inr, List, [], ◌∷◌,
  if◌then◌else◌, leb, drop, Text, same, text_dec, arith, All,
}
use grafted_keys.Backup.{text_lt, insert_name, sort_names}

pub text_lt_asym : (a b : Text) → text_lt a b ≡ true → text_lt b a ≡ false
unfolding text_lt
text_lt_asym a [] h = absurd (cc)
text_lt_asym [] (y ∷ b) h = refl
text_lt_asym (x ∷ a) (y ∷ b) h = ground (arith, text_lt_asym a b)

pub text_lt_irrefl : (a : Text) → text_lt a a ≡ false
unfolding text_lt
text_lt_irrefl [] = refl
text_lt_irrefl (x ∷ a) = ground (arith, text_lt_irrefl a)

pub text_lt_trans : (a b c : Text) → text_lt a b ≡ true → text_lt b c ≡ true → text_lt a c ≡ true
unfolding text_lt
text_lt_trans a b [] h k = absurd (cc)
text_lt_trans a [] (z ∷ c) h k = absurd (cc)
text_lt_trans [] (y ∷ b) (z ∷ c) h k = refl
text_lt_trans (x ∷ a) (y ∷ b) (z ∷ c) h k = ground (arith, text_lt_trans a b c)

pub text_lt_total : (a b : Text) → text_lt a b ≡ false → same a b ≡ false → text_lt b a ≡ true
unfolding text_lt text_dec
text_lt_total [] [] h k = absurd (cc)
text_lt_total (x ∷ a) [] h k = refl
text_lt_total [] (y ∷ b) h k = absurd (cc)
text_lt_total (x ∷ a) (y ∷ b) h k = ground (arith, text_lt_total a b)

-- Whether a name is listed, and how many of the listed names come after it.
unfoldable pub has_name : Text → List Text → Bool
has_name n [] = false
has_name n (m ∷ ms) = same n m || has_name n ms

unfoldable pub newer : Text → List Text → ℕ
newer n [] = 0
newer n (m ∷ ms) = let rest = newer n ms in if text_lt n m then suc rest else rest

abbrev pub DistinctTexts : List Text → Type 0
DistinctTexts [] = Unit
DistinctTexts (n ∷ ns) = (has_name n ns ≡ false) × DistinctTexts ns

abbrev pub Below : Text → Text → Type 0
Below x y = text_lt y x ≡ true

pub Descends : List Text → Type 0
Descends [] = Unit
Descends (n ∷ ns) = All (Below n) ns × Descends ns

has_name-insert_name :
    (n x : Text) (l : List Text) → has_name n (insert_name x l) ≡ (same n x || has_name n l)
unfolding has_name insert_name
has_name-insert_name n x [] = refl
has_name-insert_name n x (m ∷ ms) = ground (arith, has_name-insert_name n x ms)

newer-insert_name : (n x : Text) (l : List Text) → newer n (insert_name x l) ≡ newer n (x ∷ l)
unfolding newer insert_name
newer-insert_name n x [] = refl
newer-insert_name n x (m ∷ ms) = ground (arith, newer-insert_name n x ms)

All-insert_name :
    (P : Text → Type 0) (x : Text) (l : List Text) → P x → All P l → All P (insert_name x l)
unfolding insert_name
All-insert_name P x [] p h = (p, tt)
All-insert_name P x (m ∷ ms) p (q, h) = elim (Bool-cases (text_lt x m)) [
  | inl e ↦ rw e (q, All-insert_name P x ms p h)
  | inr e ↦ rw e (p, (q, h))
]

All-Below : (x m : Text) (l : List Text) → text_lt m x ≡ true → All (Below m) l → All (Below x) l
All-Below x m [] h a = tt
All-Below x m (y ∷ l) h (e, a) = (text_lt_trans y m x e h, All-Below x m l h a)

insert_name-Descends :
    (x : Text) (l : List Text) → has_name x l ≡ false → Descends l → Descends (insert_name x l)
unfolding insert_name has_name Descends
insert_name-Descends x [] h d = (tt, tt)
insert_name-Descends x (m ∷ ms) h (a, d) = elim (Bool-cases (text_lt x m)) [
  | inl e ↦ rw e (All-insert_name (Below m) x ms e a, insert_name-Descends x ms (ground arith) d)
  | inr e ↦
      let below = text_lt_total x m e (ground arith) in
      rw e ((below, All-Below x m ms below a), (a, d))
]

pub has_name-sort_names : (n : Text) (l : List Text) → has_name n (sort_names l) ≡ has_name n l
unfolding sort_names has_name
has_name-sort_names n [] = refl
has_name-sort_names n (m ∷ ms) =
    rw (has_name-insert_name n m (sort_names ms), has_name-sort_names n ms) refl

pub sort_names-Descends : (l : List Text) → DistinctTexts l → Descends (sort_names l)
unfolding sort_names Descends
sort_names-Descends [] u = tt
sort_names-Descends (n ∷ ns) (h, u) =
    insert_name-Descends n (sort_names ns) (has_name-sort_names n ns ∙ h) (sort_names-Descends ns u)

pub newer-sort_names : (n : Text) (l : List Text) → newer n (sort_names l) ≡ newer n l
unfolding sort_names newer
newer-sort_names n [] = refl
newer-sort_names n (m ∷ ms) = rw (newer-insert_name n m (sort_names ms), newer-sort_names n ms) refl

has_name-Below :
    (n x : Text) (l : List Text) → has_name n l ≡ true → All (Below x) l → text_lt n x ≡ true
unfolding has_name
has_name-Below n x [] h a = absurd (cc)
has_name-Below n x (m ∷ ms) h (e, a) = ground (arith, has_name-Below n x ms)

newer_none : (x : Text) (l : List Text) → All (Below x) l → newer x l ≡ 0
unfolding newer
newer_none x [] a = refl
newer_none x (m ∷ ms) (e, a) = rw (text_lt_asym m x e) (newer_none x ms a)

-- In a list that descends, what follows the first `k` has at least `k` names after it.
pub has_name-drop :
    (n : Text) (k : ℕ) (l : List Text)
    → Descends l
    → has_name n (drop k l) ≡ (has_name n l && leb k (newer n l))
unfolding has_name newer Descends
has_name-drop n zero l d = ground arith
has_name-drop n (suc k) [] d = refl
has_name-drop n (suc k) (x ∷ l) (a, d) = elim (text_dec n x) [
  | yes p ↦
      let irrefl : text_lt n x ≡ false = rw p (text_lt_irrefl x) in
      let none_newer : newer n l ≡ 0 = rw p (newer_none x l a) in
      elim (Bool-cases (has_name n l)) [
        | inl e ↦ absurd (ground (arith, has_name-Below n x l e a, irrefl))
        | inr e ↦ ground (arith, has_name-drop n k l d, e, none_newer, irrefl)
      ]
  | no q ↦ elim (Bool-cases (has_name n l)) [
    | inl e ↦ ground (arith, has_name-drop n k l d, e, has_name-Below n x l e a)
    | inr e ↦ ground (arith, has_name-drop n k l d, e)
  ]
]
