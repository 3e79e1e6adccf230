-- ===== src/Web/Sizes.antt =====
-- `humanSize` of internal/web/handlers_settings.go, which writes the sizes of files. The formatting of
-- the quotient is left out: a size is shown by its unit and the letter of that.
use grafted_keys.Prelude.{
  ℕ, zero, suc, ◌+◌, ◌*◌, ◌/◌, ◌%◌, ◌^◌, ◌≤◌, ◌<◌, ◌≡◌, ◌⊎◌, inl, inr, refl, sym, Option, none,
  some, if◌then◌else◌, leb, ltb, codes, get_elem?, arith, Bool-cases,
}

pub data Shown : Type 0 where
  bytes : ℕ → Shown
  units : ℕ → ℕ → ℕ → Shown
  crashed : Shown

-- The loop, on fuel: the rest of the quotient, the divisor in 64 bits, and the exponent.
unfoldable pub scaled : ℕ → ℕ → ℕ → ℕ → Option (ℕ × ℕ)
scaled zero x div exp = none
scaled (suc fuel) x div exp =
    let rest = scaled fuel (x / 1024) (div * 1024 % 2 ^ 64) (exp + 1) in
    if leb 1024 x then rest else some (div, exp)

-- `"KMGTPE"[exp]`, which panics past the end.
abbrev lettered : ℕ → ℕ → Option ℕ → Shown
lettered n div none = crashed
lettered n div (some letter) = units n div letter

abbrev with_unit : ℕ → Option (ℕ × ℕ) → Option Shown
with_unit n none = none
with_unit n (some (div, exp)) = some (lettered n div (get_elem? (codes "KMGTPE") exp))

unfoldable pub human_size : ℕ → ℕ → Option Shown
unfolding scaled
human_size fuel n =
    if ltb n 1024 then some (bytes n) else with_unit n (scaled fuel (n / 1024) 1024 0)

record Ends (n : ℕ) (r : Option (ℕ × ℕ)) : Type 0 where
  div : ℕ
  exp : ℕ
  returns : r ≡ some (div, exp)
  power : div ≡ 1024 ^ (exp + 1)
  in_range : exp < 6
  at_least : div ≤ n
  below : n < 1024 * div

level :
    (fuel x div exp n : ℕ)
    → (x < 1024 → (div ≡ 1024 ^ (exp + 1)) × (exp < 6) × (div ≤ n) × (n < 1024 * div))
    → (1024 ≤ x → Ends n (scaled fuel (x / 1024) (div * 1024 % 2 ^ 64) (exp + 1)))
    → Ends n (scaled (suc fuel) x div exp)
unfolding scaled
level fuel x div exp n here later = elim (Bool-cases (leb 1024 x)) [
  | inl e ↦
      let rest = later (ground arith) in
      record {
        div = rest.div;
        exp = rest.exp;
        returns = rw e rest.returns;
        power = rest.power;
        in_range = rest.in_range;
        at_least = rest.at_least;
        below = rest.below;
      }
  | inr e ↦
      let (p, i, a, b) = here (ground arith) in
      record {
        div = div;
        exp = exp;
        returns = rw e refl;
        power = p;
        in_range = i;
        at_least = a;
        below = b;
      }
]

scaled-Ends : (n : ℕ) → 1024 ≤ n → n < 2 ^ 63 → Ends n (scaled 6 (n / 1024) 1024 0)
scaled-Ends n h k =
    level 5 (n / 1024) 1024 0 n (λ x. (refl, omega arith, omega arith, omega arith))
      λ a.
        level 4 (n / 1024 / 1024) (1024 ^ 2) 1 n
          (λ x. (refl, omega arith, omega arith, omega arith))
          λ b.
            level 3 (n / 1024 / 1024 / 1024) (1024 ^ 3) 2 n
              (λ x. (refl, omega arith, omega arith, omega arith))
              λ c.
                level 2 (n / 1024 / 1024 / 1024 / 1024) (1024 ^ 4) 3 n
                  (λ x. (refl, omega arith, omega arith, omega arith))
                  λ d.
                    level 1 (n / 1024 / 1024 / 1024 / 1024 / 1024) (1024 ^ 5) 4 n
                      (λ x. (refl, omega arith, omega arith, omega arith))
                      λ e.
                        level 0 (n / 1024 / 1024 / 1024 / 1024 / 1024 / 1024) (1024 ^ 6) 5 n
                          (λ x. (refl, omega arith, omega arith, omega arith))
                          λ f. absurd (omega arith)

-- For every size that 63 bits hold, the loop of `humanSize`, whose divisor has 64 bits, ends within six tests of its
-- condition, and the letter is there: a size below 1024 is shown in bytes, and any other by the largest power of
-- 1024 that is at most the size, with the letter of that power.
pub human_size_ends :
    (n : ℕ)
    → n < 2 ^ 63
    → ((n < 1024) × (human_size 6 n ≡ some (bytes n)))
      ⊎ ((exp : ℕ) × (letter : ℕ) × (human_size 6 n ≡ some (units n (1024 ^ (exp + 1)) letter))
          × (get_elem? (codes "KMGTPE") exp ≡ some letter)
          × (1024 ^ (exp + 1) ≤ n)
          × (n < 1024 * 1024 ^ (exp + 1)))
unfolding human_size
human_size_ends n k = elim (Bool-cases (ltb n 1024)) [
  | inl e ↦ inl (ground arith, rw e refl)
  | inr e ↦
      let ends = scaled-Ends n (ground arith) k in
      let (letter, here) = letter_of ends.exp ends.in_range in
      inr (
        ends.exp,
        letter,
        rw (e, ends.returns, here, ends.power) refl,
        here,
        rw (sym ends.power) ends.at_least,
        rw (sym ends.power) ends.below,
      )
]
  where
    letter_of : (exp : ℕ) → exp < 6 → (letter : ℕ) × (get_elem? (codes "KMGTPE") exp ≡ some letter)
    letter_of zero h = (b'K', refl)
    letter_of (suc zero) h = (b'M', refl)
    letter_of (suc (suc zero)) h = (b'G', refl)
    letter_of (suc (suc (suc zero))) h = (b'T', refl)
    letter_of (suc (suc (suc (suc zero)))) h = (b'P', refl)
    letter_of (suc (suc (suc (suc (suc zero))))) h = (b'E', refl)
    letter_of (suc (suc (suc (suc (suc (suc e)))))) h = absurd (omega arith)
