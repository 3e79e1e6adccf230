-- ===== src/Crypto/Totp.antt =====
-- internal/crypto/totp.go: the check of a code against the codes of the steps around the present.
-- The clock is past the first half minute of 1970.
use grafted_keys.Prelude.{
  ℕ, ◌+◌, ◌-◌, ◌/◌, Bool, false, Option, none, some, List, [], ◌∷◌, leb, if◌then◌else◌, Text,
}
use grafted_keys.Exec.{Result, ok, err, bad_totp_secret}
use grafted_keys.Crypto.{Primitives, const_equal}

abbrev pub totp_period : ℕ
totp_period = 30

-- The result `ok` with the step; `none` is the last step before any step, -1.
pub data Verdict : Type 0 where
  accepted : ℕ → Verdict
  replayed : ℕ → Verdict
  no_match : Verdict

abbrev pub is_used : ℕ → Option ℕ → Bool
is_used s none = false
is_used s (some last_step) = leb s last_step

abbrev judge : ℕ → Option ℕ → Verdict
judge s last_step = if is_used s last_step then replayed s else accepted s

-- The window: one period before, now, and one period after.
abbrev pub window : ℕ → List ℕ
window now = (now - totp_period) ∷ now ∷ (now + totp_period) ∷ []

module _ (p : Primitives) (secret code : Text) (last_step : Option ℕ) where
  -- One turn of the loop, by the code that is wanted.
  abbrev compare_code : Option Text → ℕ → Result Verdict → Result Verdict
  compare_code none t rest = err bad_totp_secret
  compare_code (some want) t rest =
      if const_equal want code then ok (judge (t / totp_period) last_step) else rest

  unfoldable pub validate_at : List ℕ → Result Verdict
  unfolding const_equal
  validate_at [] = ok no_match
  validate_at (t ∷ ts) = compare_code (p.totp_code secret t) t (validate_at ts)

  unfoldable pub validate_totp : ℕ → Result Verdict
  unfolding validate_at
  validate_totp now = validate_at (window now)
