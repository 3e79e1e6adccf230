-- ===== src/Auth/Limiter/Tests.antt =====
-- Concrete limiters.
use grafted_keys.Prelude.{◌≡◌, refl, true, false, [], ◌∷◌, arith, Text, codes, lookup, text_dec}
use grafted_keys.Auth.Limiter.{Limiter, fail, sweep, allowed, count_fail}
use grafted_keys.Auth.Limiter.Lockout.{fail_all, fail_all_locks_everybody, fail_lifts_lockout}
use grafted_keys.Auth.Limiter.Sweeping.{sweep_unobservable, run, fails, sweeps}

abbrev home : Text
home = codes "10.0.0.1"

abbrev office : Text
office = codes "10.0.0.2"

-- A limiter that is strict enough for short histories.
abbrev strict : Limiter
strict = record {
  per_ip = (home, record { fails = 2; first = 100; until = 700 }) ∷ [];
  global = record { fails = 0; first = 0; until = 0 };
  max_ip = 2;
  max_all = 3;
  window = 50;
  lockout = 600;
}

fail_all_locks_everybody_example :
    allowed
      (fail_all strict ((home, 1000) ∷ (office, 1010) ∷ (office, 1020) ∷ []))
      (codes "::1")
      1500
    ≡ false
fail_all_locks_everybody_example =
    fail_all_locks_everybody strict home 1000 ((office, 1010) ∷ (office, 1020) ∷ []) (codes "::1")
      1500 refl (omega arith, (omega arith, tt)) (omega arith) (omega arith)

fail_lifts_lockout_example : allowed (fail strict home 200) home 210 ≡ true
unfolding fail count_fail lookup text_dec
fail_lifts_lockout_example =
    fail_lifts_lockout strict home (record { fails = 2; first = 100; until = 700 }) 200 210 refl
      (omega arith) refl (omega arith) (omega arith)

sweep_unobservable_example :
    allowed (run (sweep strict 800) ((810, fails home) ∷ (820, sweeps) ∷ [])) home 830
    ≡ allowed (run strict ((810, fails home) ∷ (820, sweeps) ∷ [])) home 830
unfolding lookup text_dec
sweep_unobservable_example =
    sweep_unobservable strict 800 ((810, fails home) ∷ (820, sweeps) ∷ []) home 830 (refl, tt)
      (omega arith, (omega arith, tt)) (omega arith)
