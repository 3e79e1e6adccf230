-- ===== src/Config/Bounds.antt =====
-- What internal/config/config.go guarantees of the values that it accepts.
use grafted_keys.Prelude.{
  ℕ, ◌*◌, ◌≤◌, ◌≡◌, ◌⊎◌, inl, inr, refl, true, false, [], Text, Dict, arith, ℤ, pos, negsuc,
  Bool-cases, same, if◌then◌else◌, text_dec, codes, not, ◌&&◌,
}
use grafted_keys.Exec.{ok}
use grafted_keys.Config.{
  Argon, Config, Parsers, less, validate, with_overrides, load_argon, narrowed, mem_mib, overridden,
  env_value, default_par, idle_limit,
}

narrowed_bounds :
    (mem time par : ℤ) (a : Argon)
    → narrowed mem time par ≡ ok a
    → (2 ≤ a.time_t)
      × (a.time_t ≤ 30)
      × (19 * 1024 ≤ a.mem_kib)
      × (a.mem_kib ≤ 4096 * 1024)
      × (1 ≤ a.par)
      × (a.par ≤ 255)
      × (mib : ℕ) × (mem ≡ pos mib)
      × (a.mem_kib ≡ mib * 1024)
narrowed_bounds (pos m) (pos t) (pos n) a h = (
  ground arith,
  ground arith,
  ground arith,
  ground arith,
  ground arith,
  ground arith,
  m,
  refl,
  ground arith,
)
narrowed_bounds (pos m) (pos t) (negsuc n) a h = absurd (ground arith)
narrowed_bounds (pos m) (negsuc t) par a h = absurd (ground arith)
narrowed_bounds (negsuc m) time par a h = absurd (ground arith)

-- The Argon2id parameters that `loadArgon` accepts are within the bounds, whatever the environment
-- holds, and the memory is the number of MiB that was asked for: nothing has wrapped around.
pub load_argon_bounds :
    (ps : Parsers) (e : Text → Text) (cpus : ℕ) (a : Argon)
    → load_argon ps e cpus ≡ ok a
    → (2 ≤ a.time_t)
      × (a.time_t ≤ 30)
      × (19 * 1024 ≤ a.mem_kib)
      × (a.mem_kib ≤ 4096 * 1024)
      × (1 ≤ a.par)
      × (a.par ≤ 255)
      × (mib : ℕ) × (mem_mib ps e ≡ pos mib)
      × (a.mem_kib ≡ mib * 1024)
unfolding load_argon
load_argon_bounds ps e cpus a h =
    narrowed_bounds (mem_mib ps e) (env_value ps.atoi e (codes "GRAFTED_ARGON_TIME") (pos 3))
      (env_value ps.atoi e (codes "GRAFTED_ARGON_PAR") (default_par cpus)) a h

less_irrefl : (x : ℤ) → less x x ≡ false
less_irrefl (pos n) = ground arith
less_irrefl (negsuc n) = ground arith

raised_to : (low x : ℤ) → less (if less x low then low else x) low ≡ false
raised_to low x = elim (Bool-cases (less x low)) [
  | inl e ↦ rw e (less_irrefl low)
  | inr e ↦ rw (e, e) refl
]

idle_limit-pos : (d : ℤ) → less (pos 0) (idle_limit d) ≡ true
idle_limit-pos d = elim (Bool-cases (less (pos 0) d)) [ inl e ↦ rw (e, e) refl | inr e ↦ rw e refl ]

clock_or_none :
    (ps : Parsers) (t : Text)
    → not (same t []) && not (ps.is_clock_time t) ≡ false
    → (t ≡ []) ⊎ (ps.is_clock_time t ≡ true)
clock_or_none ps t h = elim (text_dec t []) [ yes q ↦ inl q | no q ↦ inr (ground arith) ]

validate_valid :
    (ps : Parsers) (c : Config)
    → (validate ps c).1 ≡ ok tt
    → let d = (validate ps c).0 in
      (less d.backup_keep (pos 1) ≡ false)
      × (less (pos 0) d.session_idle ≡ true)
      × (less d.session_max d.session_idle ≡ false)
      × ((d.backup_at ≡ []) ⊎ (ps.is_clock_time d.backup_at ≡ true))
unfolding validate
validate_valid ps c h =
    elim (Bool-cases (not (same c.backup_at []) && not (ps.is_clock_time c.backup_at))) [
      | inl e ↦ absurd (ground arith)
      | inr e ↦ rw e (
        raised_to (pos 1) c.backup_keep,
        idle_limit-pos c.session_idle,
        raised_to (idle_limit c.session_idle) c.session_max,
        clock_or_none ps c.backup_at e,
      )
    ]

-- `WithOverrides` succeeds only with a retention of at least one, timeouts of which the idle one is
-- positive and no longer than the absolute one, and a time of day or none.
pub with_overrides_valid :
    (ps : Parsers) (c : Config) (kv : Dict Text)
    → (with_overrides ps c kv).1 ≡ ok tt
    → let d = (with_overrides ps c kv).0 in
      (less d.backup_keep (pos 1) ≡ false)
      × (less (pos 0) d.session_idle ≡ true)
      × (less d.session_max d.session_idle ≡ false)
      × ((d.backup_at ≡ []) ⊎ (ps.is_clock_time d.backup_at ≡ true))
unfolding with_overrides
with_overrides_valid ps c kv h = validate_valid ps (overridden ps kv c) h
