-- ===== src/Config.antt =====
-- internal/config/config.go. The environment is a function from names to values, "" for a variable
-- that is not set; `strconv.Atoi`, `time.ParseDuration` and `time.Parse("15:04", …)` are parameters.
-- Durations are in nanoseconds. `return c, c.Validate()` is read as Go's compiler runs it: the call
-- first, and then the value of `c`; the language leaves that order open.
pub mod Bounds
mod Tests
use grafted_keys.Prelude.{
  ℕ, ◌+◌, ◌-◌, ◌*◌, ◌%◌, ◌^◌, Bool, true, false, not, ◌||◌, ◌&&◌, Option, none, some, List, [], ◌∷◌,
  if◌then◌else◌, ltb, Text, codes, same, Dict, lookup, ℤ, pos, negsuc,
}
use grafted_keys.Exec.{Error, Result, ok, err, bad_config}
use grafted_keys.Auth.Limiter.{minute}

pub record Argon : Type 0 where
  pub time_t : ℕ
  pub mem_kib : ℕ
  pub par : ℕ

pub record Config : Type 0 where
  pub addr : Text
  pub data_dir : Text
  pub backup_dir : Text
  pub backup_at : Text
  pub backup_keep : ℤ
  pub session_idle : ℤ
  pub session_max : ℤ
  pub secure_cookie : Bool
  pub trust_proxy : Bool
  pub hsts : Bool
  pub argon : Argon

-- The functions of Go's library.
pub record Parsers : Type 0 where
  pub atoi : Text → Option ℤ
  pub duration : Text → Option ℤ
  pub is_clock_time : Text → Bool

-- `a < b`
abbrev pub less : ℤ → ℤ → Bool
less (pos a) (pos b) = ltb a b
less (pos a) (negsuc b) = false
less (negsuc a) (pos b) = true
less (negsuc a) (negsuc b) = ltb b a

-- `Validate`, which also raises what is too small.
abbrev pub raised : Config → Config
raised c = record c { backup_keep = if less c.backup_keep (pos 1) then pos 1 else c.backup_keep }

abbrev pub idle_limit : ℤ → ℤ
idle_limit d = if less (pos 0) d then d else pos (30 * minute)

abbrev pub timeouts_raised : Config → Config
timeouts_raised c = record c {
  session_idle = idle_limit c.session_idle;
  session_max =
      if less c.session_max (idle_limit c.session_idle)
      then idle_limit c.session_idle
      else c.session_max;
}

unfoldable pub validate : Parsers → Config → Config × Result (Unit {0})
validate ps c =
    if not (same c.backup_at []) && not (ps.is_clock_time c.backup_at)
    then (raised c, err bad_config)
    else (timeouts_raised (raised c), ok tt)

abbrev override_at : Option Text → Config → Config
override_at none c = c
override_at (some v) c = record c { backup_at = v }

-- A value that cannot be parsed changes nothing.
abbrev parsed : Option ℤ → ℤ → ℤ
parsed none old = old
parsed (some n) old = n

abbrev override : (Text → Option ℤ) → Option Text → ℤ → ℤ
override parse none old = old
override parse (some v) old = parsed (parse v) old

unfoldable pub overridden : Parsers → Dict Text → Config → Config
overridden ps kv c = record (override_at (lookup (codes "backup_at") kv) c) {
  backup_keep = override ps.atoi (lookup (codes "backup_keep") kv) c.backup_keep;
  session_idle = override ps.duration (lookup (codes "session_idle") kv) c.session_idle;
  session_max = override ps.duration (lookup (codes "session_max") kv) c.session_max;
}

-- `WithOverrides`
unfoldable pub with_overrides : Parsers → Config → Dict Text → Config × Result (Unit {0})
unfolding validate overridden
with_overrides ps c kv = validate ps (overridden ps kv c)

abbrev Environ : Type 0
Environ = Text → Text

-- `env`, `envInt` and `envDur`
unfoldable pub env : Environ → Text → Text → Text
env e k def = if same (e k) [] then def else e k

unfoldable pub env_value : (Text → Option ℤ) → Environ → Text → ℤ → ℤ
env_value parse e k def = if same (e k) [] then def else parsed (parse (e k)) def

abbrev one_of : Text → List Text → Bool
one_of v [] = false
one_of v (w ∷ ws) = same v w || one_of v ws

-- `envBool`
unfoldable pub env_bool : Environ → Text → Bool → Bool
env_bool e k def =
    if one_of (e k) (codes "1" ∷ codes "true" ∷ codes "TRUE" ∷ codes "yes" ∷ codes "on" ∷ [])
    then true
    else if one_of (e k) (codes "0" ∷ codes "false" ∷ codes "FALSE" ∷ codes "no" ∷ codes "off" ∷ [])
    then false
    else def

-- `defaultPar`, of the number of processors.
unfoldable pub default_par : ℕ → ℤ
default_par cpus = if ltb cpus 4 then pos cpus else pos 4

-- A conversion to an unsigned type of `w` bits, which wraps around.
abbrev pub to_unsigned : ℕ → ℤ → ℕ
to_unsigned w (pos n) = n % 2 ^ w
to_unsigned w (negsuc n) = 2 ^ w - 1 - n % 2 ^ w

abbrev outside : ℤ → ℕ → ℕ → Bool
outside x low high = less x (pos low) || less (pos high) x

abbrev pub mem_mib : Parsers → Environ → ℤ
mem_mib ps e = env_value ps.atoi e (codes "GRAFTED_ARGON_MEM_MIB") (pos 64)

-- `loadArgon`: the checks are made before the numbers are narrowed.
abbrev pub narrowed : ℤ → ℤ → ℤ → Result Argon
narrowed mem time par =
    if outside mem 19 4096
    then err bad_config
    else if outside time 2 30
    then err bad_config
    else if outside par 1 255
    then err bad_config
    else ok (record {
      time_t = to_unsigned 32 time;
      mem_kib = to_unsigned 32 mem * 1024 % 2 ^ 32;
      par = to_unsigned 8 par;
    })

unfoldable pub load_argon : Parsers → Environ → ℕ → Result Argon
unfolding env_value default_par
load_argon ps e cpus =
    narrowed (mem_mib ps e) (env_value ps.atoi e (codes "GRAFTED_ARGON_TIME") (pos 3))
      (env_value ps.atoi e (codes "GRAFTED_ARGON_PAR") (default_par cpus))

abbrev zero_argon : Argon
zero_argon = record { time_t = 0; mem_kib = 0; par = 0 }

abbrev from_env : Parsers → Environ → Config
from_env ps e = record {
  addr = env e (codes "GRAFTED_ADDR") (codes ":8080");
  data_dir = env e (codes "GRAFTED_DATA_DIR") (codes "/data");
  backup_dir = env e (codes "GRAFTED_BACKUP_DIR") (codes "/backups");
  backup_at = env e (codes "GRAFTED_BACKUP_AT") (codes "03:00");
  backup_keep = env_value ps.atoi e (codes "GRAFTED_BACKUP_KEEP") (pos 14);
  session_idle = env_value ps.duration e (codes "GRAFTED_SESSION_IDLE") (pos (30 * minute));
  session_max = env_value ps.duration e (codes "GRAFTED_SESSION_MAX") (pos (12 * (60 * minute)));
  secure_cookie = env_bool e (codes "GRAFTED_SECURE_COOKIE") true;
  trust_proxy = env_bool e (codes "GRAFTED_TRUST_PROXY") false;
  hsts = env_bool e (codes "GRAFTED_HSTS") false;
  argon = zero_argon;
}

abbrev with_argon : Parsers → Config → Result Argon → Config × Result (Unit {0})
with_argon ps c (ok a) = validate ps (record c { argon = a })
with_argon ps c (err e) = (c, err e)

-- `Load`
unfoldable pub load : Parsers → Environ → ℕ → Config × Result (Unit {0})
unfolding validate load_argon env env_value env_bool
load ps e cpus = with_argon ps (from_env ps e) (load_argon ps e cpus)
