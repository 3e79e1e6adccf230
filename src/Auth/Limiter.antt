-- ===== src/Auth/Limiter.antt =====
-- internal/auth/ratelimit.go. The mutex makes each method one step, so a method is a function of
-- the limiter and of the time that `time.Now` returns. Times and durations are nanoseconds; the
-- zero `time.Time` is 0.
pub mod Lockout
pub mod Waiting
pub mod Sweeping
mod Tests
use grafted_keys.Prelude.{
  ℕ, ◌+◌, ◌-◌, ◌*◌, Bool, true, false, not, ◌&&◌, Option, none, some, [], ltb, leb, if◌then◌else◌,
  Text, Dict, lookup, insert, erase, retain, same, lookup-insert, ◌≡◌,
}

pub record Bucket : Type 0 where
  pub fails : ℕ
  pub first : ℕ
  pub until : ℕ

pub record Limiter : Type 0 where
  pub per_ip : Dict Bucket
  pub global : Bucket
  pub max_ip : ℕ
  pub max_all : ℕ
  pub window : ℕ
  pub lockout : ℕ

abbrev pub minute : ℕ
minute = 60 * 1_000_000_000

unfoldable pub new_limiter : Limiter
new_limiter = record {
  per_ip = [];
  global = record { fails = 0; first = 0; until = 0 };
  max_ip = 5;
  max_all = 20;
  window = 10 * minute;
  lockout = 15 * minute;
}

-- `now.Before(b.until)` for the entry of a map, if there is one.
abbrev pub locked_at : ℕ → Option Bucket → Bool
locked_at now none = false
locked_at now (some b) = ltb now b.until

unfoldable pub allowed : Limiter → Text → ℕ → Bool
allowed l ip now =
    if ltb now l.global.until then false else not (locked_at now (lookup ip l.per_ip))

-- `now.Sub(b.first) > l.window`
abbrev pub decayed : ℕ → ℕ → Bucket → Bool
decayed window now b = ltb window (now - b.first)

abbrev pub fresh_bucket : ℕ → Bucket
fresh_bucket now = record { fails = 0; first = now; until = 0 }

-- The bucket that a failure at `now` counts in.
abbrev pub current : ℕ → ℕ → Option Bucket → Bucket
current window now none = fresh_bucket now
current window now (some b) = if decayed window now b then fresh_bucket now else b

-- One more failure, and the lockout once there are enough.
unfoldable pub count_fail : ℕ → ℕ → ℕ → Bucket → Bucket
count_fail max lockout now b = record b {
  fails = b.fails + 1;
  until = if leb max (b.fails + 1) then now + lockout else b.until;
}

unfoldable pub fail : Limiter → Text → ℕ → Limiter
fail l ip now = record l {
  per_ip =
      insert ip (count_fail l.max_ip l.lockout now (current l.window now (lookup ip l.per_ip)))
        l.per_ip;
  global = count_fail l.max_all l.lockout now (current l.window now (some l.global));
}

unfoldable pub reset : Limiter → Text → Limiter
reset l ip = record l { per_ip = erase ip l.per_ip }

-- What `Sweep` drops: `now.After(b.until) && now.Sub(b.first) > l.window`.
abbrev pub stale : ℕ → ℕ → Bucket → Bool
stale window now b = ltb b.until now && decayed window now b

pub sweep : Limiter → ℕ → Limiter
sweep l now = record l { per_ip = retain (λ b. not (stale l.window now b)) l.per_ip }

-- The later of two ends of a lockout.
abbrev later : ℕ → Option Bucket → ℕ
later until none = until
later until (some b) = if ltb until b.until then b.until else until

unfoldable pub retry_after : Limiter → Text → ℕ → ℕ
retry_after l ip now =
    let until = later l.global.until (lookup ip l.per_ip) in
    if ltb 0 (until - now) then until - now else 0

pub lookup-fail :
    (l : Limiter) (ip k : Text) (now : ℕ)
    → lookup k (fail l ip now).per_ip ≡ (
        if same ip k
        then some (count_fail l.max_ip l.lockout now (current l.window now (lookup ip l.per_ip)))
        else lookup k l.per_ip)
unfolding fail
lookup-fail l ip k now = lookup-insert ip k _ l.per_ip
