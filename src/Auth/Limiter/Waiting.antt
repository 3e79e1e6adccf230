-- ===== src/Auth/Limiter/Waiting.antt =====
-- What `RetryAfter` promises about `Allowed`, and what `Reset` leaves in force.
use grafted_keys.Prelude.{
  ℕ, ◌+◌, ◌≡◌, not, arith, ltb, leb, if◌then◌else◌, Text, lookup-erase, same,
}
use grafted_keys.Auth.Limiter.{Limiter, allowed, retry_after, reset}

-- `RetryAfter` is exact: with no further failure, an attempt from the address is allowed `d`
-- later if and only if `d` is at least the time that it reports.
pub allowed-retry_after :
    (l : Limiter) (ip : Text) (now d : ℕ) → allowed l ip (now + d) ≡ leb (retry_after l ip now) d
unfolding allowed retry_after
allowed-retry_after l ip now d = ground arith

-- A successful unlock frees its own address from the lockout of that address alone: the global
-- lockout stays in force for it, and for every other address nothing changes.
pub allowed-reset :
    (l : Limiter) (ip j : Text) (now : ℕ)
    → allowed (reset l ip) j now
      ≡ (if same ip j then not (ltb now l.global.until) else allowed l j now)
unfolding allowed reset
allowed-reset l ip j now = ground (arith, lookup-erase ip j l.per_ip)
