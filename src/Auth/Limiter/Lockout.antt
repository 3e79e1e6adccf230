-- ===== src/Auth/Limiter/Lockout.antt =====
-- When failures lock an address out, and when they lock everybody out.
use grafted_keys.Prelude.{
  ℕ, suc, ◌+◌, ◌-◌, ◌≤◌, ◌<◌, ◌≡◌, refl, true, false, List, [], ◌∷◌, Option, none, some, arith, ltb,
  if◌then◌else◌, Text, length, All, lookup, same, not, Bool-cases, inl, inr,
}
use grafted_keys.Auth.Limiter.{
  Limiter, Bucket, allowed, fail, count_fail, current, fresh_bucket, lookup-fail, decayed,
}

-- Failed attempts, each with its address and its time, oldest first.
abbrev pub Failures : Type 0
Failures = List (Text × ℕ)

pub fail_all : Limiter → Failures → Limiter
fail_all l [] = l
fail_all l ((ip, t) ∷ fs) = fail_all (fail l ip t) fs

abbrev pub last_time : ℕ → Failures → ℕ
last_time t [] = t
last_time t ((_, u) ∷ fs) = last_time u fs

-- Within the window that the failure at `start` opened.
abbrev pub WithinWindow : Limiter → ℕ → Failures → Type 0
WithinWindow l start = All (λ f. f.1 - start ≤ l.window)

-- The global bucket counts on: `n` failures since `start`, with room for those still to come.
global_lock :
    (l : Limiter) (start t : ℕ) (fs : Failures)
    → l.global.first ≡ start
    → WithinWindow l start fs
    → l.max_all ≤ l.global.fails + length fs
    → (l.max_all ≤ l.global.fails → l.global.until ≡ t + l.lockout)
    → (fail_all l fs).global.until ≡ last_time t fs + l.lockout
unfolding fail_all fail count_fail
global_lock l start t [] e w n h = h (omega arith)
global_lock l start t ((ip, u) ∷ fs) e (w, ws) n h =
    global_lock (fail l ip u) start u fs (ground arith) ws (ground arith) (λ m. ground arith)

-- The global lockout cannot be escaped by rotating addresses: when the window of the global
-- bucket has passed and `max_all` failures then fall within one window, whatever their addresses,
-- no address is allowed until the lockout after the last of them is over.
pub fail_all_locks_everybody :
    (l : Limiter) (ip : Text) (start : ℕ) (fs : Failures) (j : Text) (now : ℕ)
    → decayed l.window start l.global ≡ true
    → WithinWindow l start fs
    → l.max_all ≤ suc (length fs)
    → now < last_time start fs + l.lockout
    → allowed (fail_all l ((ip, start) ∷ fs)) j now ≡ false
unfolding allowed fail_all fail count_fail
fail_all_locks_everybody l ip start fs j now d w n before =
    let locked : (fail_all (fail l ip start) fs).global.until ≡ last_time start fs + l.lockout =
      global_lock (fail l ip start) start start fs (ground arith) w (ground arith)
        (λ m. ground arith) in
    ground arith

-- The failures of one address.
unfoldable pub own : Text → Failures → Failures
own ip [] = []
own ip ((j, t) ∷ fs) = let rest = own ip fs in if same j ip then (j, t) ∷ rest else rest

abbrev until_of : Option Bucket → ℕ
until_of none = 0
until_of (some b) = b.until

lookup-fail_own :
    (l : Limiter) (j ip : Text) (u : ℕ) (b : Bucket)
    → same j ip ≡ true
    → lookup ip l.per_ip ≡ some b
    → u - b.first ≤ l.window
    → lookup ip (fail l j u).per_ip ≡ some (count_fail l.max_ip l.lockout u b)
lookup-fail_own l j ip u b e h w = ground (arith, lookup-fail l j ip u)

ip_lock :
    (l : Limiter) (ip : Text) (start t : ℕ) (b : Bucket) (fs : Failures)
    → lookup ip l.per_ip ≡ some b
    → b.first ≡ start
    → WithinWindow l start (own ip fs)
    → l.max_ip ≤ b.fails + length (own ip fs)
    → (l.max_ip ≤ b.fails → b.until ≡ t + l.lockout)
    → until_of (lookup ip (fail_all l fs).per_ip) ≡ last_time t (own ip fs) + l.lockout
unfolding fail_all own fail count_fail
ip_lock l ip start t b [] e s w n h = ground arith
ip_lock l ip start t b ((j, u) ∷ fs) e s w n h = elim (Bool-cases (same j ip)) [
  | inl own_one ↦ rw own_one (
      ip_lock (fail l j u) ip start u (count_fail l.max_ip l.lockout u b) fs
        (lookup-fail_own l j ip u b own_one e (ground arith)) s (ground arith) (ground arith)
        (λ m. ground arith))
  | inr other ↦ rw other (
      ip_lock (fail l j u) ip start t b fs (ground (arith, lookup-fail l j ip u)) s
        (rw (other, own) at w) (ground arith) h)
]

-- Enough failures of one address lock it out, whatever other addresses fail in between: when the
-- address has no bucket or one whose window has passed, and `max_ip` failures of its own then fall
-- within one window, it is not allowed until the lockout after the last of them is over.
pub fail_all_locks_address :
    (l : Limiter) (ip : Text) (start : ℕ) (fs : Failures) (now : ℕ)
    → current l.window start (lookup ip l.per_ip) ≡ fresh_bucket start
    → WithinWindow l start (own ip fs)
    → l.max_ip ≤ suc (length (own ip fs))
    → now < last_time start (own ip fs) + l.lockout
    → allowed (fail_all l ((ip, start) ∷ fs)) ip now ≡ false
unfolding allowed fail_all fail count_fail
fail_all_locks_address l ip start fs now c w n before =
    let first : Bucket = count_fail l.max_ip l.lockout start (fresh_bucket start) in
    let opened : lookup ip (fail l ip start).per_ip ≡ some first =
      ground (arith, lookup-fail l ip ip start) in
    let locked : until_of (lookup ip (fail_all (fail l ip start) fs).per_ip)
        ≡ last_time start (own ip fs) + l.lockout =
      ip_lock (fail l ip start) ip start start first fs opened refl w (omega arith)
        (λ m. ground arith) in
    ground arith

-- The lockout of an address does not outlive its window: a failure that is reported when the
-- window has passed, though the address is still locked out, replaces the bucket and with it the
-- lockout (unless one failure is enough for it), so that only the global lockout is left.
pub fail_lifts_lockout :
    (l : Limiter) (ip : Text) (b : Bucket) (now u : ℕ)
    → lookup ip l.per_ip ≡ some b
    → now < b.until
    → decayed l.window now b ≡ true
    → 1 < l.max_ip
    → now ≤ u
    → allowed (fail l ip now) ip u ≡ not (ltb u (fail l ip now).global.until)
unfolding allowed count_fail
fail_lifts_lockout l ip b now u e locked d m h = ground (arith, lookup-fail l ip ip now)
