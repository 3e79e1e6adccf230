-- ===== src/Auth/Limiter/Sweeping.antt =====
-- `Sweep` only frees memory: no later answer of the limiter depends on when it ran.
use grafted_keys.Prelude.{
  ℕ, ◌≤◌, ◌≡◌, refl, true, List, [], ◌∷◌, Option, some, arith, Text, lookup, lookup-insert,
  lookup-erase, lookup-retain, insert-NodupKeys, erase-NodupKeys, retain-NodupKeys, NodupKeys,
  keep_if, sym, ap, ◌∙◌, Bool, false, if◌then◌else◌, same, not,
}
use grafted_keys.Auth.Limiter.{
  Limiter, Bucket, allowed, fail, reset, sweep, stale, count_fail, locked_at, current,
}

pub data Call : Type 0 where
  fails resets : Text → Call
  sweeps : Call

unfoldable pub step : Limiter → ℕ × Call → Limiter
step l (now, fails ip) = fail l ip now
step l (now, resets ip) = reset l ip
step l (now, sweeps) = sweep l now

pub run : Limiter → List (ℕ × Call) → Limiter
run l [] = l
run l (c ∷ cs) = run (step l c) cs

-- Times do not fall, from `now` on.
abbrev pub Ordered : ℕ → List (ℕ × Call) → Type 0
Ordered now [] = Unit {0}
Ordered now ((t, _) ∷ cs) = (now ≤ t) × Ordered t cs

-- The end of a history.
abbrev pub end : ℕ → List (ℕ × Call) → ℕ
end now [] = now
end now ((t, _) ∷ cs) = end t cs

-- What of an entry can still be observed at `now`: nothing of a stale one.
abbrev live : ℕ → ℕ → Option Bucket → Option Bucket
live window now = keep_if (λ b. not (stale window now b))

-- Two limiters that differ in stale entries only.
record Agrees (now : ℕ) (l m : Limiter) : Type 0 where
  global : l.global ≡ m.global
  max_ip : l.max_ip ≡ m.max_ip
  max_all : l.max_all ≡ m.max_all
  window : l.window ≡ m.window
  lockout : l.lockout ≡ m.lockout
  unique_l : NodupKeys l.per_ip
  unique_m : NodupKeys m.per_ip
  entries :
      (ip : Text) → live l.window now (lookup ip l.per_ip) ≡ live l.window now (lookup ip m.per_ip)

-- What is stale stays stale.
live-live :
    (window now t : ℕ) (o : Option Bucket)
    → now ≤ t
    → live window t (live window now o) ≡ live window t o
live-live window now t o h = ground arith

entries_later :
    {now : ℕ} {l m : Limiter} (t : ℕ) (ip : Text)
    → Agrees now l m
    → now ≤ t
    → live l.window t (lookup ip l.per_ip) ≡ live l.window t (lookup ip m.per_ip)
entries_later {now} {l} {m} t ip a h =
    sym (live-live l.window now t (lookup ip l.per_ip) h)
    ∙ ap (live l.window t) (a.entries ip)
    ∙ live-live l.window now t (lookup ip m.per_ip) h

-- A stale entry neither locks nor counts.
locked_at-live :
    (window now : ℕ) (o : Option Bucket) → locked_at now (live window now o) ≡ locked_at now o
locked_at-live window now o = ground arith

current-live :
    (window now : ℕ) (o : Option Bucket)
    → current window now (live window now o) ≡ current window now o
current-live window now o = ground arith

live-if :
    {b c : Bucket} (window t : ℕ) (here : Bool) (o p : Option Bucket)
    → b ≡ c
    → live window t o ≡ live window t p
    → live window t (if here then some b else o) ≡ live window t (if here then some c else p)
live-if window t true o p e h = ap (λ b. live window t (some b)) e
live-if window t false o p e h = h

fail-Agrees :
    {now : ℕ} {l m : Limiter} (ip : Text) (t : ℕ)
    → Agrees now l m
    → now ≤ t
    → Agrees t (fail l ip t) (fail m ip t)
unfolding fail
fail-Agrees {now} {l} {m} ip t a h = record {
  global = cc (a.global, a.max_all, a.lockout, a.window);
  max_ip = a.max_ip;
  max_all = a.max_all;
  window = a.window;
  lockout = a.lockout;
  unique_l = insert-NodupKeys ip _ l.per_ip a.unique_l;
  unique_m = insert-NodupKeys ip _ m.per_ip a.unique_m;
  entries = λ k.
      rw (lookup-insert ip k _ l.per_ip, lookup-insert ip k _ m.per_ip)
        (live-if l.window t (same ip k) _ _ counted (entries_later t k a h));
}
  where
    same_current : current l.window t (lookup ip l.per_ip) ≡ current l.window t (lookup ip m.per_ip)
    same_current =
        sym (current-live l.window t (lookup ip l.per_ip))
        ∙ ap (current l.window t) (entries_later t ip a h)
        ∙ current-live l.window t (lookup ip m.per_ip)

    counted :
        count_fail l.max_ip l.lockout t (current l.window t (lookup ip l.per_ip))
        ≡ count_fail m.max_ip m.lockout t (current m.window t (lookup ip m.per_ip))
    counted = cc (a.max_ip, a.lockout, a.window, same_current)

reset-Agrees :
    {now : ℕ} {l m : Limiter} (ip : Text) (t : ℕ)
    → Agrees now l m
    → now ≤ t
    → Agrees t (reset l ip) (reset m ip)
unfolding reset
reset-Agrees {now} {l} {m} ip t a h = record {
  global = a.global;
  max_ip = a.max_ip;
  max_all = a.max_all;
  window = a.window;
  lockout = a.lockout;
  unique_l = erase-NodupKeys ip l.per_ip a.unique_l;
  unique_m = erase-NodupKeys ip m.per_ip a.unique_m;
  entries = λ k.
      ground (arith, lookup-erase ip k l.per_ip, lookup-erase ip k m.per_ip, entries_later t k a h);
}

live-sweep :
    (window now : ℕ) (o : Option Bucket)
    → live window now (keep_if (λ b. not (stale window now b)) o) ≡ live window now o
live-sweep window now o = ground arith

sweep-Agrees :
    {now : ℕ} {l m : Limiter} (t : ℕ) → Agrees now l m → now ≤ t → Agrees t (sweep l t) (sweep m t)
unfolding sweep
sweep-Agrees {now} {l} {m} t a h = record {
  global = a.global;
  max_ip = a.max_ip;
  max_all = a.max_all;
  window = a.window;
  lockout = a.lockout;
  unique_l = retain-NodupKeys _ l.per_ip a.unique_l;
  unique_m = retain-NodupKeys _ m.per_ip a.unique_m;
  entries = λ k.
      rw (lookup-retain k _ l.per_ip a.unique_l, lookup-retain k _ m.per_ip a.unique_m, ← a.window)
        (ap (live l.window t) (entries_later t k a h));
}

step-Agrees :
    {now : ℕ} {l m : Limiter} (t : ℕ) (c : Call)
    → Agrees now l m
    → now ≤ t
    → Agrees t (step l (t, c)) (step m (t, c))
unfolding step
step-Agrees t (fails ip) a h = fail-Agrees ip t a h
step-Agrees t (resets ip) a h = reset-Agrees ip t a h
step-Agrees t sweeps a h = sweep-Agrees t a h

run-Agrees :
    (now : ℕ) (l m : Limiter) (cs : List (ℕ × Call))
    → Agrees now l m
    → Ordered now cs
    → Agrees (end now cs) (run l cs) (run m cs)
unfolding run
run-Agrees now l m [] a o = a
run-Agrees now l m ((t, c) ∷ cs) a (h, o) =
    run-Agrees t (step l (t, c)) (step m (t, c)) cs (step-Agrees t c a h) o

swept-Agrees : (l : Limiter) (now : ℕ) → NodupKeys l.per_ip → Agrees now (sweep l now) l
unfolding sweep
swept-Agrees l now u = record {
  global = refl;
  max_ip = refl;
  max_all = refl;
  window = refl;
  lockout = refl;
  unique_l = retain-NodupKeys _ l.per_ip u;
  unique_m = u;
  entries = λ k. rw (lookup-retain k _ l.per_ip u) (live-sweep l.window now (lookup k l.per_ip));
}

allowed-Agrees :
    {now : ℕ} {l m : Limiter} (ip : Text) (t : ℕ)
    → Agrees now l m
    → now ≤ t
    → allowed l ip t ≡ allowed m ip t
unfolding allowed
allowed-Agrees {now} {l} {m} ip t a h = cc (
  a.global,
  sym (locked_at-live l.window t (lookup ip l.per_ip))
      ∙ ap (locked_at t) (entries_later t ip a h)
      ∙ locked_at-live l.window t (lookup ip m.per_ip),
)

-- Sweeping cannot be observed: with one entry for an address, as a map has, a limiter that was
-- swept at `now` and one that was not allow the same attempts after any later calls of `Fail`,
-- `Reset` and `Sweep`, in the order of their times.
pub sweep_unobservable :
    (l : Limiter) (now : ℕ) (cs : List (ℕ × Call)) (ip : Text) (t : ℕ)
    → NodupKeys l.per_ip
    → Ordered now cs
    → end now cs ≤ t
    → allowed (run (sweep l now) cs) ip t ≡ allowed (run l cs) ip t
sweep_unobservable l now cs ip t u o h =
    allowed-Agrees ip t (run-Agrees now (sweep l now) l cs (swept-Agrees l now u) o) h
