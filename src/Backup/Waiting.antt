-- ===== src/Backup/Waiting.antt =====
-- `untilNext` and `Run` of internal/backup/backup.go. What package time does in a location is a
-- parameter; a location may put its clocks forward and back.
use grafted_keys.Prelude.{
  ℕ, ◌+◌, ◌-◌, ◌*◌, ◌≤◌, ◌<◌, ◌≡◌, ◌⊎◌, inl, inr, refl, ap, ◌∙◌, ◌&&◌, Option, none, some, List, [],
  ◌∷◌, if◌then◌else◌, leb, ◌==◌, false, Text, same, arith, ℤ, pos, negsuc, difference, Bool-cases,
}
use grafted_keys.Auth.Limiter.{minute}

-- Instants are nanoseconds: the hour and the minute that a clock shows, and `time.Date` of the date of
-- an instant with another hour and minute.
pub record Zone : Type 0 where
  pub hour_of : ℕ → ℕ
  pub minute_of : ℕ → ℕ
  pub on_date : ℕ → ℕ → ℕ → ℕ

abbrev pub hour : ℕ
hour = 60 * minute

abbrev pub day : ℕ
day = 24 * hour

-- A wall time that the clocks jump over is read an hour earlier, and is moved on again.
abbrev pub wall_time : Zone → ℕ → ℕ → ℕ → ℕ
wall_time z h m now =
    let next = z.on_date now h m in
    if z.hour_of next == h && z.minute_of next == m then next else next + hour

abbrev pub next_time : Zone → ℕ → ℕ → ℕ → ℕ
next_time z h m now = let next = wall_time z h m now in if leb next now then next + day else next

abbrev wait_for : Zone → Option (ℕ × ℕ) → ℕ → ℤ
wait_for z none now = pos day
wait_for z (some (h, m)) now = difference (next_time z h m now) now

-- `parse` is `time.Parse("15:04", …)`.
unfoldable pub until_next : (Text → Option (ℕ × ℕ)) → Zone → Text → ℕ → ℤ
until_next parse z at now = wait_for z (parse at) now

-- When a timer that is started now sends; one that is not positive sends at once.
abbrev pub timer : ℕ → ℤ → ℕ
timer now (pos d) = now + d
timer now (negsuc d) = now

-- The moments at which `Run` takes snapshots with a schedule that stays as it is, from how long each
-- snapshot takes. An empty schedule sets no timer.
unfoldable pub run : (Text → Option (ℕ × ℕ)) → Zone → Text → ℕ → List ℕ → List ℕ
unfolding until_next
run parse z at now [] = []
run parse z at now (d ∷ ds) =
    let fire = timer now (until_next parse z at now) in
    let rest = run parse z at (fire + d) ds in if same at [] then [] else fire ∷ rest

difference_positive : (a b : ℕ) → b < a → (d : ℕ) × (difference a b ≡ pos d) × (b + d ≡ a)
difference_positive a b h = (a - b, ground arith, omega arith)

timer_overdue : (a now : ℕ) → a ≤ now → timer now (difference a now) ≡ now
timer_overdue a now h = ground arith

wait_positive :
    (wall now : ℕ)
    → now < wall + day
    → (d : ℕ) × (difference (if leb wall now then wall + day else wall) now ≡ pos d)
      × (1 ≤ d)
      × (((now < wall) × (now + d ≡ wall)) ⊎ ((wall ≤ now) × (now + d ≡ wall + day)))
wait_positive wall now k = elim (Bool-cases (leb wall now)) [
  | inl y ↦
      let (d, e, f) = difference_positive (wall + day) now k in
      (d, rw y e, omega (arith, f, k), inr (ground arith, f))
  | inr y ↦
      let before : now < wall = ground arith in
      let (d, e, f) = difference_positive wall now before in
      (d, rw y e, omega (arith, f, before), inl (before, f))
]

wait_overdue :
    (wall now : ℕ)
    → wall + day ≤ now
    → timer now (difference (if leb wall now then wall + day else wall) now) ≡ now
wait_overdue wall now k = elim (Bool-cases (leb wall now)) [
  | inl y ↦ rw y (timer_overdue (wall + day) now k)
  | inr y ↦ rw y (timer_overdue wall now (omega arith))
]

until_next_parsed :
    (parse : Text → Option (ℕ × ℕ)) (z : Zone) (at : Text) (h m now : ℕ)
    → parse at ≡ some (h, m)
    → until_next parse z at now ≡ difference (next_time z h m now) now
unfolding until_next
until_next_parsed parse z at h m now e = ap (λ o. wait_for z o now) e

-- `t` is when clocks show the hour and the minute on the date of `now`. If they jump over that time,
-- which `time.Date` then reads as another, it is an hour after what it reads.
abbrev pub IsWallTime : Zone → ℕ → ℕ → ℕ → ℕ → Type 0
IsWallTime z h m now t =
    let read = z.on_date now h m in
    ((z.hour_of read ≡ h) × (z.minute_of read ≡ m) × (t ≡ read))
    ⊎ (¬ ((z.hour_of read ≡ h) × (z.minute_of read ≡ m)) × (t ≡ read + hour))

wall_time-IsWallTime : (z : Zone) (h m now t : ℕ) → IsWallTime z h m now t → wall_time z h m now ≡ t
wall_time-IsWallTime z h m now t (inl (a, b, e)) = ground (arith, a, b, e)
wall_time-IsWallTime z h m now t (inr (n, e)) = ground (arith, n, e)

-- With a schedule that is a time of day, whose wall time today is less than 24 hours ago, the wait is
-- positive. It ends at that wall time if it is yet to come, and otherwise 24 hours after it.
pub until_next_waits :
    (parse : Text → Option (ℕ × ℕ)) (z : Zone) (at : Text) (h m now t : ℕ)
    → parse at ≡ some (h, m)
    → IsWallTime z h m now t
    → now < t + day
    → (d : ℕ) × (until_next parse z at now ≡ pos d)
      × (1 ≤ d)
      × (((now < t) × (now + d ≡ t)) ⊎ ((t ≤ now) × (now + d ≡ t + day)))
until_next_waits parse z at h m now t e w k =
    rw (until_next_parsed parse z at h m now e, wall_time-IsWallTime z h m now t w)
      (wait_positive t now k)

pub total : List ℕ → ℕ
total [] = 0
total (d ∷ ds) = d + total ds

-- One after the other, without a pause.
pub back_to_back : ℕ → List ℕ → List ℕ
back_to_back now [] = []
back_to_back now (d ∷ ds) = now ∷ back_to_back (now + d) ds

later : (now d t : ℕ) → now + d ≤ t → now ≤ t
later now d t h = omega arith

-- With a schedule that is set and that is a time of day: if the wall time of the schedule is 24 hours ago or
-- more, on the date of the moment, at every moment while snapshots are taken, as it can be at the end of a day of
-- 25 hours, `Run` takes one snapshot after the other without a pause.
pub run_without_pause :
    (parse : Text → Option (ℕ × ℕ)) (z : Zone) (at : Text) (h m now : ℕ) (ds : List ℕ)
    → same at [] ≡ false
    → parse at ≡ some (h, m)
    → ((t : ℕ) → now ≤ t → t ≤ now + total ds → wall_time z h m t + day ≤ t)
    → run parse z at now ds ≡ back_to_back now ds
unfolding run total back_to_back
run_without_pause parse z at h m now [] n e k = refl
run_without_pause parse z at h m now (d ∷ ds) n e k =
    let fire : timer now (until_next parse z at now) ≡ now =
      ap (timer now) (until_next_parsed parse z at h m now e)
      ∙ wait_overdue (wall_time z h m now) now (k now (omega arith) (omega arith)) in
    rw (fire, n)
      (ap (λ rest. now ∷ rest)
        (run_without_pause parse z at h m (now + d) ds n e
          λ t a b. k t (later now d t a) (omega (arith, b))))
