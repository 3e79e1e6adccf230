-- ===== src/Backup/Tests.antt =====
-- A backup directory with four entries, and a day of 25 hours.
use grafted_keys.Prelude.{
  inl, ◌<◌, ◌≤◌, ◌⊎◌, ℕ, ◌+◌, ◌-◌, ◌*◌, ◌/◌, ◌%◌, ◌≤◌, ◌≡◌, ◌⊎◌, refl, ◌&&◌, Option, none, some, [],
  ◌∷◌, if◌then◌else◌, ltb, leb, same, text_dec, Text, codes, lookup, arith, pos,
}
use grafted_keys.Exec.{ok}
use grafted_keys.Auth.Limiter.{minute}
use grafted_keys.Backup.{Disk, plain, prune, snapshots}
use grafted_keys.Backup.Order.{has_name, newer}
use grafted_keys.Backup.Pruning.{prune_keeps_newest}
use grafted_keys.Backup.Waiting.{
  Zone, hour, day, until_next, until_next_waits, run, back_to_back, run_without_pause,
}

abbrev disk : Disk
disk = record {
  backups =
      (codes "grafted-1.db", plain [])
      ∷ (codes "grafted-3.db", plain [])
      ∷ (codes "notes.txt", plain [])
      ∷ (codes "grafted-2.db", plain [])
      ∷ [];
  data_files = [];
  io_faults = [];
}

prune_keeps_newest_example :
    ((prune 2 disk).0 ≡ ok tt)
    × ((n : Text)
        → lookup n (prune 2 disk).1.backups ≡ (
            if has_name n (snapshots disk.backups) && leb 2 (newer n (snapshots disk.backups))
            then none
            else lookup n disk.backups))
unfolding text_dec lookup
prune_keeps_newest_example = prune_keeps_newest 2 disk (refl, (refl, (refl, (refl, tt)))) refl

-- The clocks go back from three to two.
abbrev long_day : Zone
long_day = record {
  hour_of = λ t. if ltb t (3 * hour) then t / hour else (t - hour) / hour;
  minute_of = λ t. (t / minute) % 60;
  on_date = λ now h m. (if ltb h 3 then h * hour else (h + 1) * hour) + m * minute;
}

abbrev parse : Text → Option (ℕ × ℕ)
parse t = if same t (codes "00:00") then some (0, 0) else some (4, 30)

until_next_waits_example :
    (d : ℕ) × (until_next parse long_day (codes "04:30") hour ≡ pos d)
    × (1 ≤ d)
    × (((hour < 5 * hour + 30 * minute) × (hour + d ≡ 5 * hour + 30 * minute))
        ⊎ ((5 * hour + 30 * minute ≤ hour) × (hour + d ≡ 5 * hour + 30 * minute + day)))
unfolding text_dec
until_next_waits_example =
    until_next_waits parse long_day (codes "04:30") 4 30 hour (5 * hour + 30 * minute) refl
      (inl (refl, refl, refl)) (omega arith)

run_without_pause_example :
    run parse long_day (codes "00:00") day (7 ∷ 5 ∷ []) ≡ back_to_back day (7 ∷ 5 ∷ [])
unfolding text_dec
run_without_pause_example =
    run_without_pause parse long_day (codes "00:00") 0 0 day (7 ∷ 5 ∷ []) refl refl λ t a b. a
