-- ===== src/Backup/Pruning.antt =====
-- What `prune` of internal/backup/backup.go keeps.
use grafted_keys.Prelude.{
  ℕ, ◌≡◌, refl, ◌∙◌, false, ◌&&◌, none, List, [], ◌∷◌, if◌then◌else◌, leb, drop, Text, arith, Dict,
  lookup, erase, lookup-erase, NodupKeys, Bool-cases, inl, inr,
}
use grafted_keys.Exec.{ok}
use grafted_keys.Backup.{
  File, Disk, is_snapshot, snapshots, sort_names, read_backups, remove_backup, remove_each, prune,
  io,
}
use grafted_keys.Backup.Order.{
  has_name, newer, DistinctTexts, has_name-drop, sort_names-Descends, has_name-sort_names,
  newer-sort_names,
}

has_name-snapshots :
    (n : Text) (d : Dict File) → lookup n d ≡ none → has_name n (snapshots d) ≡ false
unfolding lookup snapshots has_name
has_name-snapshots n [] h = refl
has_name-snapshots n ((m, f) ∷ d) h = ground (arith, has_name-snapshots n d)

snapshots-DistinctTexts : (d : Dict File) → NodupKeys d → DistinctTexts (snapshots d)
unfolding snapshots
snapshots-DistinctTexts [] u = tt
snapshots-DistinctTexts ((n, f) ∷ d) (h, u) = elim (Bool-cases (is_snapshot n f)) [
  | inl e ↦ rw e (has_name-snapshots n d h, snapshots-DistinctTexts d u)
  | inr e ↦ rw e (snapshots-DistinctTexts d u)
]

-- Without failures every name on the list is removed, and nothing else.
remove_each_removes :
    (ns : List Text) (d : Disk)
    → d.io_faults ≡ []
    → ((remove_each ns d).0 ≡ ok tt)
      × ((n : Text)
          → lookup n (remove_each ns d).1.backups
            ≡ (if has_name n ns then none else lookup n d.backups))
unfolding remove_each remove_backup io has_name
remove_each_removes [] d h = (refl, λ n. refl)
remove_each_removes (m ∷ ns) d h =
    let (o, f) =
      remove_each_removes ns (record d { backups = erase m d.backups; io_faults = [] }) refl in
    rw h (o, λ n. f n ∙ ground (arith, lookup-erase m n d.backups))

-- `prune` removes exactly the snapshots that have at least `keep` newer ones beside them: in a directory with one
-- entry for a name, and as long as no call fails, an entry is gone afterwards if it is a snapshot and at least `keep`
-- snapshots have a later name, and is as it was otherwise.
pub prune_keeps_newest :
    (keep : ℕ) (d : Disk)
    → NodupKeys d.backups
    → d.io_faults ≡ []
    → let names = snapshots d.backups in
      ((prune keep d).0 ≡ ok tt)
      × ((n : Text)
          → lookup n (prune keep d).1.backups
            ≡ (if has_name n names && leb keep (newer n names) then none else lookup n d.backups))
unfolding prune read_backups io
prune_keeps_newest keep d u h =
    let names = snapshots d.backups in
    let (o, f) =
      remove_each_removes (drop keep (sort_names names)) (record d { io_faults = [] }) refl in
    rw h (
      o,
      λ n.
          f n
          ∙ rw
              (
                has_name-drop n keep (sort_names names)
                    (sort_names-Descends names (snapshots-DistinctTexts d.backups u)),
                has_name-sort_names n names,
                newer-sort_names n names,
              )
              refl,
    )
