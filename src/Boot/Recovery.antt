-- ===== src/Boot/Recovery.antt =====
-- `applyPendingRestore` of cmd/grafted/main.go when calls fail, or when the process stops in the middle
-- and starts again. A process that stops before a call is one of whose calls that one and all later
-- ones fail.
use mathlib.Core.Path.{subst}
use grafted_keys.Prelude.{
  ◌≡◌, ◌⊎◌, inl, inr, refl, sym, ap, ◌∙◌, none, some, List, [], ◌∷◌, ◌++◌, Text, Bytes, Dict,
  lookup, lookup-erase, text_dec, arith, Bool-cases, Option-cases,
}
use grafted_keys.Exec.{Result, ok, err, io_failed, pure}
use grafted_keys.Store.Schema.{next_fault}
use grafted_keys.Backup.{Disk, Formats, io}
use grafted_keys.Boot.{
  validate_content, validate_vault_file, read_file, remove_file, rename_file, tried, clear_each,
  swap_in, after_validation, after_stat, apply_pending_restore, pending_file, live_file, sidecars,
}
use grafted_keys.Boot.Swapping.{
  IsStaged, IsRestored, IsDropped, remove_file-cases, clear_each_keeps, swap_in-cases,
}

-- What the validation sees, if it can read the file.
pub validate-cases :
    (fs : Formats) (name : Text) (content : Bytes) (d : Disk)
    → lookup name d.data_files ≡ some content
    → ((validate_vault_file fs name d).1.data_files ≡ d.data_files)
      × (((validate_vault_file fs name d).0 ≡ validate_content fs content)
          ⊎ ((validate_vault_file fs name d).0 ≡ err io_failed))
unfolding validate_vault_file read_file io
validate-cases fs name content d h = elim (Bool-cases (next_fault d.io_faults).0) [
  | inl f ↦ rw f (refl, inr refl)
  | inr f ↦ rw (f, h) (refl, inl refl)
]

-- What any of the calls may leave behind.
Outcome : Bytes → Dict Bytes → Dict Bytes → Type 0
Outcome content before files =
    IsStaged content files ⊎ IsRestored content files ⊎ IsDropped before files

removed-Outcome :
    (content : Bytes) (d : Disk)
    → IsStaged content d.data_files
    → Outcome content d.data_files (tried (remove_file pending_file) (λ _. pure tt) d).1.data_files
unfolding Outcome
removed-Outcome content d h = elim (remove_file-cases pending_file d) [
  | inl e ↦ inl (ap (lookup pending_file) e ∙ h)
  | inr (o, e) ↦ inr (
      inr (record {
        not_pending =
            ap (lookup pending_file) e
            ∙ ground (arith, lookup-erase pending_file pending_file d.data_files);
        others = λ n k. ap (lookup n) e ∙ ground (arith, lookup-erase pending_file n d.data_files);
      }))
]

pub read_file-same : (n : Text) (d : Disk) → (read_file n d).1.data_files ≡ d.data_files
unfolding read_file io
read_file-same n d = elim (Bool-cases (next_fault d.io_faults).0) [
  | inl f ↦ rw f refl
  | inr f ↦ elim (Option-cases (lookup n d.data_files)) [
    | inl o ↦ rw (f, o) refl
    | inr (b, o) ↦ rw (f, o) refl
  ]
]

validated-Outcome :
    (content : Bytes) (x : Result (Unit {0})) (d : Disk)
    → IsStaged content d.data_files
    → Outcome content d.data_files (after_validation x d).1.data_files
unfolding Outcome
validated-Outcome content (ok u) d h = elim (swap_in-cases content d h) [
  | inl (k, e) ↦ inl k
  | inr (o, k) ↦ inr (inl k)
]
validated-Outcome content (err e) d h = removed-Outcome content d h

apply-Outcome :
    (fs : Formats) (content : Bytes) (d : Disk)
    → IsStaged content d.data_files
    → Outcome content d.data_files (apply_pending_restore fs d).1.data_files
unfolding apply_pending_restore Outcome
apply-Outcome fs content d h =
    after (read_file pending_file d).0 (read_file pending_file d).1 (read_file-same pending_file d)
  where
    after :
        (x : Result Bytes) (t : Disk)
        → t.data_files ≡ d.data_files
        → Outcome content d.data_files (after_stat fs x t).1.data_files
    after (err e) t k = inl (ap (lookup pending_file) k ∙ h)
    after (ok b) t k =
        let staged = ap (lookup pending_file) k ∙ h in
        let same_files = (validate-cases fs pending_file content t staged).0 in
        subst (λ files. Outcome content files (after_stat fs (ok b) t).1.data_files)
          (same_files ∙ k)
          (validated-Outcome content (validate_vault_file fs pending_file t).0
            (validate_vault_file fs pending_file t).1
            (ap (lookup pending_file) same_files ∙ staged))

clear_each_succeeds :
    (suffixes : List Text) (d : Disk)
    → d.io_faults ≡ []
    → ((clear_each suffixes d).0 ≡ ok tt) × ((clear_each suffixes d).1.io_faults ≡ [])
unfolding clear_each remove_file io
clear_each_succeeds [] d h = (refl, h)
clear_each_succeeds (s ∷ ss) d h = elim (Option-cases (lookup (live_file ++ s) d.data_files)) [
  | inl o ↦ rw (h, o) (clear_each_succeeds ss _ refl)
  | inr (b, o) ↦ rw (h, o) (clear_each_succeeds ss _ refl)
]

pub swap_in-succeeds :
    (content : Bytes) (d : Disk)
    → IsStaged content d.data_files
    → d.io_faults ≡ []
    → (swap_in d).0 ≡ ok tt
unfolding swap_in rename_file io text_dec
swap_in-succeeds content d h f =
    let (o, g) = clear_each_succeeds ([] ∷ sidecars) d f in
    let k = clear_each_keeps pending_file ([] ∷ sidecars) d (refl, (refl, (refl, tt))) in
    rw (o, g, k, h) refl

-- The next start, at which nothing fails.
abbrev pub restarted : Disk → Disk
restarted d = record d { io_faults = [] }

validate-staged :
    (fs : Formats) (content : Bytes) (d : Disk)
    → IsStaged content d.data_files
    → validate_content fs content ≡ ok tt
    → validate_vault_file fs pending_file (restarted d) ≡ (ok tt, restarted d)
unfolding validate_vault_file read_file io
validate-staged fs content d h v = rw (h, v) refl

pub apply-staged :
    (fs : Formats) (content : Bytes) (d : Disk)
    → IsStaged content d.data_files
    → validate_content fs content ≡ ok tt
    → apply_pending_restore fs (restarted d) ≡ swap_in (restarted d)
unfolding apply_pending_restore validate_vault_file read_file io
apply-staged fs content d h v = rw (h, validate-staged fs content d h v) refl

apply-nothing :
    (fs : Formats) (d : Disk)
    → lookup pending_file d.data_files ≡ none
    → apply_pending_restore fs (restarted d) ≡ (ok tt, restarted d)
unfolding apply_pending_restore read_file io
apply-nothing fs d h = rw h refl

-- A staged restore that is valid is done by a start at which nothing fails.
pub apply-IsRestored :
    (fs : Formats) (content : Bytes) (d : Disk)
    → IsStaged content d.data_files
    → validate_content fs content ≡ ok tt
    → ((apply_pending_restore fs (restarted d)).0 ≡ ok tt)
      × IsRestored content (apply_pending_restore fs (restarted d)).1.data_files
apply-IsRestored fs content d k v =
    subst (λ (r : Result (Unit {0}) × Disk). (r.0 ≡ ok tt) × IsRestored content r.1.data_files)
      (sym (apply-staged fs content d k v))
      (elim (swap_in-cases content (restarted d) k) [
        | inl (_, (e, g)) ↦ let o = swap_in-succeeds content (restarted d) k refl in absurd (cc)
        | inr r ↦ r
      ])

abbrev IsSettled : Bytes → Dict Bytes → Result (Unit {0}) × Disk → Type 0
IsSettled content before r =
    (r.0 ≡ ok tt) × (IsRestored content r.1.data_files ⊎ IsDropped before r.1.data_files)

-- A restore that is staged with a valid file is never half done for good: whichever calls of a start
-- fail, and wherever it stops, the next start at which nothing fails ends with the staged file as
-- the live database, without the sidecars of the old one, or with the restore dropped and every other
-- file as it was before.
pub apply_pending_restore_recovers :
    (fs : Formats) (content : Bytes) (d : Disk)
    → lookup pending_file d.data_files ≡ some content
    → validate_content fs content ≡ ok tt
    → let crashed = (apply_pending_restore fs d).1 in
      let r = apply_pending_restore fs (restarted crashed) in
      (r.0 ≡ ok tt) × (IsRestored content r.1.data_files ⊎ IsDropped d.data_files r.1.data_files)
unfolding Outcome
apply_pending_restore_recovers fs content d h v = settled (apply-Outcome fs content d h)
  where
    crashed : Disk
    crashed = (apply_pending_restore fs d).1

    settled :
        Outcome content d.data_files crashed.data_files
        → IsSettled content d.data_files (apply_pending_restore fs (restarted crashed))
    settled (inl k) = let (o, r) = apply-IsRestored fs content crashed k v in (o, inl r)
    settled (inr (inl k)) =
        subst (IsSettled content d.data_files) (sym (apply-nothing fs crashed k.not_pending))
          (refl, inl k)
    settled (inr (inr k)) =
        subst (IsSettled content d.data_files) (sym (apply-nothing fs crashed k.not_pending))
          (refl, inr k)
