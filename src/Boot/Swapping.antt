-- ===== src/Boot/Swapping.antt =====
-- The files that `applyPendingRestore` of cmd/grafted/main.go swaps, when calls fail: what clearing the live
-- database and renaming the staged file leave behind.
use mathlib.Core.Path.{subst}
use grafted_keys.Prelude.{
  ◌≡◌, ◌⊎◌, inl, inr, refl, sym, ap, ◌∙◌, false, none, some, List, [], ◌∷◌, ◌++◌, Text, Bytes,
  codes, Dict, lookup, insert, erase, lookup-insert, lookup-erase, same, text_dec, All, arith,
  Bool-cases, Option-cases,
}
use grafted_keys.Exec.{
  Result, Error, ok, err, not_exist, io_failed, bind_inversion, continue, continue_keeps,
}
use grafted_keys.Store.Schema.{next_fault}
use grafted_keys.Backup.{Disk, io}
use grafted_keys.Boot.{
  remove_file, rename_file, tried, or_absent, clear_each, swap_in, pending_file, live_file,
  sidecars,
}

-- The names of the live database and of its sidecars.
abbrev live_names : List Text
live_names = live_file ∷ (live_file ++ codes "-wal") ∷ (live_file ++ codes "-shm") ∷ []

-- The restore is staged, done, or dropped.
abbrev pub IsStaged : Bytes → Dict Bytes → Type 0
IsStaged content files = lookup pending_file files ≡ some content

pub record IsRestored (content : Bytes) (files : Dict Bytes) : Type 0 where
  pub not_pending : lookup pending_file files ≡ none
  pub live : lookup live_file files ≡ some content
  pub no_log : lookup (live_file ++ codes "-wal") files ≡ none
  pub no_index : lookup (live_file ++ codes "-shm") files ≡ none

pub record IsDropped (before files : Dict Bytes) : Type 0 where
  pub not_pending : lookup pending_file files ≡ none
  pub others : (n : Text) → same pending_file n ≡ false → lookup n files ≡ lookup n before

pub remove_file-cases :
    (n : Text) (d : Disk)
    → ((remove_file n d).1.data_files ≡ d.data_files)
      ⊎ (((remove_file n d).0 ≡ ok tt) × ((remove_file n d).1.data_files ≡ erase n d.data_files))
unfolding remove_file io
remove_file-cases n d = elim (Bool-cases (next_fault d.io_faults).0) [
  | inl f ↦ inl (rw f refl)
  | inr f ↦ elim (Option-cases (lookup n d.data_files)) [
    | inl o ↦ inl (rw (f, o) refl)
    | inr (b, o) ↦ inr (rw (f, o) (refl, refl))
  ]
]

cleared_absent :
    (n : Text) (d : Disk)
    → (tried (remove_file n) or_absent d).0 ≡ ok tt
    → lookup n (tried (remove_file n) or_absent d).1.data_files ≡ none
unfolding remove_file io
cleared_absent n d h = elim (Bool-cases (next_fault d.io_faults).0) [
  | inl f ↦ absurd (ground arith)
  | inr f ↦ elim (Option-cases (lookup n d.data_files)) [
    | inl o ↦ rw (f, o) o
    | inr (b, o) ↦ rw (f, o) (ground (arith, lookup-erase n n d.data_files))
  ]
]

pub rename_file-cases :
    (old new : Text) (d : Disk) (b : Bytes)
    → lookup old d.data_files ≡ some b
    → (((rename_file old new d).0 ≡ err io_failed)
        × ((rename_file old new d).1.data_files ≡ d.data_files))
      ⊎ (((rename_file old new d).0 ≡ ok tt)
          × ((rename_file old new d).1.data_files ≡ insert new b (erase old d.data_files)))
unfolding rename_file io
rename_file-cases old new d b h = elim (Bool-cases (next_fault d.io_faults).0) [
  | inl f ↦ inl (rw f (refl, refl))
  | inr f ↦ inr (rw (f, h) (refl, refl))
]

or_absent_same : (x : Result (Unit {0})) (t : Disk) → (or_absent x t).1 ≡ t
or_absent_same (ok u) t = refl
or_absent_same (err not_exist) t = refl
or_absent_same (err e) t = refl

cleared_keeps :
    (m n : Text) (d : Disk)
    → same m n ≡ false
    → lookup n (tried (remove_file m) or_absent d).1.data_files ≡ lookup n d.data_files
cleared_keeps m n d h =
    ap (λ (t : Disk). lookup n t.data_files)
      (or_absent_same (remove_file m d).0 (remove_file m d).1)
    ∙ elim (remove_file-cases m d) [
      | inl e ↦ ap (lookup n) e
      | inr (o, e) ↦ ap (lookup n) e ∙ ground (arith, lookup-erase m n d.data_files)
    ]

cleared_absence :
    (m n : Text) (d : Disk)
    → lookup n d.data_files ≡ none
    → lookup n (tried (remove_file m) or_absent d).1.data_files ≡ none
cleared_absence m n d h =
    ap (λ (t : Disk). lookup n t.data_files)
      (or_absent_same (remove_file m d).0 (remove_file m d).1)
    ∙ elim (remove_file-cases m d) [
      | inl e ↦ ap (lookup n) e ∙ h
      | inr (o, e) ↦ ap (lookup n) e ∙ ground (arith, lookup-erase m n d.data_files)
    ]

-- Clearing touches the names of the live database only, and leaves none of those it has cleared.
pub clear_each_keeps :
    (n : Text) (suffixes : List Text) (d : Disk)
    → All (λ s. same (live_file ++ s) n ≡ false) suffixes
    → lookup n (clear_each suffixes d).1.data_files ≡ lookup n d.data_files
unfolding clear_each
clear_each_keeps n [] d h = refl
clear_each_keeps n (s ∷ ss) d (h, hs) =
    continue_keeps (λ t. lookup n t.data_files ≡ lookup n d.data_files) _ (λ _. clear_each ss) _
      (cleared_keeps (live_file ++ s) n d h) λ _ t e. clear_each_keeps n ss t hs ∙ e

clear_each_absence :
    (n : Text) (suffixes : List Text) (d : Disk)
    → lookup n d.data_files ≡ none
    → lookup n (clear_each suffixes d).1.data_files ≡ none
unfolding clear_each
clear_each_absence n [] d h = h
clear_each_absence n (s ∷ ss) d h =
    continue_keeps (λ t. lookup n t.data_files ≡ none) _ (λ _. clear_each ss) _
      (cleared_absence (live_file ++ s) n d h) λ _ t e. clear_each_absence n ss t e

clear_each_clears :
    (suffixes : List Text) (d : Disk)
    → (clear_each suffixes d).0 ≡ ok tt
    → All (λ s. lookup (live_file ++ s) (clear_each suffixes d).1.data_files ≡ none) suffixes
unfolding clear_each
clear_each_clears [] d h = tt
clear_each_clears (s ∷ ss) d h =
    let (u, o, k, e) =
      bind_inversion (tried (remove_file (live_file ++ s)) or_absent) (λ _. clear_each ss) d tt h in
    subst
      (λ (r : Result (Unit {0}) × Disk).
        All (λ n. lookup (live_file ++ n) r.1.data_files ≡ none) (s ∷ ss))
      (sym e)
      (
        clear_each_absence (live_file ++ s) ss _ (cleared_absent (live_file ++ s) d o),
        clear_each_clears ss _ k,
      )

IsRestored-renamed :
    (content : Bytes) (files : Dict Bytes)
    → lookup (live_file ++ codes "-wal") files ≡ none
    → lookup (live_file ++ codes "-shm") files ≡ none
    → IsRestored content (insert live_file content (erase pending_file files))
unfolding text_dec
IsRestored-renamed content files w i = record {
  not_pending =
      lookup-insert live_file pending_file content (erase pending_file files)
      ∙ lookup-erase pending_file pending_file files;
  live = lookup-insert live_file live_file content (erase pending_file files);
  no_log =
      lookup-insert live_file (live_file ++ codes "-wal") content (erase pending_file files)
      ∙ (lookup-erase pending_file (live_file ++ codes "-wal") files ∙ w);
  no_index =
      lookup-insert live_file (live_file ++ codes "-shm") content (erase pending_file files)
      ∙ (lookup-erase pending_file (live_file ++ codes "-shm") files ∙ i);
}

-- What the swap leaves when it fails and when it succeeds.
pub swap_in-cases :
    (content : Bytes) (d : Disk)
    → IsStaged content d.data_files
    → (IsStaged content (swap_in d).1.data_files × ((e : Error) × ((swap_in d).0 ≡ err e)))
      ⊎ (((swap_in d).0 ≡ ok tt) × IsRestored content (swap_in d).1.data_files)
unfolding swap_in text_dec
swap_in-cases content d h =
    after (clear_each ([] ∷ sidecars) d).0 (clear_each ([] ∷ sidecars) d).1
      (clear_each_keeps pending_file ([] ∷ sidecars) d (refl, (refl, (refl, tt))) ∙ h)
      (clear_each_clears ([] ∷ sidecars) d)
  where
    after :
        (x : Result (Unit {0})) (t : Disk)
        → IsStaged content t.data_files
        → (x ≡ ok tt → All (λ s. lookup (live_file ++ s) t.data_files ≡ none) ([] ∷ sidecars))
        → (IsStaged content (continue x (λ _. rename_file pending_file live_file) t).1.data_files
            × ((e : Error) × ((continue x (λ _. rename_file pending_file live_file) t).0 ≡ err e)))
          ⊎ (((continue x (λ _. rename_file pending_file live_file) t).0 ≡ ok tt)
              × IsRestored content
                  (continue x (λ _. rename_file pending_file live_file) t).1.data_files)
    after (err e) t k a = inl (k, (e, refl))
    after (ok u) t k a = elim (rename_file-cases pending_file live_file t content k) [
      | inl (f, e) ↦ inl (ap (lookup pending_file) e ∙ k, (io_failed, f))
      | inr (o, e) ↦
          let (l, (w, (i, _))) = a refl in
          inr (o, subst (IsRestored content) (sym e) (IsRestored-renamed content t.data_files w i))
    ]
