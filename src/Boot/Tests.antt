-- ===== src/Boot/Tests.antt =====
-- A staged restore, and a process that stops after it has cleared the live database.
use grafted_keys.Prelude.{◌≡◌, ◌⊎◌, refl, true, false, some, [], ◌∷◌, codes, pos, text_dec, lookup}
use grafted_keys.Exec.{ok}
use grafted_keys.Backup.{Disk, Formats}
use grafted_keys.Boot.{apply_pending_restore, pending_file, live_file, validate_content}
use grafted_keys.Boot.Recovery.{restarted, apply_pending_restore_recovers}
use grafted_keys.Boot.Swapping.{IsRestored, IsDropped}

abbrev pub formats : Formats
formats = record {
  format_time = λ n. codes "20250131-235959";
  image = λ db. 1 ∷ [];
  user_version = λ b. some (pos 4);
  vault_rows = λ b. some 1;
}

abbrev staged : Disk
staged = record {
  backups = [];
  data_files = (live_file, 7 ∷ []) ∷ (pending_file, 8 ∷ []) ∷ [];
  io_faults = false ∷ false ∷ false ∷ true ∷ [];
}

apply_pending_restore_recovers_example :
    ((apply_pending_restore formats (restarted (apply_pending_restore formats staged).1)).0 ≡ ok tt)
    × (IsRestored
          (8 ∷ [])
          (apply_pending_restore formats
            (restarted (apply_pending_restore formats staged).1)).1.data_files
        ⊎ IsDropped staged.data_files
            (apply_pending_restore formats
              (restarted (apply_pending_restore formats staged).1)).1.data_files)
unfolding text_dec lookup validate_content
apply_pending_restore_recovers_example =
    apply_pending_restore_recovers formats (8 ∷ []) staged refl refl
