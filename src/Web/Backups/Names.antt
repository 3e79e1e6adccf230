-- ===== src/Web/Backups/Names.antt =====
-- `safeBackupPath` of internal/web/handlers_settings.go on the names of internal/backup/backup.go.
use grafted_keys.Prelude.{
  ℕ, ◌≡◌, refl, sym, ap, ◌∙◌, Bool, true, false, not, ◌||◌, ◌==◌, if◌then◌else◌, none, some, [],
  ◌∷◌, ◌++◌, Text, same, text_dec, All, arith,
}
use mathlib.Core.Path.{subst}
use grafted_keys.Exec.{ok}
use grafted_keys.Store.Schema.{World}
use grafted_keys.Crypto.{rand_id}
use grafted_keys.Backup.{snapshot_name}
use grafted_keys.Backup.Names.{
  matches, time_classes, is_backup_name, snapshot_name-is_backup_name, is_backup_name-no_slash,
}
use grafted_keys.Web.FileName.{last_element, file_base}
use grafted_keys.Web.Backups.{safe_backup_path}

append_assoc : (a : Text) (c : ℕ) (t : Text) → (a ++ c ∷ []) ++ t ≡ a ++ c ∷ t
append_assoc [] c t = refl
append_assoc (x ∷ a) c t = ap (λ r. x ∷ r) (append_assoc a c t)

append_nil : (a : Text) → a ++ [] ≡ a
append_nil [] = refl
append_nil (x ∷ a) = ap (λ r. x ∷ r) (append_nil a)

-- A path of one element.
last_element-single :
    (t last element : Text)
    → same (element ++ t) [] ≡ false
    → All (λ c. (c == b'/') ≡ false) t
    → last_element last element t ≡ element ++ t
unfolding last_element
last_element-single [] last element n h =
    let full = subst (λ t. same t [] ≡ false) (append_nil element) n in
    rw full (sym (append_nil element))
last_element-single (c ∷ t) last element n (k, h) = rw k (
    last_element-single t last (element ++ c ∷ [])
      (subst (λ u. same u [] ≡ false) (sym (append_assoc element c t)) n) h
    ∙ append_assoc element c t)

file_base-single :
    (t : Text) → same t [] ≡ false → All (λ c. (c == b'/') ≡ false) t → file_base t ≡ t
unfolding file_base
file_base-single t n h = rw (n, last_element-single t [] [] n h, n) refl

accepted :
    (a b c : Bool) (t : Text)
    → a ≡ false
    → b ≡ true
    → c ≡ true
    → (if a || not b || not c then none else some t) ≡ some t
accepted a b c t f g h = rw (f, g, h) refl

safe_backup_path-single :
    (t : Text)
    → same t [] ≡ false
    → file_base t ≡ t
    → is_backup_name t ≡ true
    → safe_backup_path t ≡ some t
unfolding safe_backup_path
safe_backup_path-single t n b e =
    accepted (same t []) (same t (file_base t)) (is_backup_name t) t n
      (ap (same t) b ∙ ground arith) e

-- Whatever `Snapshot` names a file, at a time that is written as eight digits, a dash and six digits,
-- `safeBackupPath` accepts that name as it is.
pub safe_backup_path-snapshot_name :
    (time id : Text) (w : World)
    → matches time_classes time ≡ true
    → (rand_id w).0 ≡ ok id
    → safe_backup_path (snapshot_name time id) ≡ some (snapshot_name time id)
unfolding text_dec
safe_backup_path-snapshot_name time id w h k =
    let e = snapshot_name-is_backup_name time id w h k in
    safe_backup_path-single (snapshot_name time id) refl
      (file_base-single (snapshot_name time id) refl
        (is_backup_name-no_slash (snapshot_name time id) e))
      e
