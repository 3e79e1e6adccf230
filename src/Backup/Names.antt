-- ===== src/Backup/Names.antt =====
-- `backupNameRE` and `safeBackupPath` of internal/web/handlers_settings.go, on the names that
-- `Snapshot` of internal/backup/backup.go gives.
use grafted_keys.Prelude.{
  ℕ, zero, suc, ◌≤◌, ◌≡◌, refl, sym, Bool, true, false, not, ◌&&◌, List, [], ◌∷◌, ◌++◌,
  if◌then◌else◌, leb, ◌==◌, length, take, Text, codes, All, arith, ℕ_discrete,
}
use grafted_keys.Exec.{ok}
use grafted_keys.Store.Schema.{World}
use grafted_keys.Crypto.{rand_id}
use grafted_keys.Crypto.Identifiers.{rand_id_symbols, is_base32, IsBase32}
use grafted_keys.Backup.{snapshot_name, backup_prefix}

-- A regular expression of single bytes: what each byte may be.
abbrev pub Classes : Type 0
Classes = List (ℕ → Bool)

unfoldable pub matches : Classes → Text → Bool
matches [] [] = true
matches [] (c ∷ t) = false
matches (p ∷ ps) [] = false
matches (p ∷ ps) (c ∷ t) = let rest = matches ps t in if p c then rest else false

abbrev pub literal : Text → Classes
literal [] = []
literal (c ∷ t) = (λ x. x == c) ∷ literal t

abbrev pub repeated : ℕ → (ℕ → Bool) → Classes
repeated zero p = []
repeated (suc n) p = p ∷ repeated n p

abbrev pub is_digit : ℕ → Bool
is_digit c = leb 48 c && leb c 57

abbrev pub time_classes : Classes
time_classes = repeated 8 is_digit ++ (literal (codes "-") ++ repeated 6 is_digit)

abbrev rest_classes : Classes
rest_classes = repeated 6 is_base32 ++ literal (codes ".db")

-- `^grafted-\d{8}-\d{6}-[A-Z2-7]{6}\.db$`
abbrev pub backup_name_re : Classes
backup_name_re = literal backup_prefix ++ (time_classes ++ (literal (codes "-") ++ rest_classes))

unfoldable pub is_backup_name : Text → Bool
unfolding matches
is_backup_name name = matches backup_name_re name

-- ---- what snapshots are called ----

matches-append :
    (ps qs : Classes) (t u : Text)
    → matches ps t ≡ true
    → matches qs u ≡ true
    → matches (ps ++ qs) (t ++ u) ≡ true
unfolding matches
matches-append [] qs [] u h k = k
matches-append [] qs (c ∷ t) u h k = absurd (cc)
matches-append (p ∷ ps) qs [] u h k = absurd (cc)
matches-append (p ∷ ps) qs (c ∷ t) u h k = ground (arith, matches-append ps qs t u)

matches-repeated :
    (n : ℕ) (t : Text)
    → n ≤ length t
    → All IsBase32 t
    → matches (repeated n is_base32) (take n t) ≡ true
unfolding matches
matches-repeated zero t h a = refl
matches-repeated (suc n) [] h a = absurd (omega arith)
matches-repeated (suc n) (c ∷ t) h (b, a) = rw b (matches-repeated n t (omega arith) a)

matches_itself : (t : Text) → matches (literal t) t ≡ true
unfolding matches
matches_itself [] = refl
matches_itself (c ∷ t) = ground (arith, matches_itself t)

-- A class that no separator of a path is in.
no_slash : (ℕ → Bool) → Bool
no_slash p = not (p b'/')

all_classes : ((ℕ → Bool) → Bool) → Classes → Bool
all_classes q [] = true
all_classes q (p ∷ ps) = q p && all_classes q ps

differs : (p : ℕ → Bool) (c : ℕ) → no_slash p ≡ true → p c ≡ true → (c == b'/') ≡ false
unfolding no_slash
differs p c h k = elim (ℕ_discrete c b'/') [
  | yes e ↦ let there : p b'/' ≡ true = rw (sym e) k in absurd (ground arith)
  | no q ↦ ground arith
]

matches-no_slash :
    (ps : Classes) (t : Text)
    → all_classes no_slash ps ≡ true
    → matches ps t ≡ true
    → All (λ c. (c == b'/') ≡ false) t
unfolding matches all_classes no_slash
matches-no_slash [] [] a h = tt
matches-no_slash [] (c ∷ t) a h = absurd (cc)
matches-no_slash (p ∷ ps) [] a h = absurd (cc)
matches-no_slash (p ∷ ps) (c ∷ t) a h =
    (differs p c (ground arith) (ground arith), matches-no_slash ps t (ground arith) (ground arith))

-- The name that `Snapshot` gives is a name that `backupNameRE` matches, if the time is written as
-- eight digits, a dash and six digits.
pub snapshot_name-is_backup_name :
    (time id : Text) (w : World)
    → matches time_classes time ≡ true
    → (rand_id w).0 ≡ ok id
    → is_backup_name (snapshot_name time id) ≡ true
unfolding is_backup_name
snapshot_name-is_backup_name time id w h k =
    let (n, a) = rand_id_symbols w id k in
    matches-append (literal backup_prefix) (time_classes ++ (literal (codes "-") ++ rest_classes))
      backup_prefix (time ++ (codes "-" ++ (take 6 id ++ codes ".db")))
      (matches_itself backup_prefix)
      (matches-append time_classes (literal (codes "-") ++ rest_classes) time
        (codes "-" ++ (take 6 id ++ codes ".db")) h
        (matches-append (literal (codes "-")) rest_classes (codes "-") (take 6 id ++ codes ".db")
          (matches_itself (codes "-"))
          (matches-append (repeated 6 is_base32) (literal (codes ".db")) (take 6 id) (codes ".db")
            (matches-repeated 6 id (omega arith) a) (matches_itself (codes ".db")))))

-- A name that `backupNameRE` matches has no separator of a path.
pub is_backup_name-no_slash :
    (name : Text) → is_backup_name name ≡ true → All (λ c. (c == b'/') ≡ false) name
unfolding is_backup_name all_classes no_slash
is_backup_name-no_slash name h = matches-no_slash backup_name_re name refl h
