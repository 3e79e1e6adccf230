-- ===== src/Web/Reads.antt =====
-- Handlers of internal/web that only read, with a rule for each way to build one.
pub mod Handlers
use grafted_keys.Prelude.{
  ℕ, ◌≡◌, refl, ◌∙◌, Bool, true, false, if◌then◌else◌, Dict, Text, Bytes, Option,
}
use grafted_keys.Exec.{Exec, Result, ok, err, Error, pure, continue, ◌>>=◌, continue_keeps}
use grafted_keys.Store.Schema.{World, Db}
use grafted_keys.Store.Atomic.{Quiet}
use grafted_keys.Auth.Limiter.{Limiter}
use grafted_keys.Auth.Sessions.{Session, Sessions}
use grafted_keys.Crypto.{rand_bytes}
use grafted_keys.Vault.Lifecycle.Unlocking.{Quiet-rand_bytes}
use grafted_keys.Backup.{Disk, File}
use grafted_keys.Web.Server.{
  Library, Server, Response, Schedule, attempt, attempt_disk, on_sessions, token, new_session,
  world_of,
}

-- Everything that lasts is as it was: the database, the files, the limiter, the schedule, and whether a
-- restart was asked for. The sessions and the bytes of the random source may have changed.
pub record Unchanged (s t : Server) : Type 0 where
  pub db : t.db ≡ s.db
  pub backups : t.disk.backups ≡ s.disk.backups
  pub data_files : t.disk.data_files ≡ s.disk.data_files
  pub limiter : t.limiter ≡ s.limiter
  pub schedule : t.schedule ≡ s.schedule
  pub restarting : t.restarting ≡ s.restarting

pub Unchanged-trans : (s t u : Server) → Unchanged s t → Unchanged t u → Unchanged s u
Unchanged-trans s t u a b = record {
  db = b.db ∙ a.db;
  backups = b.backups ∙ a.backups;
  data_files = b.data_files ∙ a.data_files;
  limiter = b.limiter ∙ a.limiter;
  schedule = b.schedule ∙ a.schedule;
  restarting = b.restarting ∙ a.restarting;
}

pub record Reads {A : Type 0} (m : Exec Server A) : Type 0 where
  pub at : (s : Server) → Unchanged s (m s).1

pub unchanged : (s : Server) → Unchanged s s
unchanged s = record {
  db = refl;
  backups = refl;
  data_files = refl;
  limiter = refl;
  schedule = refl;
  restarting = refl;
}

pub Unchanged-but_sessions :
    (s : Server) (sessions : Sessions) → Unchanged s (record s { sessions = sessions })
Unchanged-but_sessions s sessions = record {
  db = refl;
  backups = refl;
  data_files = refl;
  limiter = refl;
  schedule = refl;
  restarting = refl;
}

pub Reads-pure : {A : Type 0} (a : A) → Reads (pure a)
Reads-pure a = record { at = unchanged }

pub Reads-bind :
    {A B : Type 0} (m : Exec Server A) (f : A → Exec Server B)
    → Reads m
    → ((a : A) → Reads (f a))
    → Reads (m >>= f)
Reads-bind m f c k = record {
  at = λ s.
      continue_keeps (Unchanged s) (m s).0 f (m s).1 (c.at s)
        λ a t h. Unchanged-trans s t _ h ((k a).at t);
}

pub Reads-if :
    {A : Type 0} (b : Bool) (m n : Exec Server A) → Reads m → Reads n → Reads (if b then m else n)
Reads-if true m n c k = c
Reads-if false m n c k = k

pub Reads-attempt : {A : Type 0} (m : Exec World A) → Quiet m → Reads (attempt m)
unfolding attempt
Reads-attempt m q = record {
  at = λ s. record {
    db = q.at (world_of s);
    backups = refl;
    data_files = refl;
    limiter = refl;
    schedule = refl;
    restarting = refl;
  };
}

-- A call of package os that only reads.
pub record Peeks {A : Type 0} (m : Exec Disk A) : Type 0 where
  pub at : (d : Disk) → ((m d).1.backups ≡ d.backups) × ((m d).1.data_files ≡ d.data_files)

pub Reads-attempt_disk : {A : Type 0} (m : Exec Disk A) → Peeks m → Reads (attempt_disk m)
unfolding attempt_disk
Reads-attempt_disk m q = record {
  at = λ s. record {
    db = refl;
    backups = (q.at s.disk).0;
    data_files = (q.at s.disk).1;
    limiter = refl;
    schedule = refl;
    restarting = refl;
  };
}

pub Reads-on_sessions : {A : Type 0} (f : Sessions → ℕ → Sessions × A) → Reads (on_sessions f)
Reads-on_sessions f = record { at = λ s. Unchanged-but_sessions s _ }

pub Reads-token : (lib : Library) → Reads (token lib)
unfolding token
Reads-token lib = record {
  at = λ s. record {
    db = (Quiet-rand_bytes 32).at (world_of s);
    backups = refl;
    data_files = refl;
    limiter = refl;
    schedule = refl;
    restarting = refl;
  };
}

pub Reads-new_session :
    (lib : Library) (dek : Option Bytes) (pending : Bool) → Reads (new_session lib dek pending)
unfolding new_session
Reads-new_session lib dek pending =
    Reads-bind (token lib) _ (Reads-token lib)
      λ id. Reads-bind (token lib) _ (Reads-token lib) λ csrf. Reads-on_sessions _

pub ruleset reads_rules = (
  Reads-pure, Reads-bind, Reads-if, Reads-attempt, Reads-attempt_disk, Reads-on_sessions,
  Reads-token, Reads-new_session,
)
