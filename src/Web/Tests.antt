-- ===== src/Web/Tests.antt =====
-- A server with a vault, one open session, and one that waits for a passphrase.
mod Requests
mod Content
mod Import
mod FileName
mod Routes
mod Backups
use grafted_keys.Prelude.{
  ℕ, ◌+◌, ◌*◌, ◌≡◌, ◌⊎◌, refl, Bool, true, false, Option, none, some, List, [], ◌∷◌, ◌++◌, Text,
  Bytes, codes, pos, length, take, text_dec, same,
}
use grafted_keys.Config.{Config}
use grafted_keys.Auth.Limiter.{minute, new_limiter, Limiter}
use grafted_keys.Auth.Sessions.{Session, Sessions}
use grafted_keys.Store.Schema.{World, VaultRow}
use grafted_keys.Vault.Tests.{argon, start, empty_db, dek, wrapped_row, countdown}
use grafted_keys.Web.Server.{Library, Request, Server, Schedule, Method, method_get, method_post}

abbrev pub config : Config
config = record {
  addr = codes ":8080";
  data_dir = codes "/data";
  backup_dir = codes "/backups";
  backup_at = [];
  backup_keep = pos 14;
  session_idle = pos (30 * minute);
  session_max = pos (60 * minute);
  secure_cookie = true;
  trust_proxy = false;
  hsts = false;
  argon = argon;
}

-- The encoding puts a letter in front of the bytes.
abbrev pub library : Library
library = record {
  base64 = λ b. b't' ∷ b;
  split_host = λ t. some t;
  origin_host = λ t. some t;
  trim_space = λ t. t;
  to_upper = λ t. t;
  to_lower = λ t. t;
  equal_fold = same;
  rune_count = λ t. length t;
  is_clock_time = λ t. true;
  atoi = λ t. some (pos 7);
  itoa = λ n. n ∷ [];
  parse_duration = λ t. some (pos minute);
  duration_string = λ n. n ∷ [];
}

abbrev pub waiting : Session
waiting = record {
  id = codes "w";
  dek = none;
  csrf = codes "cw";
  pending = false;
  created = 800_000_000_000;
  last_seen = 800_000_000_000;
}

abbrev pub mine : Session
mine = record waiting { id = codes "m"; dek = some 0; csrf = codes "cm" }

abbrev pub other : Session
other = record waiting { id = codes "o"; dek = some 1; csrf = codes "co" }

abbrev pub server : Server
server = record {
  db = record empty_db { vault = some wrapped_row };
  faults = [];
  entropy = countdown 128;
  clock = 900_000_000_000;
  sessions = record {
    m = (codes "w", waiting) ∷ (codes "m", mine) ∷ (codes "o", other) ∷ [];
    idle = 30 * minute;
    max = 60 * minute;
    mem = dek ∷ dek ∷ [];
  };
  limiter = new_limiter;
  schedule = record { at = []; keep = 14 };
  disk = record { backups = []; data_files = []; io_faults = [] };
  restarting = false;
}

-- A form that is posted with the cookie and the token of a session.
abbrev pub posted : Session → List (Text × Text) → Request
posted sess form = record {
  method = method_post;
  host = codes "vault";
  remote_addr = codes "10.0.0.9";
  path_id = [];
  origin = [];
  csrf_header = sess.csrf;
  forwarded_for = [];
  hx_request = [];
  cookies = (codes "__Host-gs_session", sess.id) ∷ [];
  form = form;
}
