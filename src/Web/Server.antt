-- ===== src/Web/Server.antt =====
-- internal/web/server.go: the state of the server, requests and responses. A request is handled at
-- one moment and no other request runs meanwhile; a handler writes its response at its end.
pub mod Outcome
use grafted_keys.Prelude.{
  ℕ, ◌+◌, ◌-◌, ◌*◌, ◌/◌, Bool, true, false, Option, none, some, List, [], ◌∷◌, if◌then◌else◌, ltb,
  ℤ, Bytes, Text, codes, Dict, lookup, same, get_elem?,
}
use grafted_keys.Exec.{Error, Exec, Result, ok, err, panicked, pure, ◌>>=◌}
use grafted_keys.Store.Schema.{World, Db}
use grafted_keys.Backup.{Disk, Host}
use grafted_keys.Crypto.{rand_bytes}
use grafted_keys.Auth.Sessions.{Session, Sessions, new, delete}
use grafted_keys.Auth.Limiter.{Limiter}
use grafted_keys.Vault.Items.{Project, Environment, Folder}
use grafted_keys.Vault.Secrets.{SecretMeta, AttachmentMeta}
use grafted_keys.Vault.Search.{TreeEnv, SearchHit}
pub use grafted_keys.Config.{Config}

-- Functions of Go's library: `base64.RawURLEncoding.EncodeToString`, the host of
-- `net.SplitHostPort`, the host of `url.Parse`, `strings.TrimSpace`, `strings.ToUpper`, `ToLower` and `EqualFold`, the number of runes, whether
-- `time.Parse("15:04", …)` succeeds, `strconv.Atoi` and `Itoa`, and `time.ParseDuration` and its
-- inverse, in nanoseconds.
pub record Library : Type 0 where
  pub base64 : Bytes → Text
  pub split_host : Text → Option Text
  pub origin_host : Text → Option Text
  pub trim_space : Text → Text
  pub to_upper : Text → Text
  pub to_lower : Text → Text
  pub equal_fold : Text → Text → Bool
  pub rune_count : Text → ℕ
  pub is_clock_time : Text → Bool
  pub atoi : Text → Option ℤ
  pub itoa : ℕ → Text
  pub parse_duration : Text → Option ℤ
  pub duration_string : ℕ → Text

pub data Method : Type 0 where
  method_get method_head method_options method_post method_delete : Method

-- A header that is absent is "". The form is what `FormValue` finds.
pub record Request : Type 0 where
  pub method : Method
  pub host : Text
  pub remote_addr : Text
  pub path_id : Text
  pub origin : Text
  pub csrf_header : Text
  pub forwarded_for : Text
  pub hx_request : Text
  pub cookies : Dict Text
  pub form : Dict Text

abbrev pub text_or_empty : Option Text → Text
text_or_empty none = []
text_or_empty (some v) = v

-- `r.FormValue(name)`
abbrev pub form_value : Request → Text → Text
form_value r name = text_or_empty (lookup name r.form)

-- The live schedule of internal/backup/backup.go: "HH:MM" or "", and the retention.
pub record Schedule : Type 0 where
  pub at : Text
  pub keep : ℕ

-- The database, the answers of the outside world, the time in nanoseconds, and what the process
-- holds in memory; the files, and whether a restart was asked for.
pub record Server : Type 0 where
  pub db : Db
  pub faults : List Bool
  pub entropy : Bytes
  pub clock : ℕ
  pub sessions : Sessions
  pub limiter : Limiter
  pub schedule : Schedule
  pub disk : Disk
  pub restarting : Bool

-- The settings page, with the durations in nanoseconds and without the list of backups.
pub record SettingsView : Type 0 where
  pub csrf : Text
  pub totp_enabled : Bool
  pub message : Text
  pub error : Text
  pub backup_at : Text
  pub backup_keep : ℕ
  pub session_idle : ℕ
  pub session_max : ℕ

-- The form of the dialog that creates or renames.
pub record NameForm : Type 0 where
  pub title : Text
  pub action : Text
  pub target : Text
  pub swap : Text
  pub name : Text
  pub parent_field : Text
  pub parent_id : Text

pub record SecretForm : Type 0 where
  pub action : Text
  pub target : Text
  pub swap : Text
  pub parent_field : Text
  pub parent_id : Text
  pub id : Text
  pub name : Text
  pub value : Text
  pub notes : Text

pub record SecretDetail : Type 0 where
  pub id : Text
  pub name : Text
  pub has_notes : Bool
  pub notes : Text
  pub attachments : List AttachmentMeta

pub record ImportForm : Type 0 where
  pub action : Text
  pub target : Text
  pub parent_field : Text
  pub parent_id : Text
  pub hint : Text

-- The views of the content, named after their templates; the counts on a card are left out.
pub data Fragment : Type 0 where
  home_cards : List Project → Fragment
  project_tree : Project → List TreeEnv → Fragment
  search_results : Text → List SearchHit → Fragment
  name_form : NameForm → Fragment
  node_name : Text → Text → Text → Fragment
  env_node : Environment → Fragment
  folder_node : Folder → Fragment
  secret_form : SecretForm → Fragment
  secret_node : SecretMeta → Fragment
  secret_nodes : List SecretMeta → Fragment
  import_form : ImportForm → Fragment
  secret_detail : SecretDetail → Fragment
  notes_full : Text → Text → Fragment
  secret_value_control : Text → Option Text → Fragment
  notes_preview : Text → Fragment
  attach_form : Text → ℕ → Fragment
  attach_list : Text → List AttachmentMeta → Fragment
  totp_enroll : Text → Text → Fragment

-- The pages and fragments that the handlers render, with the text that the view carries.
pub data Body : Type 0 where
  auth_page : Text → Text → Text → Text → Body
  settings_page : SettingsView → Body
  fragment : Fragment → Body
  download : Text → Bytes → Body
  restore_wait : Text → Text → Body
  redirect_to hx_redirect : Text → Body
  error_text raw : Text → Body
  empty : Body

-- `set_cookie id`, or the removal of the cookie.
pub data Cookie : Type 0 where
  set_cookie : Text → Cookie
  clear_cookie : Cookie

pub record Response : Type 0 where
  pub status : ℕ
  pub retry_after : Option ℕ
  pub set : List Cookie
  pub body : Body

abbrev pub respond : ℕ → List Cookie → Body → Response
respond status set body = record { status = status; retry_after = none; set = set; body = body }

abbrev pub second : ℕ
second = 1_000_000_000

-- What an operation of the vault sees.
abbrev pub world_of : Server → World
world_of s = record { db = s.db; now = s.clock / second; faults = s.faults; entropy = s.entropy }

abbrev pub after_world : Server → World → Server
after_world s w = record s { db = w.db; faults = w.faults; entropy = w.entropy }

abbrev pub in_world : {A : Type 0} → Exec World A → Exec Server A
in_world m s = ((m (world_of s)).0, after_world s (m (world_of s)).1)

-- A call whose error the handler looks at; a panic is no error.
abbrev pub returned_error : {A : Type 0} → Error → Result (Result A)
returned_error panicked = err panicked
returned_error e = ok (err e)

abbrev pub returned : {A : Type 0} → Result A → Result (Result A)
returned (ok a) = ok (ok a)
returned (err e) = returned_error e

unfoldable pub attempt : {A : Type 0} → Exec World A → Exec Server (Result A)
attempt m s = (returned (m (world_of s)).0, after_world s (m (world_of s)).1)

-- A call of the backup scheduler, and one of package os.
abbrev pub host_of : Server → Host
host_of s = record { world = world_of s; disk = s.disk }

abbrev pub after_host : Server → Host → Server
after_host s h = record (after_world s h.world) { disk = h.disk }

unfoldable pub attempt_host : {A : Type 0} → Exec Host A → Exec Server (Result A)
attempt_host m s = (returned (m (host_of s)).0, after_host s (m (host_of s)).1)

unfoldable pub attempt_disk : {A : Type 0} → Exec Disk A → Exec Server (Result A)
attempt_disk m s = (returned (m s.disk).0, record s { disk = (m s.disk).1 })

-- `base64.RawURLEncoding.EncodeToString(b)`, or the panic when the random source failed.
abbrev encoded : Library → Result Bytes → Result Text
encoded lib (ok b) = ok (lib.base64 b)
encoded lib (err e) = err panicked

-- `token`
unfoldable pub token : Library → Exec Server Text
unfolding rand_bytes
token lib s = (encoded lib (in_world (rand_bytes 32) s).0, (in_world (rand_bytes 32) s).1)

-- A call of a method of the sessions.
abbrev pub on_sessions : {A : Type 0} → (Sessions → ℕ → Sessions × A) → Exec Server A
on_sessions f s = (ok (f s.sessions s.clock).1, record s { sessions = (f s.sessions s.clock).0 })

-- `Sessions.New`
unfoldable pub new_session : Library → Option Bytes → Bool → Exec Server Session
unfolding token new
new_session lib dek pending = do
  id ← token lib
  csrf ← token lib
  on_sessions λ m now. new m dek pending id csrf now

-- `Sessions.Delete`
unfoldable pub delete_session : Text → Exec Server (Unit {0})
unfolding delete
delete_session id = on_sessions λ m now. (delete m id, tt)

-- A call of a method of the limiter.
unfoldable pub on_limiter : (Limiter → ℕ → Limiter) → Exec Server (Unit {0})
on_limiter f s = (ok tt, record s { limiter = f s.limiter s.clock })

-- `theme` and the rest of the chrome are left out of a page; the token is `sess.CSRF`.
abbrev pub is_htmx : Request → Bool
is_htmx r = same r.hx_request (codes "true")

unfoldable pub redirect : Request → List Cookie → Text → Response
redirect r set dest =
    if is_htmx r then respond 200 set (hx_redirect dest) else respond 303 set (redirect_to dest)

-- `http.Redirect` with `StatusSeeOther`
abbrev pub see_other : List Cookie → Text → Response
see_other set dest = respond 303 set (redirect_to dest)

-- The content of a key buffer.
abbrev pub buffer : List Bytes → Option ℕ → Bytes
buffer mem none = []
buffer mem (some a) = elim (get_elem? mem a) [ none ↦ [] | some b ↦ b ]

-- `sess.DEK`
abbrev pub session_key : Session → Server → Bytes
session_key sess s = buffer s.sessions.mem sess.dek
