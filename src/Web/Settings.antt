-- ===== src/Web/Settings.antt =====
-- internal/web/handlers_settings.go: the passphrase, the data key, the second factor, the backup
-- schedule and the timeouts. The operations on backup files are not modelled.
pub mod Rendering
pub mod Throttling
pub mod Rotation
use grafted_keys.Prelude.{
  ℕ, ◌++◌, Bool, true, false, not, Option, none, some, List, [], ◌∷◌, if◌then◌else◌, ltb, length,
  take, drop, ◌-◌, Text, Bytes, codes, same, positive,
}
use grafted_keys.Exec.{Exec, Result, ok, err, pure, ◌>>=◌, ◌>>◌}
use grafted_keys.Store.Transaction.{set_settings}
use grafted_keys.Auth.Sessions.{Session, set_dek, set_timeouts, timeouts}
use grafted_keys.Auth.Limiter.{allowed, retry_after}
use grafted_keys.Crypto.{Primitives}
use grafted_keys.Vault.Lifecycle.{unlock, change_passphrase, rekey}
use grafted_keys.Vault.Factor.{totp_enabled, confirm_totp, disable_totp}
use grafted_keys.Web.Server.{
  Config, Library, Request, form_value, Server, Schedule, Response, respond, settings_page, attempt,
  on_sessions,
}
use grafted_keys.Web.Middleware.{Gated, http_error, is_true}
use grafted_keys.Web.Login.{
  address, throttled, count_failure, forget_failures, retry_after_secs, too_many, min_passphrase,
}

-- `strings.TrimSuffix`
unfoldable pub trim_suffix : Text → Text → Text
trim_suffix t suffix =
    if same (drop (length t - length suffix) t) suffix then take (length t - length suffix) t else t

abbrev trim_zero : Text → Text → Text → Text
trim_zero t tail zero_unit =
    if same (drop (length t - length tail) t) tail then trim_suffix t zero_unit else t

-- `shortDur`, of a duration as Go prints it.
unfoldable pub short_dur : Text → Text
unfolding trim_suffix
short_dur t = trim_zero (trim_zero t (codes "m0s") (codes "0s")) (codes "h0m") (codes "0m")

abbrev settings_body : ℕ → Option ℕ → Session → Text → Text → Result Bool → Server → Response
settings_body status wait sess msg error enabled s = record {
  status = status;
  retry_after = wait;
  set = [];
  body = settings_page (record {
    csrf = sess.csrf;
    totp_enabled = is_true enabled;
    message = msg;
    error = error;
    backup_at = s.schedule.at;
    backup_keep = s.schedule.keep;
    session_idle = (timeouts s.sessions).0;
    session_max = (timeouts s.sessions).1;
  });
}

-- `renderSettings`, after the status that the handler may have written.
unfoldable pub render_settings : ℕ → Option ℕ → Session → Text → Text → Exec Server Response
unfolding attempt totp_enabled
render_settings status wait sess msg error = do
  enabled ← attempt totp_enabled
  λ s. (ok (settings_body status wait sess msg error enabled s), s)

abbrev pub show_message : Session → Text → Exec Server Response
show_message sess msg = render_settings 200 none sess msg []

abbrev pub show_error : Session → Text → Exec Server Response
show_error sess error = render_settings 200 none sess [] error

abbrev pub show_limited : Session → ℕ → Exec Server Response
show_limited sess wait = render_settings 429 (some (retry_after_secs wait)) sess [] too_many

abbrev pub fail_response : Response
fail_response = http_error 500 (codes "error")

-- `Scheduler.SetSchedule`, without the nudge of the loop that waits.
unfoldable pub set_schedule : Text → ℕ → Exec Server (Unit {0})
set_schedule at keep s =
    (ok tt, record s { schedule = record { at = at; keep = if ltb keep 1 then 1 else keep } })

module _ (cfg : Config) (lib : Library) (p : Primitives) where
  -- `settings`
  unfoldable pub settings : Gated
  unfolding render_settings
  settings r sess dek = show_message sess []

  abbrev rewrapped : Session → Result (Unit {0}) → Exec Server Response
  rewrapped sess (ok _) = show_message sess (codes "Passphrase changed.")
  rewrapped sess (err e) = show_error sess (codes "Could not change passphrase.")

  abbrev passphrase_checked : Request → Session → Result Bytes → Exec Server Response
  passphrase_checked r sess (ok dek) =
      forget_failures (address cfg lib r)
      >> (attempt (change_passphrase p cfg.argon dek (form_value r (codes "new")))
          >>= rewrapped sess)
  passphrase_checked r sess (err e) =
      count_failure (address cfg lib r)
      >> show_error sess (codes "Current passphrase is incorrect.")

  -- The key that the passphrase yields is wrapped again, not the key of the session.
  unfoldable pub passphrase_post : Gated
  unfolding allowed retry_after render_settings attempt unlock change_passphrase
  passphrase_post r sess dek = throttled (address cfg lib r) (show_limited sess) (
      if ltb (lib.rune_count (form_value r (codes "new"))) min_passphrase
      then show_error sess (codes "New passphrase must be at least 8 characters.")
      else if not (same (form_value r (codes "new")) (form_value r (codes "confirm")))
      then show_error sess (codes "New passphrases do not match.")
      else (attempt (unlock p cfg.argon (form_value r (codes "current")))
          >>= passphrase_checked r sess))

  abbrev pub rekey_done : Request → Session → Result Bytes → Exec Server Response
  rekey_done r sess (ok new_dek) = do
    forget_failures (address cfg lib r)
    on_sessions λ m now. (set_dek m sess.id new_dek, tt)
    show_message sess (codes "Data key rotated; all secrets re-encrypted.")
  rekey_done r sess (err e) =
      count_failure (address cfg lib r)
      >> show_error sess (codes "Re-key failed (check passphrase).")

  unfoldable pub rekey_post : Gated
  unfolding attempt
  rekey_post r sess dek =
      throttled (address cfg lib r) (show_limited sess)
        (attempt (rekey p cfg.argon (form_value r (codes "passphrase"))) >>= rekey_done r sess)

  abbrev confirmed : Session → Result Bool → Exec Server Response
  confirmed sess (ok true) = show_message sess (codes "Two-factor authentication enabled.")
  confirmed sess _ = show_error sess (codes "Code did not verify. Two-factor not enabled.")

  unfoldable pub totp_confirm : Gated
  unfolding render_settings attempt confirm_totp
  totp_confirm r sess dek =
      attempt (
        confirm_totp p dek (form_value r (codes "secret"))
          (lib.trim_space (form_value r (codes "code"))))
      >>= confirmed sess

  abbrev disabled : Session → Result (Unit {0}) → Exec Server Response
  disabled sess (ok _) = show_message sess (codes "Two-factor authentication disabled.")
  disabled sess (err e) = pure fail_response

  unfoldable pub totp_disable : Gated
  unfolding render_settings attempt disable_totp
  totp_disable r sess dek = attempt disable_totp >>= disabled sess

  -- `SetSettings`, and the live change if the settings were stored.
  abbrev stored : Session → Exec Server (Unit {0}) → Text → Result (Unit {0}) → Exec Server Response
  stored sess apply msg (ok _) = apply >> show_message sess msg
  stored sess apply msg (err e) = show_error sess (codes "Could not save settings.")

  abbrev save_schedule : Session → Text → Option ℕ → Exec Server Response
  save_schedule sess at none =
      show_error sess (codes "Retention must be a whole number of at least 1.")
  save_schedule sess at (some keep) =
      attempt (set_settings ((codes "backup_at", at) ∷ (codes "backup_keep", lib.itoa keep) ∷ []))
      >>= stored sess (set_schedule at keep) (codes "Backup settings saved and applied.")

  abbrev keep_value : Request → Option ℕ
  keep_value r = positive (lib.atoi (lib.trim_space (form_value r (codes "keep"))))

  unfoldable pub save_backup_config : Gated
  unfolding render_settings attempt set_settings set_schedule
  save_backup_config r sess dek =
      if same (form_value r (codes "enabled")) []
      then save_schedule sess [] (keep_value r)
      else if lib.is_clock_time (lib.trim_space (form_value r (codes "at")))
      then save_schedule sess (lib.trim_space (form_value r (codes "at"))) (keep_value r)
      else show_error sess (codes "Backup time must be HH:MM (24-hour).")

  abbrev save_timeouts : Session → Option ℕ → Option ℕ → Exec Server Response
  save_timeouts sess none max =
      show_error sess (codes "Idle timeout must be a positive duration like 30m or 2h.")
  save_timeouts sess (some idle) none =
      show_error sess (codes "Max session must be a positive duration like 12h.")
  save_timeouts sess (some idle) (some max) =
      if ltb max idle
      then show_error sess (codes "Max session must be at least the idle timeout.")
      else (attempt (
            set_settings (
              (codes "session_idle", short_dur (lib.duration_string idle))
              ∷ (codes "session_max", short_dur (lib.duration_string max))
              ∷ []))
          >>= stored sess (on_sessions λ m now. (set_timeouts m idle max, tt))
              (codes "Session settings saved and applied."))

  abbrev duration_value : Request → Text → Option ℕ
  duration_value r name = positive (lib.parse_duration (lib.trim_space (form_value r name)))

  unfoldable pub save_session_config : Gated
  unfolding render_settings attempt set_settings set_timeouts short_dur
  save_session_config r sess dek =
      save_timeouts sess (duration_value r (codes "idle")) (duration_value r (codes "max"))
