-- ===== src/Web/Login.antt =====
-- internal/web/handlers_auth.go: setup, unlock, the second factor, and lock. The view of a page is
-- its template, the token, the stage and the error; the clearing of the handlers' copies of a
-- passphrase is not modelled.
pub mod Admitting
pub mod Admission
pub mod Opening
use grafted_keys.Prelude.{
  ℕ, ◌/◌, ◌++◌, Bool, true, false, not, ◌||◌, Option, none, some, List, [], ◌∷◌, if◌then◌else◌, ltb,
  Text, Bytes, codes, same, lookup, erase,
}
use grafted_keys.Exec.{Error, Exec, Result, ok, err, pure, ◌>>=◌, ◌>>◌, already_init, not_init}
use grafted_keys.Store.VaultRow.{vault_initialized}
use grafted_keys.Auth.Address.{client_ip}
use grafted_keys.Auth.Sessions.{Session, unlocked, promote, is_some}
use grafted_keys.Auth.Limiter.{allowed, retry_after, fail, reset}
use grafted_keys.Crypto.{Primitives}
use grafted_keys.Vault.Lifecycle.{setup, unlock}
use grafted_keys.Vault.Factor.{totp_enabled, verify_login_totp}
use grafted_keys.Web.Server.{
  Config, Library, Request, form_value, Server, Cookie, set_cookie, clear_cookie, Response, respond,
  auth_page, attempt, token, new_session, delete_session, on_sessions, on_limiter, redirect,
  see_other, session_key, second,
}
use grafted_keys.Web.Middleware.{Handler, is_true}

-- `retryAfterSecs`
unfoldable pub retry_after_secs : ℕ → ℕ
retry_after_secs d = if ltb (d / second) 1 then 1 else d / second

abbrev pub min_passphrase : ℕ
min_passphrase = 8

abbrev pub address : Config → Library → Request → Text
address cfg lib r =
    client_ip lib.trim_space lib.split_host cfg.trust_proxy r.forwarded_for r.remote_addr

-- The session of the request, or a new one with its cookie.
unfoldable pub preauth : Library → Option Session → Exec Server (Session × List Cookie)
unfolding new_session
preauth lib none = do sess ← new_session lib none false; pure (sess, set_cookie sess.id ∷ [])
preauth lib (some sess) = pure (sess, [])

abbrev pub setup_page : List Cookie → Session → Text → Response
setup_page set sess msg = respond 200 set (auth_page (codes "setup") sess.csrf [] msg)

abbrev pub unlock_page : ℕ → List Cookie → Session → Text → Text → Response
unlock_page status set sess stage msg =
    respond status set (auth_page (codes "unlock") sess.csrf stage msg)

abbrev pub passphrase : Text
passphrase = codes "passphrase"

abbrev pub totp : Text
totp = codes "totp"

abbrev pub too_many : Text
too_many = codes "Too many attempts. Try again later."

-- `Retry-After`, on the page of the stage.
abbrev pub limited : List Cookie → Session → Text → ℕ → Response
limited set sess stage wait = record (unlock_page 429 set sess stage too_many) {
  retry_after = some (retry_after_secs wait);
}

-- What a request of the address meets: `Allowed`, and the refusal with `RetryAfter`.
abbrev pub throttled :
    Text → (ℕ → Exec Server Response) → Exec Server Response → Exec Server Response
throttled ip refuse next s =
    if allowed s.limiter ip s.clock then next s else refuse (retry_after s.limiter ip s.clock) s

abbrev pub count_failure : Text → Exec Server (Unit {0})
count_failure ip = on_limiter λ l now. fail l ip now

abbrev pub forget_failures : Text → Exec Server (Unit {0})
forget_failures ip = on_limiter λ l now. reset l ip

-- The session is replaced by a new one with the key.
unfoldable pub replace_session : Library → Text → Bytes → Bool → Exec Server Session
unfolding delete_session new_session
replace_session lib id dek pending = delete_session id >> new_session lib (some dek) pending

module _ (cfg : Config) (lib : Library) (p : Primitives) where
  unfoldable pub get_setup : Handler
  unfolding attempt vault_initialized preauth
  get_setup r sess = do
    init ← attempt vault_initialized
    if is_true init
        then pure (see_other [] (codes "/unlock"))
        else do (pre, set) ← preauth lib sess; pure (setup_page set pre [])

  -- The message of an error of the vault, which follows a fixed text, is left out.
  abbrev pub setup_done : Request → Session → List Cookie → Result Bytes → Exec Server Response
  setup_done r pre set (ok dek) = do
    full ← replace_session lib pre.id dek false
    pure (redirect r (set ++ set_cookie full.id ∷ []) (codes "/"))
  setup_done r pre set (err already_init) = pure (see_other set (codes "/unlock"))
  setup_done r pre set (err e) = pure (setup_page set pre (codes "Could not initialize vault: "))

  unfoldable pub post_setup : Handler
  unfolding preauth attempt setup replace_session redirect
  post_setup r sess = do
    (pre, set) ← preauth lib sess
    let pass = form_value r (codes "passphrase")
    if ltb (lib.rune_count pass) min_passphrase
        then pure (setup_page set pre (codes "Passphrase must be at least 8 characters."))
        else if not (same pass (form_value r (codes "confirm")))
        then pure (setup_page set pre (codes "Passphrases do not match."))
        else (attempt (setup p cfg.argon pass) >>= setup_done r pre set)

  unfoldable pub get_unlock : Handler
  unfolding attempt vault_initialized preauth unlocked
  get_unlock r sess = do
    init ← attempt vault_initialized
    if not (is_true init)
        then pure (see_other [] (codes "/setup"))
        else if unlocked sess
        then pure (see_other [] (codes "/"))
        else do (pre, set) ← preauth lib sess; pure (unlock_page 200 set pre passphrase [])

  -- The key is held in a pending session until the second factor is given.
  abbrev pub hold : Session → List Cookie → Bytes → Exec Server Response
  hold pre set dek = do
    pending ← replace_session lib pre.id dek true
    pure (unlock_page 200 (set ++ set_cookie pending.id ∷ []) pending totp [])

  abbrev pub admit : Request → Session → List Cookie → Bytes → Exec Server Response
  admit r pre set dek = do
    forget_failures (address cfg lib r)
    full ← replace_session lib pre.id dek false
    pure (redirect r (set ++ set_cookie full.id ∷ []) (codes "/"))

  abbrev pub unlock_done : Request → Session → List Cookie → Result Bytes → Exec Server Response
  unlock_done r pre set (ok dek) = do
    enabled ← attempt totp_enabled
    if is_true enabled then hold pre set dek else admit r pre set dek
  unlock_done r pre set (err not_init) = pure (see_other set (codes "/setup"))
  unlock_done r pre set (err e) =
      count_failure (address cfg lib r)
      >> pure (unlock_page 200 set pre passphrase (codes "Incorrect passphrase."))

  unfoldable pub post_unlock : Handler
  unfolding preauth attempt
  post_unlock r sess = do
    (pre, set) ← preauth lib sess
    throttled (address cfg lib r) (λ wait. pure (limited set pre passphrase wait))
        (attempt (unlock p cfg.argon (form_value r (codes "passphrase"))) >>= unlock_done r pre set)

  abbrev promoted_session : Request → Option Session → Response
  promoted_session r none = see_other [] (codes "/unlock")
  promoted_session r (some full) = redirect r (set_cookie full.id ∷ []) (codes "/")

  abbrev rotate : Text → Exec Server (Option Session)
  rotate id = do
    new_id ← token lib
    csrf ← token lib
    on_sessions λ m now. promote m id new_id csrf now

  -- `Promote` takes the session off the map before it draws the new tokens, so that a panic loses it.
  abbrev lost : Text → Result (Option Session) × Server → Result (Option Session) × Server
  lost id (ok a, s) = (ok a, s)
  lost id (err e, s) =
      (err e, record s { sessions = record s.sessions { m = erase id s.sessions.m } })

  unfoldable pub promote_session : Text → Exec Server (Option Session)
  unfolding token promote
  promote_session id s =
      if is_some (lookup id s.sessions.m) then lost id (rotate id s) else (ok none, s)

  abbrev pub totp_done : Request → Session → Result Bool → Exec Server Response
  totp_done r sess (ok true) = do
    forget_failures (address cfg lib r)
    full ← promote_session sess.id
    pure (promoted_session r full)
  totp_done r sess _ =
      count_failure (address cfg lib r)
      >> pure (unlock_page 200 [] sess totp (codes "Incorrect code."))

  abbrev pub give_code : Request → Session → Exec Server Response
  give_code r sess s =
      throttled (address cfg lib r) (λ wait. pure (limited [] sess totp wait))
        (attempt (
            verify_login_totp p (session_key sess s) (lib.trim_space (form_value r (codes "code"))))
          >>= totp_done r sess)
        s

  unfoldable pub post_unlock_totp : Handler
  unfolding allowed attempt verify_login_totp promote_session redirect
  post_unlock_totp r none = pure (see_other [] (codes "/unlock"))
  post_unlock_totp r (some sess) =
      if not (is_some sess.dek) || not sess.pending
      then pure (see_other [] (codes "/unlock"))
      else give_code r sess

  unfoldable pub post_lock : Handler
  unfolding delete_session redirect
  post_lock r none = pure (redirect r (clear_cookie ∷ []) (codes "/unlock"))
  post_lock r (some sess) =
      delete_session sess.id >> pure (redirect r (clear_cookie ∷ []) (codes "/unlock"))
