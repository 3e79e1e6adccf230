-- ===== src/Web/Middleware.antt =====
-- internal/web/server.go: the middleware that every request passes.
use grafted_keys.Prelude.{
  ℕ, Bool, true, false, not, Option, none, some, [], if◌then◌else◌, Text, Bytes, codes, lookup,
  same,
}
use grafted_keys.Exec.{Exec, Result, ok, err, pure, ◌>>=◌}
use grafted_keys.Store.VaultRow.{vault_initialized}
use grafted_keys.Crypto.{const_equal}
use grafted_keys.Auth.Sessions.{Session, get, unlocked}
use grafted_keys.Web.Server.{
  Config, Library, Method, method_get, method_head, method_options, method_post, method_delete,
  Request, form_value, Server, Response, respond, error_text, attempt, on_sessions, redirect,
  session_key,
}

-- A handler, with the session that the middleware put into the context.
abbrev pub Handler : Type 0
Handler = Request → Option Session → Exec Server Response

-- A handler behind `needDEK`, with the session and its key.
abbrev pub Gated : Type 0
Gated = Request → Session → Bytes → Exec Server Response

unfoldable pub cookie_name : Config → Text
cookie_name cfg = if cfg.secure_cookie then codes "__Host-gs_session" else codes "gs_session"

-- `http.Error`
abbrev pub http_error : ℕ → Text → Response
http_error status text = respond status [] (error_text text)

-- A cookie that is not there leaves the sessions alone.
unfoldable pub from_cookie : Option Text → Exec Server (Option Session)
unfolding get
from_cookie none = pure none
from_cookie (some id) = on_sessions λ m now. get m id now

unfoldable pub session_mw : Config → Handler → Request → Exec Server Response
unfolding from_cookie cookie_name
session_mw cfg next r = do sess ← from_cookie (lookup (cookie_name cfg) r.cookies); next r sess

abbrev pub is_read : Method → Bool
is_read method_get = true
is_read method_head = true
is_read method_options = true
is_read method_post = false
is_read method_delete = false

abbrev is_host : Text → Option Text → Bool
is_host host none = false
is_host host (some h) = same h host

-- An origin that is absent, opaque, or of this host.
unfoldable pub same_origin : Library → Request → Bool
same_origin lib r =
    if same r.origin []
    then true
    else if same r.origin (codes "null")
    then true
    else is_host r.host (lib.origin_host r.origin)

-- The token of the request: the header, or the field of a plain form.
unfoldable pub csrf_token : Request → Text
csrf_token r = if same r.csrf_header [] then form_value r (codes "_csrf") else r.csrf_header

unfoldable pub holds_token : Request → Option Session → Bool
unfolding csrf_token const_equal
holds_token r none = false
holds_token r (some sess) = const_equal sess.csrf (csrf_token r)

unfoldable pub csrf_mw : Library → Handler → Handler
unfolding same_origin holds_token
csrf_mw lib next r sess =
    if is_read r.method
    then next r sess
    else if not (same_origin lib r)
    then pure (http_error 403 (codes "bad origin"))
    else if not (holds_token r sess)
    then pure (http_error 403 (codes "csrf"))
    else next r sess

abbrev pub recovered : Result Response → Result Response
recovered (ok a) = ok a
recovered (err e) = ok (http_error 500 (codes "internal error"))

unfoldable pub recover_mw : Exec Server Response → Exec Server Response
recover_mw m s = (recovered (m s).0, (m s).1)

-- `routes`, for a request that the multiplexer hands to one handler; the headers that
-- `secureHeadersMW` sets are left out.
unfoldable pub serve : Config → Library → Handler → Request → Exec Server Response
unfolding recover_mw session_mw csrf_mw
serve cfg lib next r = recover_mw (session_mw cfg (csrf_mw lib next) r)

-- An error of `Initialized` reads as "not initialized".
abbrev pub is_true : Result Bool → Bool
is_true (ok b) = b
is_true (err e) = false

abbrev pub login_page : Bool → Text
login_page true = codes "/unlock"
login_page false = codes "/setup"

unfoldable pub to_login : Request → Exec Server Response
unfolding attempt vault_initialized redirect
to_login r = do init ← attempt vault_initialized; pure (redirect r [] (login_page (is_true init)))

-- The session of an unlocked vault is there.
abbrev pub gate : Gated → Request → Option Session → Exec Server Response
gate fn r none s = to_login r s
gate fn r (some sess) s = fn r sess (session_key sess s) s

unfoldable pub need_dek : Gated → Handler
unfolding to_login unlocked
need_dek fn r sess = if unlocked sess then gate fn r sess else to_login r
