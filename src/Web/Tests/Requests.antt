-- ===== src/Web/Tests/Requests.antt =====
-- Requests to the server.
use grafted_keys.Prelude.{
  ap, sym, ◌∙◌, ◌≡◌, ◌⊎◌, refl, inl, inr, true, false, some, [], ◌∷◌, Text, Bytes, codes, take,
  text_dec, arith, lookup, insert, erase, get_elem?,
}
use mathlib.Core.Path.{subst}
use grafted_keys.Exec.{ok}
use grafted_keys.Auth.Sessions.{Session, unlocked, get, evict, expired}
use grafted_keys.Auth.Limiter.{allowed, reset, new_limiter}
use grafted_keys.Crypto.{const_equal, open_blob}
use grafted_keys.Vault.Lifecycle.{unlock, rekey}
use grafted_keys.Vault.Lifecycle.Unlocking.{Wraps}
use grafted_keys.Vault.Tests.{toy, toy-IsLawful, dek, empty_db, wrapped_row, password}
use grafted_keys.Web.Server.{
  Server, Request, respond, error_text, redirect, set_cookie, session_key, on_limiter,
}
use grafted_keys.Web.Middleware.{serve, need_dek, cookie_name}
use grafted_keys.Web.Login.{post_unlock, replace_session}
use grafted_keys.Vault.Factor.{totp_enabled}
use grafted_keys.Web.Login.Admission.{Credential, login_handler, unlock_post}
use grafted_keys.Web.Login.Opening.{login_serves, login_fails_open}
use grafted_keys.Web.Serving.{Carries, serve_admits, serve_refuses, session_of, entered}
use grafted_keys.Web.Settings.{totp_disable, rekey_post}
use grafted_keys.Web.Settings.Throttling.{locked_out_blind, try_handler, tries_change}
use grafted_keys.Web.Settings.Rotation.{HoldsKey, rekey_leaves_sessions}
use grafted_keys.Web.Tests.{config, library, waiting, mine, other, server, posted}

abbrev login : Request
login = posted waiting ((codes "passphrase", password) ∷ [])

-- The key that a rotation draws.
abbrev drawn_key : Bytes
drawn_key = take 32 server.entropy

-- The identifier that the login draws.
abbrev drawn : Text
drawn = library.base64 (take 32 server.entropy)

serve_admits_example :
    (unlocked (lookup drawn server.sessions.m) ≡ true)
    ⊎ Credential config library toy unlock_post login
        (session_of config login server)
        (entered config login server)
unfolding serve login_handler unlocked lookup text_dec const_equal post_unlock expired allowed
    new_limiter unlock totp_enabled replace_session insert erase redirect reset on_limiter evict
serve_admits_example = serve_admits config library toy unlock_post login server drawn refl refl

-- Another site has the browser send its cookie, but does not know the token.
abbrev forged : Request
forged = record (posted mine []) { csrf_header = codes "guess" }

not_carried : ¬ Carries config forged server
unfolding lookup text_dec cookie_name
not_carried c =
    let named : codes "m" ≡ c.id = let e = c.named in cc in
    let here : some mine ≡ some c.sess =
      subst (λ id. lookup id server.sessions.m ≡ some c.sess) (sym named) c.stored in
    let mine_one : mine ≡ c.sess = cc in
    elim c.token [
      | inl (n, e) ↦
          let token : codes "guess" ≡ codes "cm" = e ∙ sym (ap (λ x. x.csrf) mine_one) in cc
      | inr (e, k) ↦ cc
    ]

serve_refuses_example :
    (text : Text) × (serve config library (need_dek (totp_disable config library toy)) forged server
      ≡ (ok (respond 403 [] (error_text text)), entered config forged server))
serve_refuses_example =
    serve_refuses config library (need_dek (totp_disable config library toy)) forged server
      (inl refl) not_carried

abbrev locked : Server
locked = record server {
  limiter = record new_limiter {
    global = record { fails = 20; first = 1; until = 1_000_000_000_000 };
  };
}

locked_out_blind_example :
    (try_handler config library toy tries_change (record login { form = [] }) mine locked
      ≡ try_handler config library toy tries_change login mine locked)
    × (((try_handler config library toy tries_change login mine locked).1.db ≡ locked.db)
        × ((try_handler config library toy tries_change login mine locked).1.sessions
            ≡ locked.sessions)
        × ((try_handler config library toy tries_change login mine locked).1.limiter
            ≡ locked.limiter))
unfolding allowed new_limiter
locked_out_blind_example =
    locked_out_blind config library toy tries_change login mine locked [] refl

login_serves_example :
    (id : Text) × (u : Server) × (post_unlock config library toy login (some waiting) server
      ≡ (ok (redirect login (set_cookie id ∷ []) (codes "/")), u))
    × ((full : Session) × ((get u.sessions id 901_000_000_000).1 ≡ some full)
        × (unlocked (some full) ≡ true)
        × (session_key full (record u { sessions = (get u.sessions id 901_000_000_000).0 }) ≡ dek))
unfolding allowed new_limiter open_blob lookup text_dec
login_serves_example =
    login_serves config library toy login waiting dek server wrapped_row 901_000_000_000 refl refl
      (omega arith) refl refl (refl, refl) (λ e n q. cc) (omega arith) (omega arith)

-- The driver fails the second statement.
abbrev shaky : Server
shaky = record server {
  faults = false ∷ true ∷ [];
  db = record empty_db { vault = some (record wrapped_row { totp_enc = some (1 ∷ []) }) };
}

login_fails_open_example :
    (full : Session) × (u : Server) × (post_unlock config library toy login (some waiting) shaky
      ≡ (ok (redirect login (set_cookie full.id ∷ []) (codes "/")), u))
    × (lookup full.id u.sessions.m ≡ some full)
    × (unlocked (some full) ≡ true)
unfolding allowed new_limiter open_blob lookup text_dec
login_fails_open_example =
    login_fails_open config library toy login waiting dek shaky
      (record wrapped_row { totp_enc = some (1 ∷ []) }) refl refl refl refl (refl, refl)

abbrev rotation : Request
rotation = posted mine ((codes "passphrase", password) ∷ [])

rekey_leaves_sessions_example :
    let t = (rekey_post config library toy rotation mine dek server).1 in
    HoldsKey mine.id drawn_key t.sessions
    × (lookup (codes "o") t.sessions.m ≡ some other)
    × (get_elem? t.sessions.mem 1 ≡ some dek)
    × Wraps toy password drawn_key t.db
unfolding allowed new_limiter rekey lookup text_dec
rekey_leaves_sessions_example =
    rekey_leaves_sessions config library toy toy-IsLawful rotation mine other (codes "o") dek
      drawn_key dek 1 server refl refl refl refl (λ e. ground arith) refl (λ e. ground arith)
