-- ===== src/Web/Settings/Throttling.antt =====
-- What a locked-out address gets from the handlers of internal/web that look at a secret.
use grafted_keys.Prelude.{
  ℕ, ◌≡◌, ◌∙◌, refl, false, not, ◌||◌, some, Text, Dict, inl, inr, Bool-cases,
}
use grafted_keys.Exec.{Exec}
use grafted_keys.Auth.Sessions.{Session, is_some}
use grafted_keys.Auth.Limiter.{allowed}
use grafted_keys.Crypto.{Primitives}
use grafted_keys.Web.Server.{Config, Library, Request, Server, Response, session_key, world_of}
use grafted_keys.Web.Settings.Rendering.{render_settings_keeps, Quiet-totp_enabled}
use grafted_keys.Web.Login.{address, post_unlock, post_unlock_totp, preauth}
use grafted_keys.Web.Settings.{passphrase_post, rekey_post, show_limited}

-- The requests by which a passphrase or a code can be tried.
pub data TryRoute : Type 0 where
  tries_passphrase tries_code tries_change tries_rekey : TryRoute

module _ (cfg : Config) (lib : Library) (p : Primitives) where
  unfoldable pub try_handler : TryRoute → Request → Session → Exec Server Response
  unfolding post_unlock post_unlock_totp passphrase_post rekey_post
  try_handler tries_passphrase r sess s = post_unlock cfg lib p r (some sess) s
  try_handler tries_code r sess s = post_unlock_totp cfg lib p r (some sess) s
  try_handler tries_change r sess s = passphrase_post cfg lib p r sess (session_key sess s) s
  try_handler tries_rekey r sess s = rekey_post cfg lib p r sess (session_key sess s) s

  -- The parts of the server that a handler could change.
  abbrev Untouched : Server → Server → Type 0
  Untouched s t = (t.db ≡ s.db) × (t.sessions ≡ s.sessions) × (t.limiter ≡ s.limiter)

  show_limited-Untouched :
      (sess : Session) (wait : ℕ) (s : Server) → Untouched s (show_limited sess wait s).1
  show_limited-Untouched sess wait s =
      render_settings_keeps (Untouched s)
        (λ t (d, m, l). (Quiet-totp_enabled.at (world_of t) ∙ d, m, l)) _ _ _ _ _ s
        (refl, refl, refl)

  -- Whoever is locked out learns nothing and changes nothing by a try: the answer and the state after
  -- it are the same for every passphrase and every code that the form may hold, and the database, the
  -- sessions and the count of failures stay as they were.
  pub locked_out_blind :
      (route : TryRoute) (r : Request) (sess : Session) (s : Server) (form : Dict Text)
      → allowed s.limiter (address cfg lib r) s.clock ≡ false
      → (try_handler route (record r { form = form }) sess s ≡ try_handler route r sess s)
        × Untouched s (try_handler route r sess s).1
  unfolding try_handler preauth
  locked_out_blind tries_passphrase r sess s form h = (rw h refl, rw h (refl, refl, refl))
  locked_out_blind tries_code r sess s form h =
      elim (Bool-cases (not (is_some sess.dek) || not sess.pending)) [
        | inl e ↦ (rw e refl, rw e (refl, refl, refl))
        | inr e ↦ (rw (e, h) refl, rw (e, h) (refl, refl, refl))
      ]
  locked_out_blind tries_change r sess s form h =
      (rw h refl, rw h (show_limited-Untouched sess _ s))
  locked_out_blind tries_rekey r sess s form h = (rw h refl, rw h (show_limited-Untouched sess _ s))
