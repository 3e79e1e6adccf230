-- ===== src/Web/Login/Opening.antt =====
-- That the right passphrase lets in, by `POST /unlock` of internal/web/handlers_auth.go.
use grafted_keys.Prelude.{
  ℕ, ◌≡◌, refl, sym, ap, ◌∙◌, Bool, true, false, Option, some, List, [], ◌∷◌, ◌++◌, Text, Bytes,
  codes, leb, length, take, drop, ◌-◌, ◌≤◌, ◌≢◌, text_dec, if_neg, insert, lookup, lookup-insert,
  arith, same,
}
use grafted_keys.Exec.{Result, ok, err, driver_failed}
use grafted_keys.Store.Schema.{World, Db, VaultRow, query_row, next_fault}
use grafted_keys.Store.VaultRow.{get_vault}
use grafted_keys.Auth.Sessions.{
  Session, Sessions, new, delete, evict, get, expired, touch, unlocked,
}
use grafted_keys.Auth.Sessions.Buffers.{get_elem?-append}
use grafted_keys.Auth.Limiter.{allowed, reset}
use grafted_keys.Crypto.{Primitives, rand_bytes, open_blob, derive_kek}
use grafted_keys.Vault.Aad.{wrap_aad}
use grafted_keys.Vault.Lifecycle.Rotation.{Quiet-unlock}
use mathlib.Core.Path.{subst}
use grafted_keys.Vault.Lifecycle.{Argon, row_params, unlock, vault_row, or_bad_passphrase}
use grafted_keys.Vault.Lifecycle.Unlocking.{unlock-Wraps}
use grafted_keys.Vault.Factor.{totp_enabled, blob_of}
use grafted_keys.Web.Server.{
  Config, Library, Request, form_value, Server, attempt, token, new_session, delete_session,
  world_of, after_world, on_limiter, redirect, returned, buffer, set_cookie, session_key,
}
use grafted_keys.Web.Middleware.{is_true}
use grafted_keys.Web.Login.{address, post_unlock, replace_session, admit, unlock_done}

-- Enough random bytes for the two tokens of a session.
abbrev pub HasTokens : Bytes → Type 0
HasTokens e = (leb 32 (length e) ≡ true) × (leb 32 (length (drop 32 e)) ≡ true)

-- The session that is made of the next random bytes.
abbrev pub made : Library → Sessions → Bytes → ℕ → Bytes → Sessions × Session
made lib m key now e =
    new m (some key) false (lib.base64 (take 32 e)) (lib.base64 (take 32 (drop 32 e))) now

some_bytes : (e : Bytes) → leb 32 (length e) ≡ true → take 32 e ≢ []
some_bytes [] h n = ground (arith, h)
some_bytes (c ∷ e) h n = cc

new_session_lem :
    (lib : Library) (key : Bytes) (s : Server)
    → HasTokens s.entropy
    → new_session lib (some key) false s ≡ (
      ok (made lib s.sessions key s.clock s.entropy).1,
      record s {
        entropy = drop 32 (drop 32 s.entropy);
        sessions = (made lib s.sessions key s.clock s.entropy).0;
      },
    )
unfolding new_session token rand_bytes
new_session_lem lib key s (h, k) = rw (h, k) refl

-- The server when the vault has given the key, and when its second factor has been looked up.
abbrev pub given : Config → Primitives → Text → Server → Server
given cfg p pass s = after_world s (unlock p cfg.argon pass (world_of s)).1

abbrev pub asked : Config → Primitives → Text → Server → Server
asked cfg p pass s = let t = given cfg p pass s in after_world t (totp_enabled (world_of t)).1

-- The answer to whether a second factor is set up.
abbrev pub factor_answer : Config → Primitives → Text → Server → Result Bool
factor_answer cfg p pass s = (totp_enabled (world_of (given cfg p pass s))).0

unlock_entropy :
    (a : Argon) (p : Primitives) (pass : Bytes) (w : World)
    → (unlock p a pass w).1.entropy ≡ w.entropy
unfolding unlock vault_row get_vault query_row
unlock_entropy a p pass w = ground arith

-- Reading the vault row is one statement.
unlock_reads :
    (a : Argon) (p : Primitives) (pass : Bytes) (w : World)
    → (unlock p a pass w).1.faults ≡ (next_fault w.faults).1
unfolding unlock vault_row get_vault query_row
unlock_reads a p pass w = ground arith

unlock_reads_row :
    (p : Primitives) (a : Argon) (pass dek : Bytes) (w : World) (v : VaultRow)
    → w.faults ≡ false ∷ true ∷ []
    → w.db.vault ≡ some v
    → open_blob p (derive_kek p pass (row_params v)) v.wrapped_dek (wrap_aad v.epoch (row_params v))
      ≡ ok dek
    → (unlock p a pass w).0 ≡ ok dek
unfolding unlock vault_row get_vault query_row or_bad_passphrase
unlock_reads_row p a pass dek w v f e o = rw (f, e, o) refl

totp_enabled_entropy : (w : World) → (totp_enabled w).1.entropy ≡ w.entropy
unfolding totp_enabled get_vault query_row
totp_enabled_entropy w = ground arith

totp_enabled_off :
    (w : World) (v : VaultRow)
    → w.faults ≡ []
    → w.db.vault ≡ some v
    → length (blob_of v.totp_enc) ≡ 0
    → (totp_enabled w).0 ≡ ok false
unfolding totp_enabled get_vault query_row
totp_enabled_off w v f e n = ground arith

totp_enabled_failed : (w : World) → w.faults ≡ true ∷ [] → (totp_enabled w).0 ≡ err driver_failed
unfolding totp_enabled get_vault query_row
totp_enabled_failed w f = ground arith

same_ne : (a b : Text) → a ≢ b → same a b ≡ false
same_ne a b ne = elim (text_dec a b) [ yes q ↦ absurd (ne q) | no q ↦ if_neg _ q true false ]

get_live :
    (m : Sessions) (id : Text) (now : ℕ) (one : Session)
    → id ≢ []
    → lookup id m.m ≡ some one
    → expired m one now ≡ false
    → get m id now ≡ (record m { m = insert id (touch now one) m.m }, some (touch now one))
unfolding get
get_live m id now one ne e x = rw (same_ne id [] ne, e, x) refl

buffer_last : (mem : List Bytes) (key : Bytes) → buffer (mem ++ key ∷ []) (some (length mem)) ≡ key
buffer_last mem key = ground (arith, get_elem?-append mem key (length mem))

module _ (cfg : Config) (lib : Library) (p : Primitives) (r : Request) (sess : Session)
    (key : Bytes) where
  -- The server that a login leaves when `t` is the one that looked up the second factor.
  abbrev opened_up : Server → Server
  opened_up t = record t {
    limiter = reset t.limiter (address cfg lib r);
    entropy = drop 32 (drop 32 t.entropy);
    sessions = (made lib (delete t.sessions sess.id) key t.clock t.entropy).0;
  }

  abbrev new_one : Server → Session
  new_one t = (made lib (delete t.sessions sess.id) key t.clock t.entropy).1

  admit_lem :
      (t : Server)
      → HasTokens t.entropy
      → admit cfg lib p r sess [] key t
        ≡ (ok (redirect r (set_cookie (new_one t).id ∷ []) (codes "/")), opened_up t)
  unfolding on_limiter replace_session delete_session
  admit_lem t h =
      rw
        (new_session_lem lib key
          (record t {
            limiter = reset t.limiter (address cfg lib r);
            sessions = delete t.sessions sess.id;
          })
          h)
        refl

  unlock_done_opens :
      (t : Server) (x : Result Bool)
      → (totp_enabled (world_of t)).0 ≡ x
      → is_true x ≡ false
      → returned x ≡ ok x
      → unlock_done cfg lib p r sess [] (ok key) t
        ≡ admit cfg lib p r sess [] key (after_world t (totp_enabled (world_of t)).1)
  unfolding attempt
  unlock_done_opens t x e i j = rw (e, j, i) refl

  -- The right passphrase lets in at once if the second factor is off, or if the reading of it failed.
  post_unlock_opens :
      (s : Server) (x : Result Bool)
      → let pass = form_value r (codes "passphrase") in
        let t = asked cfg p pass s in
        allowed s.limiter (address cfg lib r) s.clock ≡ true
        → (unlock p cfg.argon pass (world_of s)).0 ≡ ok key
        → factor_answer cfg p pass s ≡ x
        → is_true x ≡ false
        → returned x ≡ ok x
        → HasTokens t.entropy
        → post_unlock cfg lib p r (some sess) s
          ≡ (ok (redirect r (set_cookie (new_one t).id ∷ []) (codes "/")), opened_up t)
  unfolding post_unlock
  post_unlock_opens s x a u f i j h =
      rw (a, u) (unlock_done_opens (given cfg p (form_value r (codes "passphrase")) s) x f i j)
      ∙ admit_lem (asked cfg p (form_value r (codes "passphrase")) s) h

  new_one-lookup : (t : Server) → lookup (new_one t).id (opened_up t).sessions.m ≡ some (new_one t)
  unfolding new
  new_one-lookup t =
      ground (
        arith,
        lookup-insert (new_one t).id (new_one t).id (new_one t) (delete t.sessions sess.id).m,
      )

  new_one-unlocked : (t : Server) → unlocked (some (new_one t)) ≡ true
  unfolding new unlocked
  new_one-unlocked t = refl

  delete_limits :
      (m : Sessions) (id : Text) → ((delete m id).idle ≡ m.idle) × ((delete m id).max ≡ m.max)
  unfolding delete evict
  delete_limits m id = ground arith

  -- A later lookup of the identifier finds an unlocked session with the key.
  abbrev Holds : Server → Text → ℕ → Type 0
  Holds u id later =
      (full : Session) × ((get u.sessions id later).1 ≡ some full)
      × (unlocked (some full) ≡ true)
      × (session_key full (record u { sessions = (get u.sessions id later).0 }) ≡ key)

  opened_up-Holds :
      (t : Server) (later : ℕ)
      → lib.base64 (take 32 t.entropy) ≢ []
      → later - t.clock ≤ t.sessions.idle
      → later - t.clock ≤ t.sessions.max
      → Holds (opened_up t) (new_one t).id later
  unfolding new expired unlocked
  opened_up-Holds t later ne i x =
      let live =
        get_live (opened_up t).sessions (new_one t).id later (new_one t) ne (new_one-lookup t)
          (ground (arith, delete_limits t.sessions sess.id)) in
      (
        touch later (new_one t),
        ap (λ (y : Sessions × Option Session). y.1) live,
        new_one-unlocked t,
        ap (λ (y : Sessions × Option Session). buffer y.0.mem (new_one t).dek) live
            ∙ buffer_last (delete t.sessions sess.id).mem key,
      )

  asked-entropy :
      (s : Server) → (asked cfg p (form_value r (codes "passphrase")) s).entropy ≡ s.entropy
  asked-entropy s =
      totp_enabled_entropy (world_of (given cfg p (form_value r (codes "passphrase")) s))
      ∙ unlock_entropy cfg.argon p (form_value r (codes "passphrase")) (world_of s)

  asked-HasTokens :
      (s : Server)
      → HasTokens s.entropy
      → HasTokens (asked cfg p (form_value r (codes "passphrase")) s).entropy
  asked-HasTokens s h = subst HasTokens (sym (asked-entropy s)) h

  -- A login ends: with the right passphrase of a vault without a second factor, from an address that
  -- is not locked out, and with a driver and a random source that do not fail, `POST /unlock` answers
  -- with a redirection to the home page and the cookie of a new session, and any later request with
  -- that cookie, within the idle and the absolute timeout, has that session, unlocked, with the data
  -- key of the vault; given that base64 writes some text for some bytes.
  pub login_serves :
      (s : Server) (v : VaultRow) (later : ℕ)
      → let pass = form_value r (codes "passphrase") in
        (s.db.vault ≡ some v)
        → open_blob p
            (derive_kek p pass (row_params v))
            v.wrapped_dek
            (wrap_aad v.epoch (row_params v))
          ≡ ok key
        → length (blob_of v.totp_enc) ≡ 0
        → s.faults ≡ []
        → allowed s.limiter (address cfg lib r) s.clock ≡ true
        → HasTokens s.entropy
        → ((e : Bytes) → e ≢ [] → lib.base64 e ≢ [])
        → later - s.clock ≤ s.sessions.idle
        → later - s.clock ≤ s.sessions.max
        → (id : Text) × (u : Server) × (post_unlock cfg lib p r (some sess) s
            ≡ (ok (redirect r (set_cookie id ∷ []) (codes "/")), u))
          × Holds u id later
  login_serves s v later e o n f a h ne i x = (
    (new_one (asked cfg p pass s)).id,
    opened_up (asked cfg p pass s),
    post_unlock_opens s (ok false) a (unlock-Wraps p cfg.argon pass key (world_of s) (v, e, o) f)
        (totp_enabled_off (world_of (given cfg p pass s)) v
          (unlock_reads cfg.argon p pass (world_of s) ∙ ap (λ x. (next_fault x).1) f)
          (ap (λ (d : Db). d.vault) ((Quiet-unlock p cfg.argon pass).at (world_of s)) ∙ e) n)
        refl refl (asked-HasTokens s h),
    opened_up-Holds (asked cfg p pass s) later (ne _ (some_bytes _ (asked-HasTokens s h).0)) i x,
  )
    where
      pass : Text
      pass = form_value r (codes "passphrase")

  -- `POST /unlock` fails open: the right passphrase of a vault with a second factor is let in without
  -- it if the driver fails the statement that reads whether there is one, since the error of
  -- `TOTPEnabled` is dropped.
  pub login_fails_open :
      (s : Server) (v : VaultRow)
      → let pass = form_value r (codes "passphrase") in
        (s.db.vault ≡ some v)
        → open_blob p
            (derive_kek p pass (row_params v))
            v.wrapped_dek
            (wrap_aad v.epoch (row_params v))
          ≡ ok key
        → s.faults ≡ false ∷ true ∷ []
        → allowed s.limiter (address cfg lib r) s.clock ≡ true
        → HasTokens s.entropy
        → (full : Session) × (u : Server) × (post_unlock cfg lib p r (some sess) s
            ≡ (ok (redirect r (set_cookie full.id ∷ []) (codes "/")), u))
          × (lookup full.id u.sessions.m ≡ some full)
          × (unlocked (some full) ≡ true)
  login_fails_open s v e o f a h = (
    new_one (asked cfg p pass s),
    opened_up (asked cfg p pass s),
    post_unlock_opens s (err driver_failed) a
        (unlock_reads_row p cfg.argon pass key (world_of s) v f e o)
        (totp_enabled_failed (world_of (given cfg p pass s))
          (unlock_reads cfg.argon p pass (world_of s) ∙ ap (λ x. (next_fault x).1) f))
        refl refl (asked-HasTokens s h),
    new_one-lookup (asked cfg p pass s),
    new_one-unlocked (asked cfg p pass s),
  )
    where
      pass : Text
      pass = form_value r (codes "passphrase")
