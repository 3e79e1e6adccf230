-- ===== src/Web/Login/Admission.antt =====
-- Who is let in by the handlers of internal/web/handlers_auth.go.
use grafted_keys.Prelude.{
  ◌≡◌, inl, inr, refl, sym, ap, ◌∙◌, Bool, true, false, not, Option, none, some, List, [], Text,
  Bytes, codes, same, arith, Bool-cases, length, ltb, ◌||◌,
}
use mathlib.Core.Path.{subst}
use grafted_keys.Exec.{Exec, Result, ok, err, bind_inversion, ◌>>=◌, not_init, already_init}
use grafted_keys.Store.Schema.{World, Db, VaultRow, query, query_row}
use grafted_keys.Store.VaultRow.{get_vault, vault_initialized}
use grafted_keys.Auth.Sessions.{Session, unlocked, is_some}
use grafted_keys.Auth.Limiter.{allowed}
use grafted_keys.Crypto.{Primitives, open_blob, derive_kek}
use grafted_keys.Vault.Aad.{wrap_aad}
use grafted_keys.Vault.Lifecycle.{Argon, row_params, vault_row, unlock, setup}
use grafted_keys.Vault.Lifecycle.Unlocking.{Wraps, unlock_opens}
use grafted_keys.Vault.Factor.{totp_enabled, verify_login_totp, blob_of}
use grafted_keys.Web.Login.Admitting.{
  unlocked-delete, Admitted-if, Admitted-after, Admitted, Known, Known-preauth, Known-hold,
  Admitted-pure, Admitted-count_failure, Admitted-throttled,
}
use grafted_keys.Vault.Lifecycle.Rotation.{Quiet-unlock}
use grafted_keys.Web.Server.{
  Config, Library, Request, form_value, Server, Cookie, attempt, delete_session, session_key,
  world_of,
}
use grafted_keys.Web.Server.Outcome.{Runs, Runs-bind, Runs-if, Runs-attempt}
use grafted_keys.Web.Middleware.{is_true, Handler}
use grafted_keys.Web.Login.{
  preauth, post_unlock, post_unlock_totp, get_setup, post_setup, get_unlock, post_lock, address,
  limited, passphrase, min_passphrase, unlock_done, setup_done, totp_done, give_code,
}

-- The passphrase opens the key, and the vault has no second factor.
abbrev pub Opens : Primitives → Bytes → Db → Type 0
Opens p pass db =
    (v : VaultRow) × (dek : Bytes) × (db.vault ≡ some v)
    × (open_blob p (derive_kek p pass (row_params v)) v.wrapped_dek
          (wrap_aad v.epoch (row_params v))
        ≡ ok dek)
    × (length (blob_of v.totp_enc) ≡ 0)

factor_off :
    (w : World) (v : VaultRow)
    → w.faults ≡ []
    → w.db.vault ≡ some v
    → is_true (totp_enabled w).0 ≡ false
    → length (blob_of v.totp_enc) ≡ 0
unfolding totp_enabled get_vault query_row
factor_off w v f e h = ground arith

unlock_faults :
    (p : Primitives) (a : Argon) (pass : Bytes) (w : World)
    → w.faults ≡ []
    → (unlock p a pass w).1.faults ≡ []
unfolding unlock vault_row get_vault query_row
unlock_faults p a pass w f = ground arith

setup_inversion :
    (p : Primitives) (a : Argon) (pass dek : Bytes) (w : World)
    → (setup p a pass w).0 ≡ ok dek
    → w.db.vault ≡ none
unfolding setup vault_initialized query
setup_inversion p a pass dek w h =
    let (init, q, r, _) = bind_inversion vault_initialized _ w dek h in ground arith

-- The handlers that need no key.
pub data LoginRoute : Type 0 where
  setup_form setup_post unlock_form unlock_post totp_post lock_post : LoginRoute

module _ (cfg : Config) (lib : Library) (p : Primitives) where
  unfoldable pub login_handler : LoginRoute → Handler
  unfolding get_setup post_setup get_unlock post_unlock post_unlock_totp post_lock
  login_handler setup_form = get_setup cfg lib p
  login_handler setup_post = post_setup cfg lib p
  login_handler unlock_form = get_unlock cfg lib p
  login_handler unlock_post = post_unlock cfg lib p
  login_handler totp_post = post_unlock_totp cfg lib p
  login_handler lock_post = post_lock cfg lib p

  -- What has to be shown to be let in: to `POST /setup`, that there is no vault yet; to
  -- `POST /unlock`, the passphrase of a vault without a second factor; to `POST /unlock/totp`, a
  -- session that holds a key but is pending, and a code that `VerifyLoginTOTP` accepts.
  abbrev pub Credential : LoginRoute → Request → Option Session → Server → Type 0
  Credential setup_form r o s = ⊥
  Credential setup_post r o s = s.db.vault ≡ none
  Credential unlock_form r o s = ⊥
  Credential unlock_post r o s = Opens p (form_value r (codes "passphrase")) s.db
  Credential totp_post r o s =
      (sess : Session) × (o ≡ some sess)
      × (sess.pending ≡ true)
      × ((verify_login_totp p (session_key sess s) (lib.trim_space (form_value r (codes "code")))
            (world_of s)).0
          ≡ ok true)
  Credential lock_post r o s = ⊥

  module _ (s : Server) (r : Request) where
    setup_done_admits :
        (pre : Session) (set : List Cookie) (x : Result Bytes)
        → let A = s.db.vault ≡ none in
          Runs
            (Admitted s.sessions.m A)
            (Known s.sessions.m A (λ d f. (dek : Bytes) → x ≡ ok dek → A))
            (setup_done cfg lib p r pre set x)
            (λ _. Admitted s.sessions.m A)
    setup_done_admits pre set (ok dek) = Admitted-if _ _ _ _ λ t h. h dek refl
    setup_done_admits pre set (err already_init) = Admitted-pure _ _ _ _
    setup_done_admits pre set (err e) = Admitted-pure _ _ _ _

    setup_post_admits :
        (o : Option Session)
        → let A = s.db.vault ≡ none in
          Runs
            (Admitted s.sessions.m A)
            (Known s.sessions.m A (λ d f. d ≡ s.db))
            (post_setup cfg lib p r o)
            (λ _. Admitted s.sessions.m A)
    unfolding post_setup
    setup_post_admits o =
        Runs-bind (preauth lib o) _ (λ _. Known _ _ X) _ (Known-preauth _ _ X lib o)
          λ pre.
            Runs-if (ltb (lib.rune_count pass) min_passphrase) _ _ _ (λ _. Admitted-pure _ _ X _)
              λ _.
                Runs-if (not (same pass (form_value r (codes "confirm")))) _ _ _
                  (λ _. Admitted-pure _ _ X _)
                  λ _.
                    Runs-bind (attempt (setup p cfg.argon pass)) _
                      (λ x. Known s.sessions.m A (λ d f. (dek : Bytes) → x ≡ ok dek → A)) _
                      (Runs-attempt (setup p cfg.argon pass) _ (λ t h. h.0)
                        λ t x (h, e) q. (
                          h,
                          λ dek z.
                              ap (λ (y : Db). y.vault) (sym e)
                              ∙ setup_inversion p cfg.argon pass dek (world_of t) (q ∙ z),
                        ))
                      (setup_done_admits pre.0 pre.1)
      where
        pass : Text
        pass = form_value r (codes "passphrase")

        A : Type 0
        A = s.db.vault ≡ none

        X : Db → List Bool → Type 0
        X d f = d ≡ s.db

    unlock_done_admits :
        (pre : Session) (set : List Cookie) (x : Result Bytes)
        → let pass = form_value r (codes "passphrase") in
          let A = Opens p pass s.db in
          Runs
            (Admitted s.sessions.m A)
            (Known s.sessions.m A
              (λ d f. (d ≡ s.db) × (f ≡ []) × ((dek : Bytes) → x ≡ ok dek → Wraps p pass dek s.db)))
            (unlock_done cfg lib p r pre set x)
            (λ _. Admitted s.sessions.m A)
    unlock_done_admits pre set (ok dek) =
        Runs-bind (attempt totp_enabled) _ (λ x. Known _ _ (λ d f. is_true x ≡ false → A)) _
          (Runs-attempt totp_enabled _ (λ t h. h.0)
            λ t x (h, (e, f, w)) q. (
              h,
              λ n.
                  let (v, l, u) = w dek refl in
                  (
                    v,
                    dek,
                    l,
                    u,
                    factor_off (world_of t) v f (ap (λ (y : Db). y.vault) e ∙ l) (rw q n),
                  ),
            ))
          λ x.
            Runs-if (is_true x) _ _ _
              (λ _.
                Runs-bind _ _ _ _ (Known-hold _ _ _ lib pre.id dek) λ full. Admitted-pure _ _ _ _)
              (λ n. Admitted-if _ _ _ _ λ t h. h n)
      where
        A : Type 0
        A = Opens p (form_value r (codes "passphrase")) s.db
    unlock_done_admits pre set (err not_init) = Admitted-pure _ _ _ _
    unlock_done_admits pre set (err e) = Admitted-count_failure _ _ _ _ _

    unlock_post_admits :
        (o : Option Session)
        → let A = Opens p (form_value r (codes "passphrase")) s.db in
          Runs
            (Admitted s.sessions.m A)
            (Known s.sessions.m A (λ d f. (d ≡ s.db) × (f ≡ [])))
            (post_unlock cfg lib p r o)
            (λ _. Admitted s.sessions.m A)
    unfolding post_unlock
    unlock_post_admits o =
        Runs-bind (preauth lib o) _ (λ _. Known _ _ X) _ (Known-preauth _ _ X lib o)
          λ pre. Admitted-throttled _ _ X (address cfg lib r) (limited pre.1 pre.0 passphrase) _ (
            Runs-bind (attempt (unlock p cfg.argon pass)) _
              (λ x. Known s.sessions.m A (λ d f.
                (d ≡ s.db) × (f ≡ []) × ((dek : Bytes) → x ≡ ok dek → Wraps p pass dek s.db)))
              _
              (Runs-attempt (unlock p cfg.argon pass) _ (λ t h. h.0)
                λ t x (h, (e, f)) q. (
                  h,
                  (
                    (Quiet-unlock p cfg.argon pass).at (world_of t) ∙ e,
                    unlock_faults p cfg.argon pass (world_of t) f,
                    λ dek z.
                        subst (Wraps p pass dek) e
                          (unlock_opens p cfg.argon pass dek (world_of t) (q ∙ z)),
                  ),
                ))
              (unlock_done_admits pre.0 pre.1))
      where
        pass : Text
        pass = form_value r (codes "passphrase")

        A : Type 0
        A = Opens p (form_value r (codes "passphrase")) s.db

        X : Db → List Bool → Type 0
        X d f = (d ≡ s.db) × (f ≡ [])

    totp_done_admits :
        (sess : Session) (A : Type 0) (x : Result Bool)
        → Runs
            (Admitted s.sessions.m A)
            (Known s.sessions.m A (λ d f. x ≡ ok true → A))
            (totp_done cfg lib p r sess x)
            (λ _. Admitted s.sessions.m A)
    totp_done_admits sess A (ok true) = Admitted-if _ _ _ _ λ t h. h refl
    totp_done_admits sess A (ok false) = Admitted-count_failure _ _ _ _ _
    totp_done_admits sess A (err e) = Admitted-count_failure _ _ _ _ _

    totp_post_admits :
        (o : Option Session)
        → Admitted s.sessions.m (Credential totp_post r o s) (post_unlock_totp cfg lib p r o s).1
    unfolding post_unlock_totp
    totp_post_admits none = λ k u. inl u
    totp_post_admits (some sess) = elim (Bool-cases (not (is_some sess.dek) || not sess.pending)) [
      | inl e ↦ rw e (λ k u. inl u)
      | inr e ↦ rw e (given (ground arith))
    ]
      where
        A : Type 0
        A = Credential totp_post r (some sess) s

        code : Text
        code = lib.trim_space (form_value r (codes "code"))

        verdict : Server → Result Bool
        verdict t = (verify_login_totp p (session_key sess s) code (world_of t)).0

        given : sess.pending ≡ true → Admitted s.sessions.m A (give_code cfg lib p r sess s).1
        given pending = elim (Bool-cases (allowed s.limiter (address cfg lib r) s.clock)) [
          | inl e ↦ rw e (
              Admitted-after s A (λ t. t ≡ s)
                (attempt (verify_login_totp p (session_key sess s) code)
                  >>= totp_done cfg lib p r sess)
                refl
                (Runs-bind (attempt (verify_login_totp p (session_key sess s) code)) _
                  (λ x. Known s.sessions.m A (λ d f. x ≡ ok true → A)) _
                  (Runs-attempt (verify_login_totp p (session_key sess s) code) _
                    (λ t h. rw h λ k u. inl u)
                    λ t x h q.
                      (rw h λ k u. inl u, λ z. (sess, refl, pending, sym (ap verdict h) ∙ q ∙ z)))
                  (totp_done_admits sess A)))
          | inr e ↦ rw e (λ k u. inl u)
        ]

    abbrev Anything : Db → List Bool → Type 0
    Anything d f = Unit {0}

    initialized_then :
        {B : Type 0} (A : Type 0) (f : Result Bool → Exec Server B)
        → ((x : Result Bool)
            → Runs
                (Admitted s.sessions.m A)
                (Known s.sessions.m A Anything)
                (f x)
                (λ _. Admitted s.sessions.m A))
        → Runs
            (Admitted s.sessions.m A)
            (Known s.sessions.m A Anything)
            (attempt vault_initialized >>= f)
            (λ _. Admitted s.sessions.m A)
    initialized_then A f q =
        Runs-bind (attempt vault_initialized) f (λ _. Known s.sessions.m A Anything) _
          (Runs-attempt vault_initialized _ (λ t h. h.0) λ t x h e. (h.0, tt)) q

    setup_form_admits :
        (o : Option Session)
        → Runs
            (Admitted s.sessions.m ⊥)
            (Known s.sessions.m ⊥ Anything)
            (get_setup cfg lib p r o)
            (λ _. Admitted s.sessions.m ⊥)
    unfolding get_setup
    setup_form_admits o = initialized_then ⊥ _ λ x.
        Runs-if (is_true x) _ _ _ (λ _. Admitted-pure _ _ Anything _)
          λ _.
            Runs-bind (preauth lib o) _ _ _ (Known-preauth _ _ Anything lib o)
              λ pre. Admitted-pure _ _ Anything _

    unlock_form_admits :
        (o : Option Session)
        → Runs
            (Admitted s.sessions.m ⊥)
            (Known s.sessions.m ⊥ Anything)
            (get_unlock cfg lib p r o)
            (λ _. Admitted s.sessions.m ⊥)
    unfolding get_unlock
    unlock_form_admits o = initialized_then ⊥ _ λ x.
        Runs-if (not (is_true x)) _ _ _ (λ _. Admitted-pure _ _ Anything _)
          λ _.
            Runs-if (unlocked o) _ _ _ (λ _. Admitted-pure _ _ Anything _)
              λ _.
                Runs-bind (preauth lib o) _ _ _ (Known-preauth _ _ Anything lib o)
                  λ pre. Admitted-pure _ _ Anything _

    lock_admits : (o : Option Session) → Admitted s.sessions.m ⊥ (post_lock cfg lib p r o s).1
    unfolding post_lock delete_session
    lock_admits none = λ k u. inl u
    lock_admits (some sess) = λ k u. inl (unlocked-delete s.sessions sess.id k u)

  pub login_admits :
      (route : LoginRoute) (r : Request) (o : Option Session) (s : Server)
      → s.faults ≡ []
      → Admitted s.sessions.m (Credential route r o s) (login_handler route r o s).1
  unfolding login_handler
  login_admits setup_form r o s f =
      Admitted-after s ⊥ _ _ (λ k u. inl u, tt) (setup_form_admits s r o)
  login_admits setup_post r o s f =
      Admitted-after s _ _ _ (λ k u. inl u, refl) (setup_post_admits s r o)
  login_admits unlock_form r o s f =
      Admitted-after s ⊥ _ _ (λ k u. inl u, tt) (unlock_form_admits s r o)
  login_admits unlock_post r o s f =
      Admitted-after s _ _ _ (λ k u. inl u, (refl, f)) (unlock_post_admits s r o)
  login_admits totp_post r o s f = totp_post_admits s r o
  login_admits lock_post r o s f = lock_admits s r o
