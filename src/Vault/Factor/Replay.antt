-- ===== src/Vault/Factor/Replay.antt =====
-- What a login with the second factor accepts, and that it accepts a step only once.
use grafted_keys.Prelude.{
  ℕ, ◌+◌, ◌-◌, ◌/◌, ◌≤◌, ◌<◌, ◌≡◌, refl, sym, ap, ◌∙◌, Bool, true, false, Option, some, List, [],
  ◌∷◌, Bytes, Text, codes, All, arith, Bool-cases, Option-cases, inl, inr,
}
use grafted_keys.Exec.{Exec, Result, ok, err, pure, lift, ◌>>=◌, bind_inversion}
use grafted_keys.Store.Schema.{World, VaultRow, query_row, execute}
use grafted_keys.Store.VaultRow.{get_vault, update_totp_last, update_row}
use grafted_keys.Crypto.{Primitives, const_equal}
use grafted_keys.Crypto.Totp.{
  Verdict, accepted, replayed, no_match, validate_totp, validate_at, window, is_used, totp_period,
}
use grafted_keys.Vault.Items.{field}
use grafted_keys.Vault.Factor.{verify_login_totp, blob_of, clock, on_accept}
use grafted_keys.Vault.Lifecycle.Unlocking.{const_equal_inversion}

module _ (p : Primitives) (secret code : Text) where
  validate_at_inversion :
      (last_step : Option ℕ) (ts : List ℕ) (s lo hi : ℕ)
      → All (λ t. (lo ≤ t) × (t ≤ hi)) ts
      → validate_at p secret code last_step ts ≡ ok (accepted s)
      → (t : ℕ) × (lo ≤ t)
        × (t ≤ hi)
        × (p.totp_code secret t ≡ some code)
        × (s ≡ t / 30)
        × (is_used s last_step ≡ false)
  unfolding validate_at
  validate_at_inversion last_step [] s lo hi a h = absurd (ground arith)
  validate_at_inversion last_step (t ∷ ts) s lo hi (b, bs) h =
      elim (Option-cases (p.totp_code secret t)) [
        | inl e ↦ absurd (ground arith)
        | inr (want, e) ↦ elim (Bool-cases (const_equal want code)) [
          | inl q ↦ (
            t,
            b.0,
            b.1,
            e ∙ ap some (const_equal_inversion want code q),
            ground arith,
            ground arith,
          )
          | inr q ↦ validate_at_inversion last_step ts s lo hi bs (ground arith)
        ]
      ]

  validate_at-later :
      (last_step : Option ℕ) (later : ℕ) (ts : List ℕ) (s : ℕ)
      → s ≤ later
      → validate_at p secret code last_step ts ≡ ok (accepted s)
      → validate_at p secret code (some later) ts ≡ ok (replayed s)
  unfolding validate_at
  validate_at-later last_step later [] s le h = absurd (ground arith)
  validate_at-later last_step later (t ∷ ts) s le h =
      ground (arith, validate_at-later last_step later ts s le)

-- `GetVault` that succeeds returns the row, and changes no more than the driver's schedule.
get_vault_inversion :
    (w : World) (v : VaultRow)
    → (get_vault w).0 ≡ ok v
    → (w.db.vault ≡ some v) × ((get_vault w).1.db ≡ w.db) × ((get_vault w).1.now ≡ w.now)
unfolding get_vault query_row
get_vault_inversion w v h = (ground arith, ground arith, ground arith)

update_totp_last_inversion :
    (s : ℕ) (w : World)
    → (update_totp_last s w).0 ≡ ok tt
    → (update_totp_last s w).1.db ≡ update_row (λ u. record u { totp_last = s }) w.db
unfolding update_totp_last execute
update_totp_last_inversion s w h = ground arith

accept_inversion :
    (verdict : Verdict) (w : World)
    → (on_accept verdict update_totp_last w).0 ≡ ok true
    → (s : ℕ) × (verdict ≡ accepted s)
      × ((on_accept verdict update_totp_last w).1.db
          ≡ update_row (λ u. record u { totp_last = s }) w.db)
accept_inversion (accepted s) w h =
    let (a, q, r, e) = bind_inversion (update_totp_last s) (λ _. pure true) w true h in
    (s, refl, rw e (update_totp_last_inversion s w q))
accept_inversion (replayed s) w h = absurd (ground arith)
accept_inversion no_match w h = absurd (ground arith)

checked_code :
    (r : Result Verdict) (w : World)
    → ((lift r >>= λ verdict. on_accept verdict update_totp_last) w).0 ≡ ok true
    → (s : ℕ) × (r ≡ ok (accepted s))
      × (((lift r >>= λ verdict. on_accept verdict update_totp_last) w).1.db
          ≡ update_row (λ u. record u { totp_last = s }) w.db)
checked_code (ok verdict) w h = let (s, q, e) = accept_inversion verdict w h in (s, ap ok q, e)
checked_code (err e) w h = absurd (ground arith)

module _ (p : Primitives) (dek : Bytes) (code : Text) where
  -- What follows the reading of the row, by the secret that its blob opens to.
  abbrev checked_secret : Result Text → ℕ → Exec World Bool
  checked_secret r last_step = do
    secret ← lift r
    now ← clock
    verdict ← lift (validate_totp p secret code (some last_step) now)
    on_accept verdict update_totp_last

  checked_secret_inversion :
      (r : Result Text) (last_step : ℕ) (w : World)
      → (checked_secret r last_step w).0 ≡ ok true
      → (secret : Text) × (s : ℕ) × (r ≡ ok secret)
        × (validate_totp p secret code (some last_step) w.now ≡ ok (accepted s))
        × ((checked_secret r last_step w).1.db ≡ update_row (λ u. record u { totp_last = s }) w.db)
  checked_secret_inversion (ok secret) last_step w h =
      let (s, q, e) = checked_code (validate_totp p secret code (some last_step) w.now) w h in
      (secret, s, refl, q, e)
  checked_secret_inversion (err e) last_step w h = absurd (ground arith)

  verify_inversion :
      (w : World)
      → (verify_login_totp p dek code w).0 ≡ ok true
      → (v : VaultRow) × (secret : Text) × (s : ℕ) × (w.db.vault ≡ some v)
        × (field p dek (blob_of v.totp_enc) (codes "vault") (codes "1") (codes "totp") ≡ ok secret)
        × (validate_totp p secret code (some v.totp_last) w.now ≡ ok (accepted s))
        × ((verify_login_totp p dek code w).1.db
            ≡ update_row (λ u. record u { totp_last = s }) w.db)
  unfolding verify_login_totp
  verify_inversion w h =
      let (v, q, r, e) =
        bind_inversion get_vault
          (λ v.
            checked_secret
              (field p dek (blob_of v.totp_enc) (codes "vault") (codes "1") (codes "totp"))
              v.totp_last)
          w true h in
      let (stored, same_db, same_now) = get_vault_inversion w v q in
      let (secret, s, o, a, e') =
        checked_secret_inversion
          (field p dek (blob_of v.totp_enc) (codes "vault") (codes "1") (codes "totp")) v.totp_last
          (get_vault w).1 r in
      (
        v,
        secret,
        s,
        stored,
        o,
        ap (λ now. validate_totp p secret code (some v.totp_last) now) (sym same_now) ∙ a,
        ap (λ x. x.1.db) e ∙ (e' ∙ ap (update_row (λ u. record u { totp_last = s })) same_db),
      )

  -- A login that the second factor accepts is with the code, for the secret in the vault row, of a
  -- moment at most one period away from the present, whose step is later than the last one used;
  -- that step is then the last one used.
  pub verify_login_accepts :
      (w : World)
      → (verify_login_totp p dek code w).0 ≡ ok true
      → (v : VaultRow) × (secret : Text) × (t : ℕ) × (w.db.vault ≡ some v)
        × (field p dek (blob_of v.totp_enc) (codes "vault") (codes "1") (codes "totp") ≡ ok secret)
        × (p.totp_code secret t ≡ some code)
        × (w.now - totp_period ≤ t)
        × (t ≤ w.now + totp_period)
        × (v.totp_last < t / totp_period)
        × ((verify_login_totp p dek code w).1.db.vault
            ≡ some (record v { totp_last = t / totp_period }))
  unfolding validate_totp
  verify_login_accepts w h =
      let (v, secret, s, stored, o, a, e) = verify_inversion w h in
      let (t, lo, hi, c, q, u) =
        validate_at_inversion p secret code (some v.totp_last) (window w.now) s
          (w.now - totp_period) (w.now + totp_period)
          (
            (omega arith, omega arith),
            ((omega arith, omega arith), ((omega arith, omega arith), tt)),
          )
          a in
      (
        v,
        secret,
        t,
        stored,
        o,
        c,
        lo,
        hi,
        ground arith,
        ap (λ db. db.vault) e ∙ (rw (stored, q) refl),
      )

  verify_refuses :
      (w : World) (v : VaultRow) (secret : Text) (s : ℕ)
      → w.faults ≡ []
      → w.db.vault ≡ some v
      → field p dek (blob_of v.totp_enc) (codes "vault") (codes "1") (codes "totp") ≡ ok secret
      → validate_totp p secret code (some v.totp_last) w.now ≡ ok (replayed s)
      → (verify_login_totp p dek code w).0 ≡ ok false
  unfolding verify_login_totp get_vault query_row
  verify_refuses w v secret s f e o r = rw (f, e, o, r) refl

  -- A code that logged in does not log in a second time at the same moment.
  pub verify_login_once :
      (w again : World)
      → (verify_login_totp p dek code w).0 ≡ ok true
      → again.db ≡ (verify_login_totp p dek code w).1.db
      → again.now ≡ w.now
      → again.faults ≡ []
      → (verify_login_totp p dek code again).0 ≡ ok false
  unfolding validate_totp
  verify_login_once w again h d n f =
      let (v, secret, s, stored, o, a, e) = verify_inversion w h in
      verify_refuses again (record v { totp_last = s }) secret s f
        (ap (λ db. db.vault) (d ∙ e) ∙ (rw stored refl)) o
        (rw n
          (validate_at-later p secret code (some v.totp_last) s (window w.now) s (omega arith) a))
