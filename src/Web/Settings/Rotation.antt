-- ===== src/Web/Settings/Rotation.antt =====
-- `POST /settings/rekey` of internal/web/handlers_settings.go and the sessions of others.
use grafted_keys.Prelude.{
  ℕ, ◌≡◌, ◌≢◌, refl, sym, true, none, some, Text, Bytes, codes, arith, lookup, lookup-insert,
  get_elem?, [], length,
}
use grafted_keys.Exec.{ok}
use grafted_keys.Auth.Sessions.{Session, Sessions, set_dek, zero_key}
use grafted_keys.Auth.Sessions.Buffers.{
  get_elem?-zero_key, get_elem?-append, length-zero_key, get_elem?-length,
}
use grafted_keys.Auth.Limiter.{allowed, reset}
use grafted_keys.Crypto.{Primitives, IsLawful}
use grafted_keys.Vault.Lifecycle.{rekey}
use grafted_keys.Vault.Lifecycle.Unlocking.{Wraps}
use grafted_keys.Vault.Lifecycle.Rotation.{rekey-Wraps}
use grafted_keys.Web.Server.{Config, Library, Request, form_value, Server, world_of, on_limiter}
use grafted_keys.Web.Settings.Rendering.{render_settings_keeps, Quiet-totp_enabled}
use mathlib.Core.Path.{subst}
use grafted_keys.Web.Login.{address}
use grafted_keys.Web.Settings.{rekey_post, render_settings}

-- Another session keeps its key when `SetDEK` gives a session a new one.
set_dek_spares :
    (m : Sessions) (id k : Text) (key old : Bytes) (mine other : Session) (a : ℕ)
    → lookup id m.m ≡ some mine
    → lookup k m.m ≡ some other
    → id ≢ k
    → get_elem? m.mem a ≡ some old
    → mine.dek ≢ some a
    → (lookup k (set_dek m id key).m ≡ some other) × (get_elem? (set_dek m id key).mem a ≡ some old)
unfolding set_dek
set_dek_spares m id k key old mine other a e f ne g apart = (
  rw (e, set_dek)
      (ground (arith, lookup-insert id k (record mine { dek = some (length m.mem) }) m.m)),
  rw (e, set_dek)
      (ground (
        arith,
        get_elem?-append (zero_key mine.dek m.mem) key a,
        spared,
        length-zero_key m.mem mine.dek,
        get_elem?-length m.mem,
      )),
)
  where
    spared : get_elem? (zero_key mine.dek m.mem) a ≡ some old
    spared = ground (arith, get_elem?-zero_key m.mem mine.dek a)

-- A session is there and its key buffer holds the key.
abbrev pub HoldsKey : Text → Bytes → Sessions → Type 0
HoldsKey id key m =
    (x : Session) × (n : ℕ) × (lookup id m.m ≡ some x)
    × (x.dek ≡ some n)
    × (get_elem? m.mem n ≡ some key)

set_dek-HoldsKey :
    (m : Sessions) (id : Text) (key : Bytes) (mine : Session)
    → lookup id m.m ≡ some mine
    → HoldsKey id key (set_dek m id key)
unfolding set_dek
set_dek-HoldsKey m id key mine e = (
  record mine { dek = some (length m.mem) },
  length m.mem,
  rw (e, set_dek)
      (ground (arith, lookup-insert id id (record mine { dek = some (length m.mem) }) m.m)),
  refl,
  rw (e, set_dek)
      (ground (
        arith,
        get_elem?-append (zero_key mine.dek m.mem) key (length m.mem),
        length-zero_key m.mem mine.dek,
      )),
)

-- `POST /settings/rekey` changes the key of the session that asks for it and of no other. With an address that
-- is not locked out, and after a rotation that succeeds: the session that asked holds the new key, which is
-- what the passphrase unlocks now, and every other session, whose buffer is not shared with the one
-- that asked, is still there with the key that it had.
pub rekey_leaves_sessions :
    (cfg : Config) (lib : Library) (p : Primitives)
    → IsLawful p
    → (r : Request) (mine other : Session) (k : Text) (dek new_dek old : Bytes) (a : ℕ) (s : Server)
    → allowed s.limiter (address cfg lib r) s.clock ≡ true
    → (rekey p cfg.argon (form_value r (codes "passphrase")) (world_of s)).0 ≡ ok new_dek
    → lookup mine.id s.sessions.m ≡ some mine
    → lookup k s.sessions.m ≡ some other
    → mine.id ≢ k
    → get_elem? s.sessions.mem a ≡ some old
    → mine.dek ≢ some a
    → let t = (rekey_post cfg lib p r mine dek s).1 in
      HoldsKey mine.id new_dek t.sessions
      × (lookup k t.sessions.m ≡ some other)
      × (get_elem? t.sessions.mem a ≡ some old)
      × Wraps p (form_value r (codes "passphrase")) new_dek t.db
unfolding rekey_post on_limiter render_settings
rekey_leaves_sessions cfg lib p laws r mine other k dek new_dek old a s h o e f ne g apart =
    rw (h, o)
      (render_settings_keeps G
        (λ t (y, l, b, w).
          (y, l, b, subst (Wraps p pass new_dek) (sym (Quiet-totp_enabled.at (world_of t))) w))
        200 none mine (codes "Data key rotated; all secrets re-encrypted.") [] after
        (
          set_dek-HoldsKey s.sessions mine.id new_dek mine e,
          spared.0,
          spared.1,
          (rekey-Wraps p laws cfg.argon pass).at (world_of s) new_dek tt o,
        ))
  where
    pass : Bytes
    pass = form_value r (codes "passphrase")

    after : Server
    after = record s {
      db = (rekey p cfg.argon pass (world_of s)).1.db;
      faults = (rekey p cfg.argon pass (world_of s)).1.faults;
      entropy = (rekey p cfg.argon pass (world_of s)).1.entropy;
      limiter = reset s.limiter (address cfg lib r);
      sessions = set_dek s.sessions mine.id new_dek;
    }

    G : Server → Type 0
    G t =
        HoldsKey mine.id new_dek t.sessions
        × (lookup k t.sessions.m ≡ some other)
        × (get_elem? t.sessions.mem a ≡ some old)
        × Wraps p pass new_dek t.db

    spared :
        (lookup k (set_dek s.sessions mine.id new_dek).m ≡ some other)
        × (get_elem? (set_dek s.sessions mine.id new_dek).mem a ≡ some old)
    spared = set_dek_spares s.sessions mine.id k new_dek old mine other a e f ne g apart
