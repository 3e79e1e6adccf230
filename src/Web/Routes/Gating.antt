-- ===== src/Web/Routes/Gating.antt =====
-- `routes` of internal/web/server.go: what a request gets that comes without an unlocked session.
use grafted_keys.Prelude.{
  ◌≡◌, refl, sym, inl, inr, Bool, true, false, not, ◌||◌, ◌&&◌, if◌then◌else◌, Option, List, [],
  ◌∷◌, ◌++◌, Text, All, same, text_dec, codes, arith, Bool-cases,
}
use mathlib.Core.Path.{subst}
use grafted_keys.Exec.{Exec, Result, ok, err, pure, continue}
use grafted_keys.Auth.Sessions.{Session, unlocked, is_some}
use grafted_keys.Store.VaultRow.{vault_initialized}
use grafted_keys.Web.Server.{
  Library, Request, Server, Response, Body, redirect, error_text, redirect_to, hx_redirect, attempt,
  is_htmx,
}
use grafted_keys.Web.Middleware.{
  Handler, Gated, need_dek, to_login, login_page, is_read, is_true, holds_token, same_origin,
  csrf_mw, recover_mw, recovered,
}
use grafted_keys.Web.Serving.{session_of, entered, serve_enters}
use grafted_keys.Web.Reads.{Reads, Reads-pure, Unchanged, Unchanged-trans}
use grafted_keys.Web.Reads.Handlers.{Reads-to_login}
use grafted_keys.Web.Routes.Dispatch.{Answers, answers, All-++}
use grafted_keys.Web.Routes.Reading.{looked_up-Unchanged}
use grafted_keys.Web.Routes.{
  Entry, open_entry, gated_entry, entry_handler, Route, Wiring, open_routes, tree_routes,
  secret_routes, settings_routes, routes, match_path, mux, handle,
}

abbrev pub some_pattern : List Route → List Text → Bool
some_pattern [] path = false
some_pattern (route ∷ rows) path = is_some (match_path route.pattern path) || some_pattern rows path

-- Whether the path is that of a route which needs no key.
abbrev pub is_open : Wiring → List Text → Bool
is_open w path = some_pattern (open_routes w) path

abbrev pub among : Text → List Text → Bool
among t [] = false
among t (u ∷ texts) = same u t || among t texts

-- The page is a redirection to the login or one of five fixed texts.
abbrev pub is_refusal : Body → Bool
is_refusal (redirect_to dest) = among dest (codes "/unlock" ∷ codes "/setup" ∷ [])
is_refusal (hx_redirect dest) = among dest (codes "/unlock" ∷ codes "/setup" ∷ [])
is_refusal (error_text text) = among text (
    codes "404 page not found"
    ∷ codes "Method Not Allowed"
    ∷ codes "bad origin"
    ∷ codes "csrf"
    ∷ codes "internal error"
    ∷ [])
is_refusal _ = false

abbrev pub refuses : Result Response → Bool
refuses (ok x) = is_refusal x.body
refuses (err e) = false

record Refuses (m : Exec Server Response) : Type 0 where
  reads : Reads m
  at : (s : Server) → refuses (recovered (m s).0) ≡ true

refusal : (x : Response) → is_refusal x.body ≡ true → Refuses (pure x)
refusal x e = record { reads = Reads-pure x; at = λ s. e }

is_refusal-login : (r : Request) (b : Bool) → is_refusal (redirect r [] (login_page b)).body ≡ true
unfolding redirect text_dec
is_refusal-login r true = elim (Bool-cases (is_htmx r)) [ inl e ↦ rw e refl | inr e ↦ rw e refl ]
is_refusal-login r false = elim (Bool-cases (is_htmx r)) [ inl e ↦ rw e refl | inr e ↦ rw e refl ]

refuses-continue :
    {A : Type 0} (x : Result A) (f : A → Exec Server Response) (t : Server)
    → ((a : A) → refuses (recovered (f a t).0) ≡ true)
    → refuses (recovered (continue x f t).0) ≡ true
unfolding text_dec
refuses-continue (ok a) f t k = k a
refuses-continue (err e) f t k = refl

Refuses-to_login : (r : Request) → Refuses (to_login r)
unfolding to_login
Refuses-to_login r = record {
  reads = Reads-to_login r;
  at = λ s.
      refuses-continue (attempt vault_initialized s).0 _ (attempt vault_initialized s).1
        λ init. is_refusal-login r (is_true init);
}

Refuses-need_dek :
    (fn : Gated) (r : Request) (o : Option Session) → unlocked o ≡ false → Refuses (need_dek fn r o)
unfolding need_dek
Refuses-need_dek fn r o u = rw u (Refuses-to_login r)

Refuses-if :
    (b : Bool) (m n : Exec Server Response) → Refuses m → Refuses n → Refuses (if b then m else n)
Refuses-if true m n h k = h
Refuses-if false m n h k = k

Refuses-csrf_mw :
    (lib : Library) (h : Handler) (r : Request) (o : Option Session)
    → Refuses (h r o)
    → Refuses (csrf_mw lib h r o)
unfolding csrf_mw text_dec
Refuses-csrf_mw lib h r o k = Refuses-if (is_read r.method) (h r o) _ k (
    Refuses-if (not (same_origin lib r)) _ _ (refusal _ refl)
      (Refuses-if (not (holds_token r o)) _ (h r o) (refusal _ refl) k))

abbrev is_gated : Entry → Bool
is_gated (open_entry h) = false
is_gated (gated_entry fn) = true

abbrev all_gated : List Route → Bool
all_gated [] = true
all_gated (route ∷ rows) = is_gated route.entry && all_gated rows

module _ (path : List Text) (r : Request) (o : Option Session) (u : unlocked o ≡ false) where
  Refuses-entry :
      (e : Entry) (v : Text)
      → is_gated e ≡ true
      → Refuses (entry_handler e (record r { path_id = v }) o)
  Refuses-entry (open_entry h) v g = absurd (cc)
  Refuses-entry (gated_entry fn) v g = Refuses-need_dek fn (record r { path_id = v }) o u

  gated_rows : (rows : List Route) → all_gated rows ≡ true → All (Answers Refuses path r o) rows
  gated_rows [] g = tt
  gated_rows (route ∷ rows) g = (
    record { at = λ v t m. Refuses-entry route.entry v (ground arith) },
    gated_rows rows (ground arith),
  )

  unmatched_rows :
      (rows : List Route) → some_pattern rows path ≡ false → All (Answers Refuses path r o) rows
  unmatched_rows [] g = tt
  unmatched_rows (route ∷ rows) g = (
    record {
      at = λ v t m.
          let some_v : is_some (match_path route.pattern path) ≡ true = rw m refl in
          absurd (ground arith);
    },
    unmatched_rows rows (ground arith),
  )

  Refuses-mux : (w : Wiring) → is_open w path ≡ false → Refuses (mux (routes w) path false r o)
  unfolding text_dec
  Refuses-mux w c = answers Refuses path r o (refusal _ refl) (refusal _ refl) (routes w) false (
      All-++ (Answers Refuses path r o) (open_routes w)
        (tree_routes w ++ (secret_routes w ++ settings_routes w)) (unmatched_rows (open_routes w) c)
        (gated_rows (tree_routes w ++ (secret_routes w ++ settings_routes w)) refl))

-- A request for any path but those of the login, the static files and the health check, which comes with no
-- session, with an expired one, or with one that is pending its second factor, is answered with a redirection to the
-- login or with one of five fixed texts, and leaves everything that lasts as it was.
pub handle_gated :
    (w : Wiring) (path : List Text) (r : Request) (s : Server)
    → is_open w path ≡ false
    → unlocked (session_of w.cfg r s) ≡ false
    → (refuses (handle w path r s).0 ≡ true) × Unchanged s (handle w path r s).1
unfolding handle recover_mw
handle_gated w path r s c u =
    subst (λ (x : Result Response × Server). (refuses x.0 ≡ true) × Unchanged s x.1)
      (sym (serve_enters w.cfg w.lib (mux (routes w) path false) r s))
      (
        answer.at (entered w.cfg r s),
        Unchanged-trans s (entered w.cfg r s) _ (looked_up-Unchanged _ s)
            (answer.reads.at (entered w.cfg r s)),
      )
  where
    answer : Refuses (csrf_mw w.lib (mux (routes w) path false) r (session_of w.cfg r s))
    answer =
        Refuses-csrf_mw w.lib (mux (routes w) path false) r (session_of w.cfg r s)
          (Refuses-mux path r (session_of w.cfg r s) u w c)
