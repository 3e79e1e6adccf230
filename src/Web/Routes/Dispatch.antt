-- ===== src/Web/Routes/Dispatch.antt =====
-- The multiplexer of internal/web/server.go: a rule for what holds of every answer.
use grafted_keys.Prelude.{
  codes, ◌≡◌, refl, Bool, true, false, Option, none, some, List, [], ◌∷◌, ◌++◌, Text, All,
  Bool-cases, inl, inr,
}
use grafted_keys.Exec.{Exec, pure}
use grafted_keys.Auth.Sessions.{Session}
use grafted_keys.Web.Server.{Request, Server, Response}
use grafted_keys.Web.Middleware.{http_error}
use grafted_keys.Web.Routes.{entry_handler, Route, takes, match_path, dispatched, mux}

pub All-++ : (P : Route → Type 0) (m n : List Route) → All P m → All P n → All P (m ++ n)
All-++ P [] n h k = k
All-++ P (route ∷ m) n h k = (h.0, All-++ P m n h.1 k)

-- What a route answers to this request, if it is the one that takes it.
pub record Answers (P : Exec Server Response → Type 0) (path : List Text) (r : Request)
    (o : Option Session) (route : Route) : Type 0 where
  pub at :
      (v : Text)
      → takes route.method r.method ≡ true
      → match_path route.pattern path ≡ some v
      → P (entry_handler route.entry (record r { path_id = v }) o)

module _ (P : Exec Server Response → Type 0) (path : List Text) (r : Request)
    (o : Option Session) where
  chosen :
      (route : Route) (found : Option Text) (missed : Bool) (rows : List Route)
      → match_path route.pattern path ≡ found
      → Answers P path r o route
      → ((b : Bool) → P (mux rows path b r o))
      → P (dispatched route found missed (mux rows path) r o)
  chosen route none missed rows e a k = k missed
  chosen route (some v) missed rows e a k = elim (Bool-cases (takes route.method r.method)) [
    | inl t ↦ rw t (a.at v t e)
    | inr t ↦ rw t (k true)
  ]

  pub answers :
      P (pure (http_error 404 (codes "404 page not found")))
      → P (pure (http_error 405 (codes "Method Not Allowed")))
      → (rows : List Route) (missed : Bool) → All (Answers P path r o) rows
      → P (mux rows path missed r o)
  unfolding mux
  answers a b [] true k = b
  answers a b [] false k = a
  answers a b (route ∷ rows) missed k =
      chosen route (match_path route.pattern path) missed rows refl k.0
        λ later. answers a b rows later k.1
