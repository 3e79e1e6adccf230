-- ===== src/Web/Import/Fresh.antt =====
-- What `POST /import` of internal/web/handlers_import.go adds.
use grafted_keys.Prelude.{◌≡◌, ◌⊎◌, false, List, [], ◌∷◌, Text, Bytes, All, same}
use grafted_keys.Exec.{Exec, Result, ok, err, ◌>>=◌}
use grafted_keys.Crypto.{Primitives}
use grafted_keys.Vault.Secrets.{SecretMeta}
use grafted_keys.Web.Server.{Library, Request, Server, Response, Body, fragment, secret_nodes}
use grafted_keys.Web.Secrets.{normalize_key}
use grafted_keys.Web.EnvFile.{EnvPair}
use grafted_keys.Web.Import.{is_known}

abbrev nodes_in : Body → List SecretMeta
nodes_in (fragment (secret_nodes ms)) = ms
nodes_in _ = []

abbrev nodes_of : Result Response → List SecretMeta
nodes_of (ok res) = nodes_in res.body
nodes_of (err e) = []

-- No two of the nodes have one name.
pub DistinctNames : List SecretMeta → Type 0
DistinctNames [] = Unit
DistinctNames (m ∷ ms) = All (λ x. same x.name m.name ≡ false) ms × DistinctNames ms

module _ (lib : Library) (p : Primitives) (r : Request) (dek : Bytes) where
  -- The key of one of the pairs, normalized, is the name.
  pub IsKey : List EnvPair → Text → Type 0
  IsKey [] name = ⊥
  IsKey (q ∷ qs) name = (name ≡ normalize_key lib p q.key) ⊎ IsKey qs name

  pub IsAddition : List EnvPair → List Text → SecretMeta → Type 0
  IsAddition qs known m =
      (same m.name [] ≡ false) × (is_known m.name known ≡ false) × IsKey qs m.name

  pub AreAdditions : List EnvPair → List Text → List SecretMeta → Type 0
  AreAdditions qs known ms = All (IsAddition qs known) ms × DistinctNames ms
