-- ===== src/Web/Settings/Rendering.antt =====
-- What rendering the settings page leaves alone.
use grafted_keys.Prelude.{ℕ, Option, Text, arith}
use grafted_keys.Store.Schema.{query_row}
use grafted_keys.Store.VaultRow.{get_vault}
use grafted_keys.Store.Atomic.{Quiet}
use grafted_keys.Auth.Sessions.{Session}
use grafted_keys.Vault.Factor.{totp_enabled}
use grafted_keys.Web.Server.{Server, attempt, world_of, after_world}
use grafted_keys.Web.Server.Outcome.{Runs-bind, Runs-attempt, Runs-state}
use grafted_keys.Web.Settings.{render_settings}

pub Quiet-totp_enabled : Quiet totp_enabled
unfolding totp_enabled get_vault query_row
Quiet-totp_enabled = record { at = λ w. ground arith }

-- It keeps whatever the reading of the vault row keeps.
pub render_settings_keeps :
    (G : Server → Type 0)
    → ((t : Server) → G t → G (after_world t (totp_enabled (world_of t)).1))
    → (status : ℕ) (wait : Option ℕ) (sess : Session) (msg error : Text) (s : Server) → G s
    → G (render_settings status wait sess msg error s).1
unfolding render_settings
render_settings_keeps G keep status wait sess msg error s h =
    Runs-state G G (render_settings status wait sess msg error) s h (
      Runs-bind (attempt totp_enabled) _ (λ _. G) _
        (Runs-attempt totp_enabled _ keep λ t x g e. keep t g) λ x. record { at = λ t g. g })
