-- ===== src/Web/Tests/Routes.antt =====
-- Requests for the page of a project: with a session that is not unlocked, and with one that is.
use grafted_keys.Prelude.{◌≡◌, refl, true, none, [], ◌∷◌, codes, text_dec, lookup}
use grafted_keys.Boot.Tests.{formats}
use grafted_keys.Vault.Tests.{toy}
use grafted_keys.Web.Server.{Request, method_get, respond, raw}
use grafted_keys.Web.Secrets.{no_file}
use grafted_keys.Auth.Sessions.{get, unlocked, expired}
use grafted_keys.Web.Middleware.{cookie_name}
use grafted_keys.Web.Reads.{Unchanged}
use grafted_keys.Web.Routes.{Wiring, match_path, handle}
use grafted_keys.Web.Routes.Reading.{handle_reads}
use grafted_keys.Web.Routes.Gating.{refuses, handle_gated}
use grafted_keys.Web.Tests.{config, library, mine, waiting, server, posted}

abbrev wiring : Wiring
wiring = record {
  cfg = config;
  lib = library;
  primitives = toy;
  formats = formats;
  form_file = λ r name. no_file;
  new_totp = none;
  static_file = λ r. respond 200 [] (raw []);
}

abbrev page_of_mine : Request
page_of_mine = record (posted mine []) { method = method_get }

abbrev page_of_waiting : Request
page_of_waiting = record (posted waiting []) { method = method_get }

handle_reads_example :
    Unchanged server (handle wiring (codes "projects" ∷ codes "p1" ∷ []) page_of_mine server).1
handle_reads_example =
    handle_reads wiring (codes "projects" ∷ codes "p1" ∷ []) page_of_mine server refl

handle_gated_example :
    (refuses (handle wiring (codes "projects" ∷ codes "p1" ∷ []) page_of_waiting server).0 ≡ true)
    × Unchanged server (handle wiring (codes "projects" ∷ codes "p1" ∷ []) page_of_waiting server).1
unfolding text_dec match_path lookup get cookie_name unlocked expired
handle_gated_example =
    handle_gated wiring (codes "projects" ∷ codes "p1" ∷ []) page_of_waiting server refl refl
