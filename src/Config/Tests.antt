-- ===== src/Config/Tests.antt =====
-- The defaults, and an override that would be too small.
use grafted_keys.Prelude.{
  ◌*◌, ◌≡◌, ◌⊎◌, refl, true, false, [], ◌∷◌, none, some, Text, codes, text_dec, pos, negsuc, lookup,
}
use grafted_keys.Config.{Argon, Config, Parsers, less, with_overrides, zero_argon}
use grafted_keys.Config.Bounds.{with_overrides_valid}

abbrev parsers : Parsers
parsers = record { atoi = λ t. some (negsuc 2); duration = λ t. none; is_clock_time = λ t. true }

abbrev nothing_set : Text → Text
nothing_set k = []

abbrev defaults : Argon
defaults = record { time_t = 3; mem_kib = 64 * 1024; par = 2 }

abbrev config : Config
config = record {
  addr = [];
  data_dir = [];
  backup_dir = [];
  backup_at = [];
  backup_keep = pos 14;
  session_idle = pos 0;
  session_max = pos 0;
  secure_cookie = true;
  trust_proxy = false;
  hsts = false;
  argon = zero_argon;
}

abbrev stored : Config
stored = (with_overrides parsers config ((codes "backup_keep", codes "-3") ∷ [])).0

with_overrides_valid_example :
    (less stored.backup_keep (pos 1) ≡ false)
    × (less (pos 0) stored.session_idle ≡ true)
    × (less stored.session_max stored.session_idle ≡ false)
    × ((stored.backup_at ≡ []) ⊎ (parsers.is_clock_time stored.backup_at ≡ true))
unfolding with_overrides text_dec lookup
with_overrides_valid_example =
    with_overrides_valid parsers config ((codes "backup_keep", codes "-3") ∷ []) refl
