-- ===== src/Auth/Sessions/Tests.antt =====
-- Concrete sessions.
use grafted_keys.Prelude.{
  ◌≡◌, refl, true, false, none, some, [], ◌∷◌, arith, Text, codes, lookup, text_dec, insert,
}
use grafted_keys.Auth.Sessions.{Session, Sessions, new_sessions, new, get}
use grafted_keys.Auth.Sessions.Expiry.{lifetime_bounds_get, get_all}
use grafted_keys.Auth.Sessions.Custody.{Custody}
use grafted_keys.Auth.Sessions.Custody.Steps.{Reach, here, next, news, keys_in-Custody}

abbrev alice : Text
alice = codes "alice"

abbrev bob : Text
bob = codes "bob"

-- Two logins, one of which awaits its second factor.
abbrev opened : Sessions
opened = (new (new_sessions 100 1000) (some (1 ∷ 2 ∷ [])) false alice (codes "c1") 10).0

abbrev two : Sessions
two = (new opened (some (3 ∷ 4 ∷ [])) true bob (codes "c2") 20).0

abbrev alice_session : Session
alice_session = record {
  id = alice;
  dek = some 0;
  csrf = codes "c1";
  pending = false;
  created = 10;
  last_seen = 10;
}

abbrev bob_session : Session
bob_session = record {
  id = bob;
  dek = some 1;
  csrf = codes "c2";
  pending = true;
  created = 20;
  last_seen = 20;
}

abbrev history : Reach (new_sessions 100 1000) two
unfolding new_sessions new lookup insert text_dec
history =
    next (next here (news (some (1 ∷ 2 ∷ [])) false alice (codes "c1") 10 refl))
      (news (some (3 ∷ 4 ∷ [])) true bob (codes "c2") 20 refl)

two_in-Custody : Custody two
two_in-Custody = keys_in-Custody 100 1000 two history

keys_in-Custody_example : Custody two
keys_in-Custody_example = keys_in-Custody 100 1000 two history

lifetime_bounds_get_example :
    (get (get_all two ((alice, 90) ∷ (alice, 180) ∷ [])) alice 1011).1 ≡ none
unfolding new_sessions new lookup text_dec insert
lifetime_bounds_get_example =
    lifetime_bounds_get two alice alice_session ((alice, 90) ∷ (alice, 180) ∷ []) 1011 refl
      (omega arith)
