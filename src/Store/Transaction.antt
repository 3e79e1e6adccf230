-- ===== src/Store/Transaction.antt =====
-- Transactions as the source writes them, and the settings of internal/store/store.go.
use grafted_keys.Prelude.{true, [], ◌∷◌, Text, Dict, insert}
use grafted_keys.Exec.{Exec, Result, ok, err, pure, ◌>>◌}
use grafted_keys.Store.Schema.{Db, World, query, execute}

-- `Begin`, the body, and `Commit`, where an error of any of them rolls the database back.
abbrev pub settle : {A : Type 0} → Db → Result A × World → Result A × World
settle db (ok a, w) = (ok a, w)
settle db (err e, w) = (err e, record w { db = db })

unfoldable pub no_effect : Exec World (Unit {0})
unfolding execute
no_effect = execute (λ _. true) (λ w. w.db)

unfoldable pub transaction : Exec World (Unit {0}) → Exec World (Unit {0})
unfolding no_effect
transaction body w = settle w.db ((no_effect >> (body >> no_effect)) w)

unfoldable pub settings : Exec World (Dict Text)
unfolding query
settings = query λ db. db.app_settings

put_settings : Dict Text → Exec World (Unit {0})
unfolding execute
put_settings [] = pure tt
put_settings ((k, v) ∷ kv) =
    execute (λ _. true) (λ w. record w.db { app_settings = insert k v w.db.app_settings })
    >> put_settings kv

unfoldable pub set_settings : Dict Text → Exec World (Unit {0})
unfolding transaction put_settings
set_settings kv = transaction (put_settings kv)
