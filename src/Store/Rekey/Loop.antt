-- ===== src/Store/Rekey/Loop.antt =====
-- What the writing loop of internal/store/rekey.go does to each ciphertext.
use grafted_keys.Prelude.{
  ◌≡◌, ◌∙◌, sym, ap, true, false, ◌&&◌, Option, some, List, [], ◌∷◌, arith, Bytes, Text, same, All,
  ltb, length,
}
use mathlib.Core.List.{Memᴰ}
use grafted_keys.Exec.{ok}
use grafted_keys.Store.Schema.{Db, World}
use grafted_keys.Store.Atomic.{Quiet}
use grafted_keys.Store.Ensures.{
  Ensures, Ensures-bind, Ensures-read, Ensures-pure, Ensures-execute, Ensures-with,
}
use grafted_keys.Store.Rekey.{Column, Rec, Transform, write_column, write_recs}
use grafted_keys.Store.Rekey.Cells.{
  same_column, cell, cell-write_column_self, cell-write_column_other, Placed,
}
use grafted_keys.Store.Rekey.Recs.{Apart, Distinct, IsPlaced}

-- A transformation that touches nothing and relates what it is given to what it returns, which is
-- not empty.
pub record Relates (R : Column → Text → Bytes → Bytes → Type 0) (t : Transform) : Type 0 where
  pub quiet : (c : Column) (id : Text) (b : Bytes) → Quiet (t c id b)
  pub related :
      (c : Column) (id : Text) (b nb : Bytes) (w : World)
      → (t c id b w).0 ≡ ok nb
      → (ltb 0 (length nb) ≡ true) × R c id b nb

All-Mem : (P : Rec → Type 0) (r : Rec) (recs : List Rec) → All P recs → Memᴰ r recs → P r
All-Mem P r [] h m = elim m [ ]
All-Mem P r (x ∷ recs) (p, h) (Memᴰ.head e) = rw e p
All-Mem P r (x ∷ recs) (p, h) (Memᴰ.tail m) = All-Mem P r recs h m

Apart-sym :
    (c d : Column) (id k : Text)
    → (same_column d c && same id k) ≡ false
    → (same_column c d && same k id) ≡ false
Apart-sym c d id k h = ground arith

module _ (R : Column → Text → Bytes → Bytes → Type 0) (t : Transform) (h : Relates R t) where
  abbrev pub Replaced : Column → Text → Bytes → Db → Type 0
  Replaced c id b db = (nb : Bytes) × (cell c id db ≡ some nb) × R c id b nb

  pub write_recs_away :
      (c : Column) (id : Text) (b : Bytes) (o : Option Bytes) (recs : List Rec)
      → All IsPlaced recs
      → All (Apart (c, id, b)) recs
      → Ensures (λ db. cell c id db ≡ o) (write_recs t recs) (λ _ db. cell c id db ≡ o)
  unfolding write_recs
  write_recs_away c id b o [] p a = Ensures-pure tt _ λ db e. e
  write_recs_away c id b o ((d, k, x) ∷ recs) (p, ps) (q, qs) =
      Ensures-read (t d k x) _ _ (h.quiet d k x) λ nb.
        Ensures-bind _ _ (λ _ db. cell c id db ≡ o) _
          (Ensures-execute (λ _. true) (λ w. write_column d k nb w.db) _
            λ w e _. cell-write_column_other c d id k nb w.db p q ∙ e)
          λ _. write_recs_away c id b o recs ps qs

  write_recs_first :
      (c : Column) (id : Text) (b : Bytes) (recs : List Rec)
      → Placed c id
      → All IsPlaced recs
      → All (Apart (c, id, b)) recs
      → Ensures
          (λ db. cell c id db ≡ some b)
          (write_recs t ((c, id, b) ∷ recs))
          (λ _ db. Replaced c id b db)
  unfolding write_recs
  write_recs_first c id b recs p ps u =
      Ensures-bind (t c id b) _
        (λ nb db. (cell c id db ≡ some b) × (ltb 0 (length nb) ≡ true) × R c id b nb) _
        (record {
          at = λ w nb e r.
              let (l, q) = h.related c id b nb w r in
              (ap (cell c id) ((h.quiet c id b).at w) ∙ e, l, q);
        })
        λ nb.
          Ensures-bind _ _ (λ _ db. (cell c id db ≡ some nb) × R c id b nb) _
            (Ensures-execute (λ _. true) (λ w. write_column c id nb w.db) _
              λ w (e, l, q) _. (cell-write_column_self c id nb b w.db p l e, q))
            λ _. Ensures-with (write_recs_away c id b (some nb) recs ps u) λ _ db e q. (nb, e, q)

  write_recs_head :
      (c : Column) (id : Text) (b : Bytes) (r : Rec) (recs : List Rec)
      → All IsPlaced (r ∷ recs)
      → All (Apart r) recs
      → (c, id, b) ≡ r
      → Ensures (λ db. cell c id db ≡ some b) (write_recs t (r ∷ recs)) (λ _ db. Replaced c id b db)
  write_recs_head c id b r recs p u e = subst_head (sym e)
    where
      subst_head :
          r ≡ (c, id, b)
          → Ensures
              (λ db. cell c id db ≡ some b)
              (write_recs t (r ∷ recs))
              (λ _ db. Replaced c id b db)
      subst_head q = rw q (write_recs_first c id b recs (rw q at p).0 (rw q at p).1 (rw q at u))

  -- A ciphertext that was collected is replaced by one that is related to it.
  pub write_recs-cell :
      (c : Column) (id : Text) (b : Bytes) (recs : List Rec)
      → All IsPlaced recs
      → Distinct recs
      → Memᴰ (c, id, b) recs
      → Ensures (λ db. cell c id db ≡ some b) (write_recs t recs) (λ _ db. Replaced c id b db)
  unfolding write_recs
  write_recs-cell c id b [] p u m = elim m [ ]
  write_recs-cell c id b ((d, k, x) ∷ recs) (p, ps) (u, us) (Memᴰ.head e) =
      write_recs_head c id b (d, k, x) recs (p, ps) u e
  write_recs-cell c id b ((d, k, x) ∷ recs) (p, ps) (u, us) (Memᴰ.tail m) =
      Ensures-read (t d k x) _ _ (h.quiet d k x) λ nb.
        Ensures-bind _ _ (λ _ db. cell c id db ≡ some b) _
          (Ensures-execute (λ _. true) (λ w. write_column d k nb w.db) _
            λ w e _.
              cell-write_column_other c d id k nb w.db p
                (Apart-sym c d id k (All-Mem (Apart (d, k, x)) (c, id, b) recs u m))
              ∙ e)
          λ _. write_recs-cell c id b recs ps us m
