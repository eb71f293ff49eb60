-- ===== src/DataLoader/Order.antt =====
-- How far `applyChanges` of dataLoader.ts gets: nothing, a part, or all of the changesets in order.
use grants_stack_indexer_v.Prelude.{
  ◌≡◌, refl, ◌∙◌, ap, String, Option, none, some, List, [], ◌∷◌, ◌++◌,
}
use grants_stack_indexer_v.Effects.{Error, Outcome, ok, err}
use grants_stack_indexer_v.Changesets.{Entities, Changeset, changeset_type}
use grants_stack_indexer_v.Repositories.{Write, Repositories}
use grants_stack_indexer_v.DataLoader.{handler, invalid_types, apply, apply_in_order}

module _ {ℓ} {E : Entities} {S Tx : Type ℓ} (r : Repositories E S Tx) where
  -- The changesets succeeded one after the other, from one world to another.
  pub data Applied (tx : Tx) : List (Changeset E) → S → S → Type ℓ where
    none_left : {s : S} → Applied tx [] s s
    then_next :
        {c : Changeset E} {cs : List (Changeset E)} {s t u : S}
        → apply r tx c s ≡ (ok tt, t)
        → Applied tx cs t u
        → Applied tx (c ∷ cs) s u

  -- A prefix succeeded, the next changeset threw, and the later ones were not tried.
  pub record StoppedAt (tx : Tx) (cs : List (Changeset E)) (s : S) (e : Error) (u : S)
      : Type ℓ where
    pub done : List (Changeset E)
    pub failing : Changeset E
    pub later : List (Changeset E)
    pub parts : cs ≡ done ++ (failing ∷ later)
    pub reached : S
    pub applied : Applied tx done s reached
    pub threw : apply r tx failing reached ≡ (err e, u)

  -- what the loop did, by its outcome
  unfoldable pub Progress : Tx → List (Changeset E) → S → Outcome (Unit {0}) × S → Type ℓ
  Progress tx cs s (ok _, t) = Applied tx cs s t
  Progress tx cs s (err e, t) = StoppedAt tx cs s e t

  Progress-after :
      (tx : Tx) (c : Changeset E) (cs : List (Changeset E)) (s t : S) (o : Outcome (Unit {0}) × S)
      → apply r tx c s ≡ (ok tt, t)
      → Progress tx cs t o
      → Progress tx (c ∷ cs) s o
  unfolding Progress
  Progress-after tx c cs s t (ok _, u) step applied = then_next step applied
  Progress-after tx c cs s t (err e, u) step stopped = record {
    done = c ∷ stopped.done;
    failing = stopped.failing;
    later = stopped.later;
    parts = ap (λ l. c ∷ l) stopped.parts;
    reached = stopped.reached;
    applied = then_next step stopped.applied;
    threw = stopped.threw;
  }

  -- The loop applies the changesets in order and stops at the first one that throws, whose error it
  -- throws.
  pub apply_in_order-Progress :
      (tx : Tx) (cs : List (Changeset E)) (s : S) → Progress tx cs s (apply_in_order r cs tx s)
  unfolding apply_in_order Progress
  apply_in_order-Progress tx [] s = none_left
  apply_in_order-Progress tx (c ∷ cs) s =
      by_outcome (apply r tx c s) refl (λ t. apply_in_order-Progress tx cs t)
    where
      by_outcome :
          (o : Outcome (Unit {0}) × S)
          → apply r tx c s ≡ o
          → ((t : S) → Progress tx cs t (apply_in_order r cs tx t))
          → Progress tx (c ∷ cs) s (apply_in_order r (c ∷ cs) tx s)
      by_outcome (ok _, t) step others = rw (step) (Progress-after tx c cs s t _ step (others t))
      by_outcome (err e, t) step others = rw (step) (record {
        done = [];
        failing = c;
        later = cs;
        parts = refl;
        reached = s;
        applied = none_left;
        threw = step;
      })

  -- After a prefix that succeeds, the loop is at the next changeset.
  pub apply_in_order-Applied :
      {tx : Tx} {done : List (Changeset E)} {s t : S} (later : List (Changeset E))
      → Applied tx done s t
      → apply_in_order r (done ++ later) tx s ≡ apply_in_order r later tx t
  unfolding apply_in_order
  apply_in_order-Applied later none_left = refl
  apply_in_order-Applied later (then_next step applied) =
      rw (step) (apply_in_order-Applied later applied)

  has_handler :
      (tx : Tx) (c : Changeset E) (types : List String) (s t : S) (o : Option (Write S Tx))
      → handler r c ≡ o
      → apply r tx c s ≡ (ok tt, t)
      → (elim o [ none ↦ changeset_type c ∷ types | some write ↦ types ]) ≡ types
  unfolding apply
  has_handler tx c types s t none h step = cc (rw (h, apply) at step)
  has_handler tx c types s t (some w) h step = refl

  -- A changeset that succeeded has a handler.
  pub invalid_types-Applied :
      {tx : Tx} {done : List (Changeset E)} {s t : S} (later : List (Changeset E))
      → Applied tx done s t
      → invalid_types r (done ++ later) ≡ invalid_types r later
  unfolding invalid_types
  invalid_types-Applied later none_left = refl
  invalid_types-Applied later (then_next {c} {cs} {s} {t} step applied) =
      has_handler _ c _ s t (handler r c) refl step ∙ invalid_types-Applied later applied
