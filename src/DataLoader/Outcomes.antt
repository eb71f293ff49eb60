-- ===== src/DataLoader/Outcomes.antt =====
-- `applyChanges` of dataLoader.ts: what it has done when it returns, and when it refuses.
use grants_stack_indexer_v.Prelude.{
  ◌≡◌, refl, sym, ◌∙◌, String, Option, none, some, List, [], ◌∷◌, ◌++◌,
}
use grants_stack_indexer_v.Effects.{invalid_changeset, Outcome, ok, err, continue_with}
use grants_stack_indexer_v.Changesets.{Entities, Changeset, changeset_type}
use grants_stack_indexer_v.Repositories.{Write, Repositories, TransactionManager}
use grants_stack_indexer_v.DataLoader.{
  handler, invalid_types, apply_in_order, run_or_refuse, apply_changes,
}
use grants_stack_indexer_v.DataLoader.Order.{Applied, Progress, apply_in_order-Progress}
use grants_stack_indexer_v.DataLoader.Atomic.{finish, IsTransactional}

module _ {ℓ} {E : Entities} {S Tx : Type ℓ} (r : Repositories E S Tx) where
  invalid_ne :
      (before : List (Changeset E)) (c : Changeset E) (later : List (Changeset E))
      → handler r c ≡ none
      → (type : String) × (types : List String) × (invalid_types r (before ++ (c ∷ later))
          ≡ type ∷ types)
  unfolding invalid_types
  invalid_ne [] c later missing =
      (changeset_type c, invalid_types r later, rw (missing, invalid_types) refl)
  invalid_ne (b ∷ before) c later missing =
      by_handler (handler r b) refl (invalid_ne before c later missing)
    where
      by_handler :
          (o : Option (Write S Tx))
          → handler r b ≡ o
          → (type : String) × (types : List String) × (invalid_types r (before ++ (c ∷ later))
              ≡ type ∷ types)
          → (type : String) × (types : List String) × (invalid_types r (b ∷ (before ++ (c ∷ later)))
              ≡ type ∷ types)
      by_handler none h others =
          (changeset_type b, invalid_types r (before ++ (c ∷ later)), rw (h, invalid_types) refl)
      by_handler (some w) h (type, types, e) = (type, types, rw (h, invalid_types) e)

  -- If a changeset has no handler, `applyChanges` throws the types of all that have none, and touches
  -- nothing, wherever in the sequence it stands.
  apply_changes_invalid :
      (manager : TransactionManager S Tx) (before : List (Changeset E)) (c : Changeset E)
      (later : List (Changeset E)) (s : S)
      → handler r c ≡ none
      → apply_changes r manager (before ++ (c ∷ later)) s
        ≡ (err (invalid_changeset (invalid_types r (before ++ (c ∷ later)))), s)
  unfolding apply_changes run_or_refuse
  apply_changes_invalid manager before c later s missing =
      let (type, types, e) = invalid_ne before c later missing in rw (e, run_or_refuse) refl

  module _ {D : Type ℓ} (stored : S → D) (manager : TransactionManager S Tx)
      (laws : IsTransactional stored manager) where
    -- a transaction began, all the changesets succeeded in it, in order, and it was committed
    pub record Committed (cs : List (Changeset E)) (s u : S) : Type ℓ where
      pub tx : Tx
      pub begun : S
      pub changed : S
      pub began : laws.begin s ≡ (ok tx, begun)
      pub applied : Applied r tx cs begun changed
      pub committed : laws.commit tx changed ≡ (ok tt, u)

    Committed-after :
        (cs : List (Changeset E)) (s u begun : S) (tx : Tx) (o : Outcome (Unit {0}) × S)
        → laws.begin s ≡ (ok tx, begun)
        → Progress r tx cs begun o
        → finish laws.commit laws.rollback tx o ≡ (ok tt, u)
        → Committed cs s u
    unfolding Progress
    Committed-after cs s u begun tx (ok _, t) began applied h = record {
      tx = tx;
      begun = begun;
      changed = t;
      began = began;
      applied = applied;
      committed = h;
    }
    Committed-after cs s u begun tx (err e, t) began stopped h = cc (h)

    begun_Committed :
        (cs : List (Changeset E)) (s u : S) (o : Outcome Tx × S)
        → laws.begin s ≡ o
        → continue_with (λ tx t. finish laws.commit laws.rollback tx (apply_in_order r cs tx t)) o
          ≡ (ok tt, u)
        → Committed cs s u
    begun_Committed cs s u (err e, t) began h = cc (h)
    begun_Committed cs s u (ok tx, t) began h =
        Committed-after cs s u t tx _ began (apply_in_order-Progress r tx cs t) h

    run_Committed :
        (cs : List (Changeset E)) (types : List String) (s u : S)
        → run_or_refuse r manager cs types s ≡ (ok tt, u)
        → Committed cs s u
    unfolding run_or_refuse
    run_Committed cs (type ∷ types) s u h = cc (h)
    run_Committed cs [] s u h = begun_Committed cs s u (laws.begin s) refl (sym (laws.runs _ s) ∙ h)

    -- If `applyChanges` returns, a transaction began in which every changeset was applied, in the order
    -- given, and it was committed, given that transactions do what is documented.
    pub apply_changes-Committed :
        (cs : List (Changeset E)) (s u : S)
        → apply_changes r manager cs s ≡ (ok tt, u)
        → Committed cs s u
    unfolding apply_changes
    apply_changes-Committed cs s u h = run_Committed cs (invalid_types r cs) s u h
