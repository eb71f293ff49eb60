-- ===== src/DataLoader/Atomic.antt =====
-- `applyChanges` of dataLoader.ts as one transaction. What the database's library promises of
-- `runInTransaction` is a record of laws.
use grants_stack_indexer_v.Prelude.{◌≡◌, refl, sym, ◌∙◌, ap, String, List, [], ◌∷◌}
use grants_stack_indexer_v.Effects.{Error, Outcome, ok, err, Action, continue_with, ◌>>=◌}
use grants_stack_indexer_v.Changesets.{Entities, Changeset}
use grants_stack_indexer_v.Repositories.{Repositories, TransactionManager}
use grants_stack_indexer_v.DataLoader.{
  invalid_types, apply, apply_in_order, run_or_refuse, apply_changes,
}

module _ {ℓ} {S Tx : Type ℓ} where
  -- commit after a return, roll back after a throw
  abbrev pub finish :
      (Tx → Action S (Unit {0}))
      → (Tx → S → S)
      → Tx
      → Outcome (Unit {0}) × S
      → Outcome (Unit {0}) × S
  finish commit rollback tx (ok _, s) = commit tx s
  finish commit rollback tx (err e, s) = (err e, rollback tx s)

  -- What is documented of transactions, where `stored` is what others see of the database.
  pub record IsTransactional {D : Type ℓ} (stored : S → D) (manager : TransactionManager S Tx)
      : Type ℓ where
    pub begin : Action S Tx
    pub commit : Tx → Action S (Unit {0})
    pub rollback : Tx → S → S
    pub runs :
        (f : Tx → Action S (Unit {0})) (s : S)
        → manager.run_in_transaction f s ≡ (begin >>= λ tx t. finish commit rollback tx (f tx t)) s
    pub begin_keeps : (s : S) → stored (begin s).1 ≡ stored s
    pub rollback_keeps : (tx : Tx) (s : S) → stored (rollback tx s) ≡ stored s
    pub commit_keeps :
        (tx : Tx) (s : S) (e : Error) → (commit tx s).0 ≡ err e → stored (commit tx s).1 ≡ stored s

module _ {ℓ} {E : Entities} {S Tx : Type ℓ} (r : Repositories E S Tx) where
  -- Until the transaction is committed, what others see does not change by these changesets.
  pub data Invisible {D : Type ℓ} (stored : S → D) : List (Changeset E) → Type ℓ where
    no_change : Invisible stored []
    also :
        {c : Changeset E} {cs : List (Changeset E)}
        → ((tx : Tx) (s : S) → stored (apply r tx c s).1 ≡ stored s)
        → Invisible stored cs
        → Invisible stored (c ∷ cs)

  module _ {D : Type ℓ} (stored : S → D) where
    in_order_keeps :
        (tx : Tx) (cs : List (Changeset E)) (s : S)
        → Invisible stored cs
        → stored (apply_in_order r cs tx s).1 ≡ stored s
    unfolding apply_in_order
    in_order_keeps tx [] s h = refl
    in_order_keeps tx (c ∷ cs) s (also keeps h) =
        by_outcome (apply r tx c s) (keeps tx s) (λ t. in_order_keeps tx cs t h)
      where
        by_outcome :
            (o : Outcome (Unit {0}) × S)
            → stored o.1 ≡ stored s
            → ((t : S) → stored (apply_in_order r cs tx t).1 ≡ stored t)
            → stored (continue_with (λ _ t. apply_in_order r cs tx t) o).1 ≡ stored s
        by_outcome (ok _, t) kept others = others t ∙ kept
        by_outcome (err e, t) kept others = kept

    module _ (manager : TransactionManager S Tx) (laws : IsTransactional stored manager) where
      finish_keeps :
          (tx : Tx) (o : Outcome (Unit {0}) × S) (e : Error)
          → (finish laws.commit laws.rollback tx o).0 ≡ err e
          → stored (finish laws.commit laws.rollback tx o).1 ≡ stored o.1
      finish_keeps tx (ok _, t) e h = laws.commit_keeps tx t e h
      finish_keeps tx (err e', t) e h = laws.rollback_keeps tx t

      begun_keeps :
          (cs : List (Changeset E)) (o : Outcome Tx × S) (e : Error)
          → Invisible stored cs
          → let after =
              continue_with
                (λ tx t. finish laws.commit laws.rollback tx (apply_in_order r cs tx t))
                o in
            after.0 ≡ err e → stored after.1 ≡ stored o.1
      begun_keeps cs (err e', t) e h failed = refl
      begun_keeps cs (ok tx, t) e h failed =
          finish_keeps tx (apply_in_order r cs tx t) e failed ∙ in_order_keeps tx cs t h

      refused_keeps :
          (cs : List (Changeset E)) (types : List String) (s : S) (e : Error)
          → Invisible stored cs
          → (run_or_refuse r manager cs types s).0 ≡ err e
          → stored (run_or_refuse r manager cs types s).1 ≡ stored s
      unfolding run_or_refuse
      refused_keeps cs (type ∷ types) s e h failed = refl
      refused_keeps cs [] s e h failed = rw (laws.runs (apply_in_order r cs) s) (
          begun_keeps cs (laws.begin s) e h (sym (ap (λ o. o.0) (laws.runs _ s)) ∙ failed)
          ∙ laws.begin_keeps s)

      -- If `applyChanges` throws, for a changeset without a handler, at a changeset, at the start or at
      -- the commit of the transaction, then what others see of the database is as before, given that
      -- transactions do what is documented and that the handlers of the changesets write within it.
      pub apply_changes-atomic :
          (cs : List (Changeset E)) (s : S) (e : Error)
          → Invisible stored cs
          → (apply_changes r manager cs s).0 ≡ err e
          → stored (apply_changes r manager cs s).1 ≡ stored s
      unfolding apply_changes
      apply_changes-atomic cs s e h failed = refused_keeps cs (invalid_types r cs) s e h failed
