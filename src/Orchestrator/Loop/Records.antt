-- ===== src/Orchestrator/Loop/Records.antt =====
-- `run` of orchestrator.ts: an event that was taken from the queue is recorded as the last one processed.
use grants_stack_indexer_v.Prelude.{
  ℕ, ◌≡◌, refl, ◌∙◌, subst, ap, String, Bool-cases, inl, inr, Option, none, some, List, [], ◌∷◌,
  ◌++◌,
}
use grants_stack_indexer_v.Effects.{
  Error, retriable, unsupported_strategy, invalid_event, unsupported_event, other_value, Outcome,
  ok, err,
}
use grants_stack_indexer_v.Effects.Keeps.{bind_gives}
use grants_stack_indexer_v.Changesets.{
  Entities, Changeset, NewProcessedEvent, insert_processed_event,
}
use grants_stack_indexer_v.DataLoader.{apply, handler, apply_changes}
use grants_stack_indexer_v.DataLoader.Order.{Applied, none_left, then_next}
use grants_stack_indexer_v.DataLoader.Atomic.{IsTransactional}
use grants_stack_indexer_v.DataLoader.Outcomes.{Committed, apply_changes-Committed}
use grants_stack_indexer_v.Retry.{wait}
use grants_stack_indexer_v.Retry.Keeps.{Left, no_fuel, result, failure, execute-Left}
use grants_stack_indexer_v.Events.{AnyEvent}
use grants_stack_indexer_v.Orchestrator.{
  Dependencies, State, should_ignore_timestamps_updated_error,
}
use grants_stack_indexer_v.Orchestrator.Handling.{
  Current, handle_event, new_processed_event, with_processed, load, operation,
}
use grants_stack_indexer_v.Orchestrator.Handling.Taken.{
  IsTaken, with_id, handle_keeps, operation_keeps, elsewhere,
}
use grants_stack_indexer_v.Orchestrator.Loop.{
  strategy_beside, surroundings_beside, after_execute, after_pop, handle_error, after_save,
  save_event, report, notify_in,
}

module _ {ℓ} {E : Entities} {P S Tx : Type ℓ} (d : Dependencies E P S Tx) where
  -- What is expected of the database: `last` is the event recorded for the chain, which a save that returns
  -- sets, on whichever connection, and which a commit that returns and a notification leave alone.
  pub record IsRecording {D : Type ℓ} (stored : S → D) (last : S → Option (NewProcessedEvent E))
      : Type ℓ where
    pub transactions : IsTransactional stored d.transaction_manager
    pub saves :
        (event : NewProcessedEvent E) (tx : Option Tx) (s : S)
        → (d.repositories.event_registry.save_last_processed_event d.chain_id event tx s).0 ≡ ok tt
        → last (d.repositories.event_registry.save_last_processed_event d.chain_id event tx s).1
          ≡ some event
    pub commits : (tx : Tx) (s t : S) → transactions.commit tx s ≡ (ok tt, t) → last t ≡ last s
    pub notifies :
        (error : Error) (event : Option (AnyEvent P)) (s : S)
        → last (d.notify error event s) ≡ last s

  module _ {D : Type ℓ} (stored : S → D) (last : S → Option (NewProcessedEvent E))
      (laws : IsRecording stored last) where
    Applied-last :
        (tx : Tx) (cs : List (Changeset E)) (event : NewProcessedEvent E) (s u : S)
        → Applied d.repositories tx (cs ++ (insert_processed_event d.chain_id event ∷ [])) s u
        → last u ≡ some event
    unfolding apply handler
    Applied-last tx [] event s u (then_next step none_left) =
        subst (λ (w : S). last w ≡ some event) (ap (λ o. o.1) step)
          (laws.saves event (some tx) s (ap (λ o. o.0) step))
    Applied-last tx (c ∷ cs) event s u (then_next step applied) =
        Applied-last tx cs event _ u applied

    ends_with :
        (event : AnyEvent P) (changesets : Option (List (Changeset E)))
        → (cs : List (Changeset E)) × (with_processed d event changesets
            ≡ cs ++ (insert_processed_event d.chain_id (new_processed_event d event) ∷ []))
    unfolding with_processed
    ends_with event none = ([], refl)
    ends_with event (some cs) = (cs, refl)

    Committed-last :
        (event : AnyEvent P) (changesets : Option (List (Changeset E))) (s u : S)
        → Committed d.repositories stored d.transaction_manager laws.transactions
            (with_processed d event changesets)
            s
            u
        → last u ≡ some (new_processed_event d event)
    Committed-last event changesets s u c =
        let (cs, e) = ends_with event changesets in
        laws.commits c.tx c.changed u c.committed
        ∙ Applied-last c.tx cs (new_processed_event d event) c.begun c.changed
            (subst (λ l. Applied d.repositories c.tx l c.begun c.changed) e c.applied)

    -- the world has the event at hand as the last one processed
    abbrev HasRecorded : Current P S → Type 0
    HasRecorded c = last c.1 ≡ some (new_processed_event d c.0)

    load_records :
        (changesets : Option (List (Changeset E))) (c : Current P S)
        → (load d changesets c).0 ≡ ok tt
        → HasRecorded (load d changesets c).1
    unfolding load
    load_records changesets (event, s) h = Committed-last event changesets s _ (
        apply_changes-Committed d.repositories stored d.transaction_manager laws.transactions _ s _
          (pair h))
      where
        pair :
            (apply_changes d.repositories d.transaction_manager
                (with_processed d event changesets)
                s).0
              ≡ ok tt
            → apply_changes d.repositories d.transaction_manager
                (with_processed d event changesets)
                s
              ≡ (
                ok tt,
                (apply_changes d.repositories d.transaction_manager
                    (with_processed d event changesets)
                    s).1,
              )
        pair e =
            ap
              (λ o. (
                o,
                (apply_changes d.repositories d.transaction_manager
                    (with_processed d event changesets) s).1,
              ))
              e

    operation_records :
        (taken : AnyEvent P) (c : Current P S) (a : Unit {0})
        → IsTaken taken c
        → (operation d c).0 ≡ ok a
        → HasRecorded (operation d c).1
    unfolding operation
    operation_records taken c a i h =
        bind_gives (IsTaken taken) (handle_event d) (load d) (λ b. HasRecorded)
          (handle_keeps d taken) (λ changesets t b j e. load_records changesets t e) c a i h

    -- The event taken is recorded, with the strategy id that it has got.
    pub record Recorded (taken : AnyEvent P) (s : S) : Type ℓ where
      pub id : Option String
      pub is_last : last s ≡ some (new_processed_event d (with_id id taken))

    recorded :
        (taken : AnyEvent P) (event : AnyEvent P) (s t : S)
        → IsTaken taken (event, s)
        → last t ≡ some (new_processed_event d event)
        → Recorded taken t
    recorded taken event s t i h = record {
      id = i.id;
      is_last = h ∙ ap (λ e. some (new_processed_event d e)) i.same;
    }

    notified_last :
        (error : Error) (event : Option (AnyEvent P)) (st : State P S)
        → last (notify_in d error event st).world ≡ last st.world
    unfolding notify_in
    notified_last error event st = laws.notifies error event st.world

    last-report :
        (error : Error) (event : Option (AnyEvent P)) (st : State P S)
        → last (report d error event st).world ≡ last st.world
    unfolding report
    last-report unsupported_strategy event st = refl
    last-report invalid_event event st = refl
    last-report unsupported_event event st = refl
    last-report (retriable r) event st = notified_last (retriable r) event st
    last-report other_value event st = notified_last other_value event st
    last-report error event st =
        elim (Bool-cases
          (should_ignore_timestamps_updated_error st.events_by_block_context error event)) [
            | inl ignored ↦ rw (ignored) refl
            | inr loud ↦ rw (loud) (notified_last error event st)
          ]

    saved_last :
        (error : Error) (event : AnyEvent P) (st st' : State P S) (o : Outcome (Unit {0}) × S)
        → (o.0 ≡ ok tt → last o.1 ≡ some (new_processed_event d event))
        → after_save d error (some event) st o ≡ (ok tt, st')
        → last st'.world ≡ some (new_processed_event d event)
    unfolding after_save
    saved_last error event st st' (ok _, s) saved h =
        subst (λ (w : State P S). last w.world ≡ some (new_processed_event d event))
          (ap (λ o. o.1) h) (last-report error (some event) _ ∙ saved refl)
    saved_last error event st st' (err e, s) saved h = cc (h)

    handled_last :
        (error : Error) (event : AnyEvent P) (st st' : State P S)
        → handle_error d error (some event) st ≡ (ok tt, st')
        → last st'.world ≡ some (new_processed_event d event)
    unfolding handle_error save_event
    handled_last error event st st' h =
        saved_last error event st st' _ (laws.saves (new_processed_event d event) none st.world) h

    some-inj : {A : Type ℓ} (x y : A) → some x ≡ some y → x ≡ y
    some-inj x y e = cc (e)

    after_execute-Recorded :
        (taken : AnyEvent P) (st st' : State P S)
        (o : Option (Outcome (Option (Unit {0})) × Current P S))
        → Left (IsTaken taken) HasRecorded o
        → after_execute d st o ≡ some (ok tt, st')
        → Recorded taken st'.world
    unfolding after_execute
    after_execute-Recorded taken st st' _ no_fuel h = cc (h)
    after_execute-Recorded taken st st' _ (result a (event, s) i q) h =
        subst (λ (w : State P S). Recorded taken w.world) (ap (λ o. o.1) (some-inj _ _ h))
          (recorded taken event s s i q)
    after_execute-Recorded taken st st' _ (failure e (event, s) i) h =
        recorded taken event s st'.world i
          (handled_last e event (record st { world = s }) st' (some-inj _ _ h))

    waits_keep :
        (taken : AnyEvent P) (n : ℕ) (r : Option ℕ) (c : Current P S)
        → IsTaken taken c
        → IsTaken taken (wait (strategy_beside d) (surroundings_beside d) n r c)
    unfolding wait
    waits_keep taken n r (event, s) i = elsewhere taken event s _ i

    -- If a round of the loop takes an event and `run` goes on after it, then the event is recorded as the
    -- last one processed, whether it was handled, skipped, given up after retries, or failed in any way.
    pub after_pop-Recorded :
        (fuel : ℕ) (taken : AnyEvent P) (st st' : State P S)
        → after_pop d fuel st (some taken) ≡ some (ok tt, st')
        → Recorded taken st'.world
    unfolding after_pop
    after_pop-Recorded fuel taken st st' h =
        after_execute-Recorded taken st st' _
          (execute-Left (strategy_beside d) (surroundings_beside d) (operation d) (IsTaken taken)
            HasRecorded (operation_keeps d taken) (operation_records taken) (waits_keep taken) fuel
            (taken, st.world) (record { id = taken.strategy_id; same = refl }))
          h
