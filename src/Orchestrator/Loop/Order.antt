-- ===== src/Orchestrator/Loop/Order.antt =====
-- `run` of orchestrator.ts: the events of the queue are taken in order, one in each round.
use grants_stack_indexer_v.Prelude.{
  ℕ, suc, ◌≡◌, refl, sym, ◌∙◌, subst, ap, false, Bool-cases, inl, inr, Option, none, some, List,
  ◌∷◌, length, ◌==◌, arith,
}
use grants_stack_indexer_v.Effects.{
  Error, retriable, unsupported_strategy, invalid_event, unsupported_event, other_value, Outcome,
  ok, err,
}
use grants_stack_indexer_v.Changesets.{Entities, NewProcessedEvent}
use grants_stack_indexer_v.Queue.{Queue, pop}
use grants_stack_indexer_v.Queue.Represents.{Represents}
use grants_stack_indexer_v.Queue.Refine.{pop-Represents, is_empty_lem}
use grants_stack_indexer_v.Events.{AnyEvent}
use grants_stack_indexer_v.Orchestrator.{
  Dependencies, State, should_ignore_timestamps_updated_error,
}
use grants_stack_indexer_v.Orchestrator.Handling.{Current}
use grants_stack_indexer_v.Orchestrator.Loop.{
  refill, after_execute, after_pop, after_refill, handle_error, after_save, report, notify_in,
  iteration,
}
use grants_stack_indexer_v.Orchestrator.Loop.Records.{IsRecording, Recorded, after_pop-Recorded}

suc_not_zero : (n : ℕ) → (suc n == 0) ≡ false
suc_not_zero n = ground arith

module _ {ℓ} {P S : Type ℓ} where
  abbrev queue_of :
      Queue (AnyEvent P) → Option (Outcome (Unit {0}) × State P S) → Queue (AnyEvent P)
  queue_of q none = q
  queue_of q (some r) = r.1.events_queue

module _ {ℓ} {E : Entities} {P S Tx : Type ℓ} (d : Dependencies E P S Tx) where
  report_queue :
      (error : Error) (event : Option (AnyEvent P)) (st : State P S)
      → (report d error event st).events_queue ≡ st.events_queue
  unfolding report notify_in
  report_queue unsupported_strategy event st = refl
  report_queue invalid_event event st = refl
  report_queue unsupported_event event st = refl
  report_queue (retriable r) event st = refl
  report_queue other_value event st = refl
  report_queue error event st =
      elim (Bool-cases
        (should_ignore_timestamps_updated_error st.events_by_block_context error event)) [
          | inl ignored ↦ rw (ignored) refl
          | inr loud ↦ rw (loud) refl
        ]

  after_save_queue :
      (error : Error) (event : Option (AnyEvent P)) (st : State P S) (o : Outcome (Unit {0}) × S)
      → (after_save d error event st o).1.events_queue ≡ st.events_queue
  unfolding after_save
  after_save_queue error event st (ok _, s) = report_queue error event (record st { world = s })
  after_save_queue error event st (err e, s) = refl

  after_execute_queue :
      (st : State P S) (o : Option (Outcome (Option (Unit {0})) × Current P S))
      (r : Outcome (Unit {0}) × State P S)
      → after_execute d st o ≡ some r
      → r.1.events_queue ≡ st.events_queue
  unfolding after_execute handle_error
  after_execute_queue st none r h = cc (h)
  after_execute_queue st (some (ok a, (event, s))) r h = sym (ap (queue_of st.events_queue) h)
  after_execute_queue st (some (err e, (event, s))) r h =
      sym (ap (queue_of st.events_queue) h)
      ∙ after_save_queue e (some event) (record st { world = s }) _

  after_pop_queue :
      (fuel : ℕ) (st : State P S) (event : Option (AnyEvent P)) (r : Outcome (Unit {0}) × State P S)
      → after_pop d fuel st event ≡ some r
      → r.1.events_queue ≡ st.events_queue
  unfolding after_pop
  after_pop_queue fuel st none r h = sym (ap (queue_of st.events_queue) h)
  after_pop_queue fuel st (some event) r h = after_execute_queue st _ r h

  -- a round that starts with events in the queue does not fetch
  pub no_fetch :
      (fuel : ℕ) (st : State P S) (taken : AnyEvent P) (xs : List (AnyEvent P))
      → Represents st.events_queue (taken ∷ xs)
      → iteration d fuel st
        ≡ after_pop d fuel (record st { events_queue = (pop st.events_queue).1 }) (some taken)
  unfolding iteration refill after_refill
  no_fetch fuel st taken xs q =
      rw (is_empty_lem st.events_queue (taken ∷ xs) q, suc_not_zero (length xs))
        (ap (after_pop d fuel (record st { events_queue = (pop st.events_queue).1 }))
          (pop-Represents st.events_queue (taken ∷ xs) q).0)

  module _ {D : Type ℓ} (stored : S → D) (last : S → Option (NewProcessedEvent E))
      (laws : IsRecording d stored last) where
    -- A round that starts with events in the queue and does not end `run` takes the first one, records it
    -- as the last one processed, whatever happened to it, and leaves the others in their order.
    pub iteration-Recorded :
        (fuel : ℕ) (st st' : State P S) (taken : AnyEvent P) (xs : List (AnyEvent P))
        → Represents st.events_queue (taken ∷ xs)
        → iteration d fuel st ≡ some (ok tt, st')
        → Recorded d stored last laws taken st'.world × Represents st'.events_queue xs
    iteration-Recorded fuel st st' taken xs q h =
        let popped = sym (no_fetch fuel st taken xs q) ∙ h in
        (
          after_pop-Recorded d stored last laws fuel taken _ st' popped,
          subst (λ r. Represents r xs) (sym (after_pop_queue fuel _ (some taken) _ popped))
              (pop-Represents st.events_queue (taken ∷ xs) q).1,
        )
