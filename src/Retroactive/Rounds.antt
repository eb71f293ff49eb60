-- ===== src/Retroactive/Rounds.antt =====
-- The loop of `processRetroactiveStrategy` of retroactiveProcessor.ts: when it is over.
use grants_stack_indexer_v.Prelude.{
  ℕ, zero, suc, ◌≡◌, refl, sym, subst, ap, String, true, false, Bool-cases, inl, inr, Option, none,
  some, List, [], ◌∷◌, length, ◌==◌, arith,
}
use grants_stack_indexer_v.Effects.{Error, Outcome, ok, err}
use grants_stack_indexer_v.Queue.{Queue, pop}
use grants_stack_indexer_v.Queue.Represents.{Represents}
use grants_stack_indexer_v.Queue.Refine.{push-Represents, pop-Represents, is_empty_lem}
use grants_stack_indexer_v.Changesets.{Entities}
use grants_stack_indexer_v.Events.{AnyEvent}
use grants_stack_indexer_v.Retroactive.{
  EventPointer, has_reached_last_event, RetroactiveDependencies, StrategyProgress, Exit, broke,
  went_on, pointer_of, after_retries, after_events_fetch, enqueue_events_if_empty,
  process_if_before, take_event, after_enqueue, try_block, update_checkpoint, event_loop,
}

module _ {ℓ} {E : Entities} {P S Tx : Type ℓ} (d : RetroactiveDependencies E P S Tx)
    (strategy_id : String) (addresses : List String) (last : EventPointer) where
  -- The pointer is at or past the last event, or there is no event of the strategies after it.
  pub data Finished (pointer : EventPointer) : Type ℓ where
    reached : has_reached_last_event pointer last ≡ true → Finished pointer
    exhausted :
        (s t : S)
        → d.fetch_events d.chain_id addresses pointer last d.fetch_limit s ≡ (ok [], t)
        → Finished pointer

  -- what a round comes to
  data Round : Option (Exit × StrategyProgress P S) → Type ℓ where
    no_fuel : Round none
    over : (st : StrategyProgress P S) → Finished st.current_pointer → Round (some (broke, st))
    more :
        (st : StrategyProgress P S) (xs : List (AnyEvent P))
        → Represents st.events xs
        → Round (some (went_on, st))

  after_retries-Round :
      (st : StrategyProgress P S) (xs : List (AnyEvent P))
      (o : Option (Outcome (Option (Unit {0})) × S))
      → Represents st.events xs
      → Round (after_retries d st o)
  after_retries-Round st xs none q = no_fuel
  after_retries-Round st xs (some (outcome, s)) q = more (record st { world = s }) xs q

  process-Round :
      (fuel : ℕ) (st : StrategyProgress P S) (event : AnyEvent P) (xs : List (AnyEvent P))
      → st.current_pointer ≡ pointer_of event
      → Represents st.events xs
      → Round (process_if_before d strategy_id addresses last fuel st event)
  unfolding process_if_before
  process-Round fuel st event xs at_event q =
      elim (Bool-cases (has_reached_last_event (pointer_of event) last)) [
        | inl past ↦ rw (past) (over st (subst Finished (sym at_event) (reached past)))
        | inr before ↦ rw (before) (after_retries-Round st xs _ q)
      ]

  -- a round that has events in the queue
  take-Round :
      (fuel : ℕ) (st : StrategyProgress P S) (event : AnyEvent P) (xs : List (AnyEvent P))
      → Represents st.events (event ∷ xs)
      → Round (after_enqueue d strategy_id addresses last fuel (ok tt, st))
  unfolding after_enqueue take_event
  take-Round fuel st event xs q =
      subst
        (λ o. Round (
          take_event d strategy_id addresses last fuel (record st { events = (pop st.events).1 })
            o))
        (sym (pop-Represents st.events (event ∷ xs) q).0)
        (process-Round fuel _ event xs refl (pop-Represents st.events (event ∷ xs) q).1)

  fetched-Round :
      (fuel : ℕ) (st : StrategyProgress P S) (o : Outcome (List (AnyEvent P)) × S)
      → Represents st.events []
      → d.fetch_events d.chain_id addresses st.current_pointer last d.fetch_limit st.world ≡ o
      → Round (
          after_enqueue d strategy_id addresses last fuel
            (after_events_fetch d strategy_id addresses last st o))
  unfolding after_events_fetch after_enqueue take_event
  fetched-Round fuel st (err e, s) q read = more (record st { world = s }) [] q
  fetched-Round fuel st (ok (event ∷ events), s) q read =
      take-Round fuel _ event events (push-Represents st.events [] (event ∷ events) q)
  fetched-Round fuel st (ok [], s) q read =
      let after : StrategyProgress P S = record {
        events = (pop st.events).1;
        current_pointer = st.current_pointer;
        world = s;
      } in
      subst (λ o. Round (take_event d strategy_id addresses last fuel after o))
        (sym (pop-Represents st.events [] q).0) (over after (exhausted st.world s read))

  suc_not_zero : (n : ℕ) → (suc n == 0) ≡ false
  suc_not_zero n = ground arith

  try_block-Round :
      (fuel : ℕ) (st : StrategyProgress P S) (xs : List (AnyEvent P))
      → Represents st.events xs
      → Round (try_block d strategy_id addresses last fuel st)
  unfolding try_block enqueue_events_if_empty
  try_block-Round fuel st [] q = rw (is_empty_lem st.events [] q) (fetched-Round fuel st _ q refl)
  try_block-Round fuel st (event ∷ xs) q =
      rw (is_empty_lem st.events (event ∷ xs) q, suc_not_zero (length xs))
        (take-Round fuel st event xs q)

  -- What a run of the loop comes to, unless it is cut off or a checkpoint cannot be written.
  data LoopResult : Option (Outcome (Unit {0}) × StrategyProgress P S) → Type ℓ where
    cut_off : LoopResult none
    no_checkpoint : (e : Error) (st : StrategyProgress P S) → LoopResult (some (err e, st))
    finished :
        (st : StrategyProgress P S) → Finished st.current_pointer → LoopResult (some (ok tt, st))

  event_loop-LoopResult :
      (rounds fuel : ℕ) (st : StrategyProgress P S) (xs : List (AnyEvent P))
      → Represents st.events xs
      → LoopResult (event_loop d strategy_id addresses last rounds fuel st)
  unfolding event_loop update_checkpoint
  event_loop-LoopResult zero fuel st xs q = cut_off
  event_loop-LoopResult (suc rounds) fuel st xs q =
      by_round (try_block d strategy_id addresses last fuel st) (try_block-Round fuel st xs q)
        (λ st' ys q'. event_loop-LoopResult rounds fuel st' ys q')
    where
      by_round :
          (o : Option (Exit × StrategyProgress P S))
          → Round o
          → ((st' : StrategyProgress P S) (ys : List (AnyEvent P))
              → Represents st'.events ys
              → LoopResult (event_loop d strategy_id addresses last rounds fuel st'))
          → LoopResult (elim o [
            | none ↦ none
            | some (broke, st') ↦ some (ok tt, st')
            | some (went_on, st') ↦
                let (saved, st'') = update_checkpoint d strategy_id addresses last st' in
                elim saved [
                  | err e ↦ some (err e, st'')
                  | ok _ ↦ event_loop d strategy_id addresses last rounds fuel st''
                ]
          ])
      by_round _ no_fuel again = cut_off
      by_round _ (over st' done) again = finished st' done
      by_round _ (more st' ys q') again = by_save (
          d.checkpoint_repository.upsert_checkpoint d.chain_id strategy_id st'.current_pointer
            st'.world)
        where
          by_save :
              (o : Outcome (Unit {0}) × S)
              → LoopResult (elim o.0 [
                | err e ↦ some (err e, record st' { world = o.1 })
                | ok _ ↦
                    event_loop d strategy_id addresses last rounds fuel (record st' { world = o.1 })
              ])
          by_save (err e, s) = no_checkpoint e (record st' { world = s })
          by_save (ok _, s) = again (record st' { world = s }) ys q'

  loop-Finished :
      (st' : StrategyProgress P S) (o : Option (Outcome (Unit {0}) × StrategyProgress P S))
      → LoopResult o
      → o ≡ some (ok tt, st')
      → Finished st'.current_pointer
  loop-Finished st' _ cut_off h = cc (h)
  loop-Finished st' _ (no_checkpoint e st) h = cc (h)
  loop-Finished st' _ (finished st done) h =
      subst Finished
        (ap
          (λ (o : Option (Outcome (Unit {0}) × StrategyProgress P S)).
            pointer_in st.current_pointer o)
          h)
        done
    where
      pointer_in : EventPointer → Option (Outcome (Unit {0}) × StrategyProgress P S) → EventPointer
      pointer_in p none = p
      pointer_in p (some (o, st'')) = st''.current_pointer

  -- When the loop is over, so that the strategy gets marked as handled, then the pointer is at or past the
  -- last event, or the indexer has answered that no event of the strategies is left after it: the loop does
  -- not stop at an event that failed.
  pub event_loop-Finished :
      (rounds fuel : ℕ) (st st' : StrategyProgress P S) (xs : List (AnyEvent P))
      → Represents st.events xs
      → event_loop d strategy_id addresses last rounds fuel st ≡ some (ok tt, st')
      → Finished st'.current_pointer
  event_loop-Finished rounds fuel st st' xs q h =
      loop-Finished st' _ (event_loop-LoopResult rounds fuel st xs q) h

  -- the local variables with an empty queue
  abbrev pub waiting : Queue (AnyEvent P) → EventPointer → S → StrategyProgress P S
  waiting events pointer s = record { events = events; current_pointer = pointer; world = s }

  failed_fetch :
      (fuel : ℕ) (events : Queue (AnyEvent P)) (pointer : EventPointer) (s : S) (e : Error)
      → Represents events []
      → (d.fetch_events d.chain_id addresses pointer last d.fetch_limit s).0 ≡ err e
      → try_block d strategy_id addresses last fuel (waiting events pointer s)
        ≡ some (
          went_on,
          waiting events pointer
              (d.fetch_events d.chain_id addresses pointer last d.fetch_limit s).1,
        )
  unfolding try_block enqueue_events_if_empty after_events_fetch after_enqueue
  failed_fetch fuel events pointer s e q failed = rw (is_empty_lem events [] q, failed) refl

  -- If every fetch from the pointer fails and the checkpoint can be written, then the loop does not end,
  -- whatever bound there is on the rounds: it asks again at once, each time.
  pub event_loop_stuck :
      (pointer : EventPointer) (events : Queue (AnyEvent P))
      → ((s : S)
          → (e : Error) × ((d.fetch_events d.chain_id addresses pointer last d.fetch_limit s).0
              ≡ err e))
      → ((s : S)
          → (d.checkpoint_repository.upsert_checkpoint d.chain_id strategy_id pointer s).0 ≡ ok tt)
      → Represents events []
      → (rounds fuel : ℕ) (s : S)
      → event_loop d strategy_id addresses last rounds fuel (waiting events pointer s) ≡ none
  unfolding event_loop update_checkpoint
  event_loop_stuck pointer events fails saves q zero fuel s = refl
  event_loop_stuck pointer events fails saves q (suc rounds) fuel s =
      let (e, failed) = fails s in
      rw (failed_fetch fuel events pointer s e q failed, event_loop, saves, update_checkpoint)
        (event_loop_stuck pointer events fails saves q rounds fuel _)
