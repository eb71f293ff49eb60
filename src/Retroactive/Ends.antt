-- ===== src/Retroactive/Ends.antt =====
-- The loop of `processRetroactiveStrategy` of retroactiveProcessor.ts ends when every fetch moves on.
use grants_stack_indexer_v.Prelude.{
  ℕ, zero, suc, ◌+◌, ◌≤◌, ◌<◌, ◌≡◌, refl, ap, sym, subst, String, false, Bool-cases, inl, inr,
  Option, none, some, List, [], ◌∷◌, length, ◌==◌, arith,
}
use grants_stack_indexer_v.Effects.{Outcome, ok, err}
use grants_stack_indexer_v.Queue.{push, pop}
use grants_stack_indexer_v.Queue.Represents.{Represents, new_queue-Represents}
use grants_stack_indexer_v.Queue.Refine.{push-Represents, pop-Represents, is_empty_lem}
use grants_stack_indexer_v.Retry.Attempts.{execute-Ends}
use grants_stack_indexer_v.Changesets.{Entities}
use grants_stack_indexer_v.Events.{AnyEvent}
use grants_stack_indexer_v.Retroactive.{
  EventPointer, has_reached_last_event, RetroactiveDependencies, StrategyProgress, Exit, broke,
  went_on, pointer_of, no_signal, handle_and_load, after_events_fetch, enqueue_events_if_empty,
  process_if_before, take_event, after_enqueue, try_block, update_checkpoint, event_loop,
  start_pointer, after_event_loop, process_from, process_retroactive_strategy,
}

module _ {ℓ} {P : Type ℓ} (left : EventPointer → ℕ) where
  -- Each event is further on than the one before, the first than the pointer, where `left` counts what may
  -- be left after a pointer.
  pub data Descends : EventPointer → List (AnyEvent P) → Type ℓ where
    no_event : {p : EventPointer} → Descends p []
    further :
        {p : EventPointer} {e : AnyEvent P} {xs : List (AnyEvent P)}
        → left (pointer_of e) < left p
        → Descends (pointer_of e) xs
        → Descends p (e ∷ xs)

module _ {ℓ} {E : Entities} {P S Tx : Type ℓ} (d : RetroactiveDependencies E P S Tx)
    (strategy_id : String) (addresses : List String) (last : EventPointer) (left : EventPointer → ℕ)
    (limit : ℕ) (gives_up : (n : ℕ) → limit ≤ n → d.retry_strategy.should_retry n ≡ false)
    (saves : (p : EventPointer) (s : S)
      → (d.checkpoint_repository.upsert_checkpoint d.chain_id strategy_id p s).0 ≡ ok tt)
    (fetches : (p : EventPointer) (s : S)
      → (xs : List (AnyEvent P)) × ((d.fetch_events d.chain_id addresses p last d.fetch_limit s).0
          ≡ ok xs)
        × Descends left p xs) where
  -- what a round comes to, from a pointer
  data Lower (p : EventPointer) : Option (Exit × StrategyProgress P S) → Type ℓ where
    over : (st : StrategyProgress P S) → Lower p (some (broke, st))
    lower :
        (st : StrategyProgress P S) (xs : List (AnyEvent P))
        → left st.current_pointer < left p
        → Represents st.events xs
        → Descends left st.current_pointer xs
        → Lower p (some (went_on, st))

  process-Lower :
      (p : EventPointer) (st : StrategyProgress P S) (event : AnyEvent P) (xs : List (AnyEvent P))
      → left (pointer_of event) < left p
      → Represents st.events xs
      → Descends left (pointer_of event) xs
      → Lower p (
          process_if_before d strategy_id addresses last
            (limit + 1)
            (record st { current_pointer = pointer_of event })
            event)
  unfolding process_if_before
  process-Lower p st event xs less q down =
      elim (Bool-cases (has_reached_last_event (pointer_of event) last)) [
        | inl past ↦ rw (past) (over _)
        | inr before ↦
            let e =
              execute-Ends d.retry_strategy (no_signal d)
                (handle_and_load d (record event { strategy_id = some strategy_id })) limit
                (λ n s. Unit {0}) gives_up (λ n s _. tt) (λ n k r s _. tt) st.world tt in
            rw (before, e.ended) (lower _ xs less q down)
      ]

  take-Lower :
      (st : StrategyProgress P S) (event : AnyEvent P) (xs : List (AnyEvent P))
      → Represents st.events (event ∷ xs)
      → Descends left st.current_pointer (event ∷ xs)
      → Lower st.current_pointer
          (after_enqueue d strategy_id addresses last (limit + 1) (ok tt, st))
  unfolding after_enqueue take_event
  take-Lower st event xs q (further less down) =
      subst
        (λ o. Lower st.current_pointer (
          take_event d strategy_id addresses last (limit + 1)
            (record st { events = (pop st.events).1 }) o))
        (sym (pop-Represents st.events (event ∷ xs) q).0)
        (process-Lower st.current_pointer (record st { events = (pop st.events).1 }) event xs less
          (pop-Represents st.events (event ∷ xs) q).1 down)

  fetched-Lower :
      (st : StrategyProgress P S) (xs : List (AnyEvent P)) (o : Outcome (List (AnyEvent P)) × S)
      → Represents st.events []
      → o.0 ≡ ok xs
      → Descends left st.current_pointer xs
      → Lower st.current_pointer (
          after_enqueue d strategy_id addresses last
            (limit + 1)
            (after_events_fetch d strategy_id addresses last st o))
  unfolding after_events_fetch after_enqueue take_event
  fetched-Lower st xs (err e, s) q read down = cc (read)
  fetched-Lower st xs (ok (event ∷ events), s) q read down =
      take-Lower (record st { events = push st.events (event ∷ events); world = s }) event events
        (push-Represents st.events [] (event ∷ events) q)
        (subst (Descends left st.current_pointer) (sym (ok-inj _ _ read)) down)
    where
      ok-inj : (a b : List (AnyEvent P)) → ok a ≡ ok b → a ≡ b
      ok-inj a b e = cc (e)
  fetched-Lower st xs (ok [], s) q read down =
      let after : StrategyProgress P S = record {
        events = (pop st.events).1;
        current_pointer = st.current_pointer;
        world = s;
      } in
      subst
        (λ o.
          Lower st.current_pointer (take_event d strategy_id addresses last (limit + 1) after o))
        (sym (pop-Represents st.events [] q).0) (over after)

  suc_not_zero : (n : ℕ) → (suc n == 0) ≡ false
  suc_not_zero n = ground arith

  try_block-Lower :
      (st : StrategyProgress P S) (xs : List (AnyEvent P))
      → Represents st.events xs
      → Descends left st.current_pointer xs
      → Lower st.current_pointer (try_block d strategy_id addresses last (limit + 1) st)
  unfolding try_block enqueue_events_if_empty
  try_block-Lower st [] q down =
      let (xs, read, fetched) = fetches st.current_pointer st.world in
      rw (is_empty_lem st.events [] q) (fetched-Lower st xs _ q read fetched)
  try_block-Lower st (event ∷ xs) q down =
      rw (is_empty_lem st.events (event ∷ xs) q, suc_not_zero (length xs))
        (take-Lower st event xs q down)

  -- If every fetch returns events that are further on than the pointer, each than the one before, where
  -- `left` bounds how often one can move on, if the checkpoints can be written and the strategy refuses
  -- every retry from `limit` on, then the loop, with `limit + 1` attempts as fuel, ends within one round
  -- more than what is left, from a state whose waiting events move on in the same way.
  pub event_loop-Ends :
      (rounds : ℕ) (st : StrategyProgress P S) (xs : List (AnyEvent P))
      → Represents st.events xs
      → Descends left st.current_pointer xs
      → left st.current_pointer < rounds
      → (st' : StrategyProgress P S) × (event_loop d strategy_id addresses last rounds
            (limit + 1)
            st
          ≡ some (ok tt, st'))
  unfolding event_loop update_checkpoint
  event_loop-Ends zero st xs q down bound = absurd (omega (arith, bound))
  event_loop-Ends (suc rounds) st xs q down bound =
      by_round (try_block d strategy_id addresses last (limit + 1) st)
        (try_block-Lower st xs q down)
        (λ st' ys q' down' bound'. event_loop-Ends rounds st' ys q' down' bound')
    where
      by_round :
          (o : Option (Exit × StrategyProgress P S))
          → Lower st.current_pointer o
          → ((st' : StrategyProgress P S) (ys : List (AnyEvent P))
              → Represents st'.events ys
              → Descends left st'.current_pointer ys
              → left st'.current_pointer < rounds
              → (r : StrategyProgress P S) × (event_loop d strategy_id addresses last rounds
                    (limit + 1)
                    st'
                  ≡ some (ok tt, r)))
          → (r : StrategyProgress P S) × (◌≡◌
              {A = Option (Outcome (Unit {0}) × StrategyProgress P S)}
              (elim o [
                | none ↦ none
                | some (broke, st') ↦ some (ok tt, st')
                | some (went_on, st') ↦
                    let (saved, st'') = update_checkpoint d strategy_id addresses last st' in
                    elim saved [
                      | err e ↦ some (err e, st'')
                      | ok _ ↦ event_loop d strategy_id addresses last rounds (limit + 1) st''
                    ]
              ])
              (some (ok tt, r)))
      by_round _ (over st') again = (st', refl)
      by_round _ (lower st' ys less q' down') again =
          let s' =
            (d.checkpoint_repository.upsert_checkpoint d.chain_id strategy_id st'.current_pointer
              st'.world).1 in
          let (r, e) = again (record st' { world = s' }) ys q' down' (omega (arith, bound, less)) in
          (r, rw (saves st'.current_pointer st'.world) e)

  module _ (rounds : ℕ) (enough : (p : EventPointer) → left p < rounds) where
    process_from-Ends :
        (c : Outcome (Option EventPointer) × S)
        → (r : Outcome (Unit {0}) × S) × (process_from d strategy_id addresses last rounds
              (limit + 1)
              c
            ≡ some r)
    unfolding process_from after_event_loop
    process_from-Ends (err e, s) = ((err e, s), refl)
    process_from-Ends (ok checkpoint, s) =
        let (st, e) =
          event_loop-Ends rounds _ [] (new_queue-Represents 5000) no_event
            (enough (start_pointer checkpoint)) in
        (_, ap (after_event_loop d strategy_id addresses) e)

    process_retroactive_strategy-Ends :
        (s : S)
        → (r : Outcome (Unit {0}) × S) × (process_retroactive_strategy d strategy_id addresses last
              rounds
              (limit + 1)
              s
            ≡ some r)
    unfolding process_retroactive_strategy
    process_retroactive_strategy-Ends s =
        process_from-Ends (d.checkpoint_repository.get_checkpoint d.chain_id strategy_id s)
