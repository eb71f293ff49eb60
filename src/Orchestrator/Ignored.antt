-- ===== src/Orchestrator/Ignored.antt =====
-- `enqueueEvents` and `shouldIgnoreTimestampsUpdatedError` of orchestrator.ts: which errors of a batch of
-- events are not notified.
use grants_stack_indexer_v.Prelude.{
  ℕ, ◌≡◌, ◌<◌, refl, sym, ◌∙◌, ap, true, ◌&&◌, Bool-cases, inl, inr, ◌↔◌, Option, none, some, List,
  [], ◌∷◌, ◌++◌, if◌then◌else◌, ltb, ltb→lt, lt→ltb, ◌==◌, ==_iff, both_true, right_true,
}
use grants_stack_indexer_v.Prelude.Maps.{number_keys, map_get, map_set, map_get-set}
use grants_stack_indexer_v.Effects.{Error}
use grants_stack_indexer_v.Events.{AnyEvent, equals}
use grants_stack_indexer_v.Orchestrator.{
  Context, append_to, add_to_context, pool_created_later, can_ignore_error_class,
  can_ignore_event_name, later_in, should_ignore_timestamps_updated_error,
}

module _ {ℓ} {P : Type ℓ} where
  -- the events of a block, in their order
  pub in_block : ℕ → List (AnyEvent P) → List (AnyEvent P)
  in_block b [] = []
  in_block b (e ∷ events) =
      let others = in_block b events in if e.block_number == b then e ∷ others else others

  abbrev pub or_empty : Option (List (AnyEvent P)) → List (AnyEvent P)
  or_empty none = []
  or_empty (some events) = events

  append-or_empty :
      (e : AnyEvent P) (o : Option (List (AnyEvent P))) → append_to e o ≡ or_empty o ++ (e ∷ [])
  append-or_empty e none = refl
  append-or_empty e (some events) = refl

  append_assoc : (xs ys zs : List (AnyEvent P)) → (xs ++ ys) ++ zs ≡ xs ++ (ys ++ zs)
  append_assoc [] ys zs = refl
  append_assoc (x ∷ xs) ys zs = ap (λ l. x ∷ l) (append_assoc xs ys zs)

  append_nil : (xs : List (AnyEvent P)) → xs ++ [] ≡ xs
  append_nil [] = refl
  append_nil (x ∷ xs) = ap (λ l. x ∷ l) (append_nil xs)

  pushed :
      (e : AnyEvent P) (b : ℕ) (context : Context P) (others : List (AnyEvent P))
      → or_empty (
            map_get b
              (map_set e.block_number (append_to e (map_get e.block_number context)) context))
          ++ others
        ≡ or_empty (map_get b context) ++ (if e.block_number == b then e ∷ others else others)
  pushed e b context others =
      ap (λ o. or_empty o ++ others)
        (map_get-set e.block_number b (append_to e (map_get e.block_number context)) context)
      ∙ elim (Bool-cases (e.block_number == b)) [
        | inl same ↦ rw (same) (
            ap (λ l. l ++ others) (append-or_empty e (map_get e.block_number context))
            ∙ append_assoc (or_empty (map_get e.block_number context)) (e ∷ []) others
            ∙ ap (λ k. or_empty (map_get k context) ++ (e ∷ others))
                ((==_iff e.block_number b).0 same))
        | inr other ↦ rw (other) refl
      ]

  -- The context holds for each block its events of the batch, in their order, after what it held.
  pub add_to_context-in_block :
      (b : ℕ) (events : List (AnyEvent P)) (context : Context P)
      → or_empty (map_get b (add_to_context context events))
        ≡ or_empty (map_get b context) ++ in_block b events
  unfolding add_to_context in_block
  add_to_context-in_block b [] context = sym (append_nil _)
  add_to_context-in_block b (e ∷ events) context =
      add_to_context-in_block b events _ ∙ pushed e b context (in_block b events)

  -- A later `PoolCreated` of the same block is in the batch.
  pub data PoolCreatedAfter (event : AnyEvent P) : List (AnyEvent P) → Type ℓ where
    this_event :
        {e : AnyEvent P} {events : List (AnyEvent P)}
        → e.block_number ≡ event.block_number
        → event.log_index < e.log_index
        → equals "PoolCreated" e.event_name ≡ true
        → PoolCreatedAfter event (e ∷ events)
    further_on :
        {e : AnyEvent P} {events : List (AnyEvent P)}
        → PoolCreatedAfter event events
        → PoolCreatedAfter event (e ∷ events)

  later_found :
      (event : AnyEvent P) (events : List (AnyEvent P))
      → PoolCreatedAfter event events
      → pool_created_later event.log_index (in_block event.block_number events) ≡ true
  unfolding pool_created_later in_block
  later_found event _ (this_event {e} same later created) =
      rw ((==_iff e.block_number event.block_number).1 same, lt→ltb _ _ later, created) refl
  later_found event _ (further_on {e} {events} after) =
      elim (Bool-cases (e.block_number == event.block_number)) [
        | inl same ↦ rw (same) (right_true _ _ (later_found event events after))
        | inr other ↦ rw (other) (later_found event events after)
      ]

  found_later :
      (event : AnyEvent P) (events : List (AnyEvent P))
      → pool_created_later event.log_index (in_block event.block_number events) ≡ true
      → PoolCreatedAfter event events
  unfolding pool_created_later in_block
  found_later event [] h = cc (h)
  found_later event (e ∷ events) h = elim (Bool-cases (e.block_number == event.block_number)) [
    | inl same ↦
        elim (Bool-cases (ltb event.log_index e.log_index && equals "PoolCreated" e.event_name)) [
          | inl here ↦
              let (later, created) = both_true _ _ here in
              this_event ((==_iff e.block_number event.block_number).0 same) (ltb→lt _ _ later)
                created
          | inr not_here ↦ further_on (found_later event events (rw (same, not_here) at h))
        ]
    | inr other ↦ further_on (found_later event events (rw other at h))
  ]

  later_in-or_empty :
      (k : ℕ) (o : Option (List (AnyEvent P))) → later_in k o ≡ pool_created_later k (or_empty o)
  unfolding pool_created_later
  later_in-or_empty k none = refl
  later_in-or_empty k (some events) = refl

  pool_created-in_batch :
      (event : AnyEvent P) (batch : List (AnyEvent P))
      → later_in event.log_index (map_get event.block_number (add_to_context [] batch))
        ≡ pool_created_later event.log_index (in_block event.block_number batch)
  unfolding map_get
  pool_created-in_batch event batch =
      later_in-or_empty event.log_index _
      ∙ ap (pool_created_later event.log_index)
          (add_to_context-in_block event.block_number batch [])

  -- With the batch enqueued, an error at an event of it is ignored exactly if a round was not found, the
  -- event updates timestamps, and the batch has a `PoolCreated` in the same block with a larger log index.
  pub should_ignore_iff :
      (batch : List (AnyEvent P)) (error : Error) (event : AnyEvent P)
      → (should_ignore_timestamps_updated_error (add_to_context [] batch) error (some event) ≡ true)
        ↔ ((can_ignore_error_class error ≡ true)
            × (can_ignore_event_name event.event_name ≡ true)
            × PoolCreatedAfter event batch)
  unfolding should_ignore_timestamps_updated_error
  should_ignore_iff batch error event = (to, from)
    where
      to :
          should_ignore_timestamps_updated_error (add_to_context [] batch) error (some event) ≡ true
          → (can_ignore_error_class error ≡ true)
            × (can_ignore_event_name event.event_name ≡ true)
            × PoolCreatedAfter event batch
      to h =
          let (classes, later) = both_true _ _ h in
          let (class_ok, name_ok) = both_true _ _ classes in
          (
            class_ok,
            name_ok,
            found_later event batch (sym (pool_created-in_batch event batch) ∙ later),
          )

      from :
          (can_ignore_error_class error ≡ true)
            × (can_ignore_event_name event.event_name ≡ true)
            × PoolCreatedAfter event batch
          → should_ignore_timestamps_updated_error (add_to_context [] batch) error (some event)
            ≡ true
      from (class_ok, name_ok, after) =
          rw (class_ok, name_ok) (pool_created-in_batch event batch ∙ later_found event batch after)
