-- ===== src/Retroactive/Marked.antt =====
-- `processRetroactiveStrategy` of retroactiveProcessor.ts: what has been done when it returns.
use grants_stack_indexer_v.Prelude.{
  ℕ, ◌≡◌, refl, sym, subst, ap, String, true, Option, none, some, List, [], ◌∷◌,
}
use grants_stack_indexer_v.Prelude.Listed.{Listed, here, there}
use grants_stack_indexer_v.Effects.{Outcome, ok, err}
use grants_stack_indexer_v.Effects.Triples.{bind-eq-ok}
use grants_stack_indexer_v.Queue.{new_queue}
use grants_stack_indexer_v.Queue.Represents.{new_queue-Represents}
use grants_stack_indexer_v.Changesets.{Entities}
use grants_stack_indexer_v.Retroactive.{
  EventPointer, RetroactiveDependencies, StrategyProgress, start_pointer, event_loop,
  mark_strategy_as_handled, finish_strategy, after_event_loop, process_from,
  process_retroactive_strategy,
}
use grants_stack_indexer_v.Retroactive.Rounds.{Finished, waiting, event_loop-Finished}

-- one save and those after it
module _ {ℓ} {S : Type ℓ} where
  abbrev saves_beside : Outcome (Unit {0}) → Outcome (Unit {0}) × S → Outcome (Unit {0}) × S
  saves_beside saved others = elim saved [ ok _ ↦ others | err e ↦ (err e, others.1) ]

  saves_beside-world :
      (saved : Outcome (Unit {0})) (others : Outcome (Unit {0}) × S)
      → (saves_beside saved others).1 ≡ others.1
  saves_beside-world (ok _) others = refl
  saves_beside-world (err e) others = refl

  both_saved :
      (saved : Outcome (Unit {0})) (others : Outcome (Unit {0}) × S) (t : S)
      → saves_beside saved others ≡ (ok tt, t)
      → (saved ≡ ok tt) × (others ≡ (ok tt, t))
  both_saved (ok _) others t h = (refl, h)
  both_saved (err e) others t h = cc (ap (λ r. r.0) h)

module _ {ℓ μ} {E : Entities} {P S Tx : Type ℓ} (d : RetroactiveDependencies E P S Tx)
    (strategy_id : String) (Handled : String → S → Type μ) where
  open d use {chain_id, strategy_registry, checkpoint_repository}

  -- A strategy that was saved as handled is handled, until it is saved otherwise.
  pub record RegistryHandles : Type (ℓ ⊔ μ) where
    pub handles :
        (address : String) (s : S)
        → (strategy_registry.save_strategy_id chain_id address strategy_id true s).0 ≡ ok tt
        → Handled address (strategy_registry.save_strategy_id chain_id address strategy_id true s).1
    pub save_keeps :
        (address other : String) (s : S)
        → Handled other s
        → Handled other (strategy_registry.save_strategy_id chain_id address strategy_id true s).1
    pub delete_keeps :
        (other : String) (s : S)
        → Handled other s
        → Handled other (checkpoint_repository.delete_checkpoint chain_id strategy_id s).1

  module _ (registry : RegistryHandles) where
    mark-keeps :
        (addresses : List String) (other : String) (s : S)
        → Handled other s
        → Handled other (mark_strategy_as_handled d strategy_id addresses s).1
    unfolding mark_strategy_as_handled
    mark-keeps [] other s h = h
    mark-keeps (address ∷ addresses) other s h =
        let saved = strategy_registry.save_strategy_id chain_id address strategy_id true s in
        subst (Handled other)
          (sym
            (saves_beside-world saved.0 (mark_strategy_as_handled d strategy_id addresses saved.1)))
          (mark-keeps addresses other saved.1 (registry.save_keeps address other s h))

    mark-Handled :
        (addresses : List String) (s t : S)
        → mark_strategy_as_handled d strategy_id addresses s ≡ (ok tt, t)
        → (address : String) → Listed address addresses
        → Handled address t
    unfolding mark_strategy_as_handled
    mark-Handled [] s t h other listed = elim listed [ ]
    mark-Handled (address ∷ addresses) s t h _ here =
        let saved = strategy_registry.save_strategy_id chain_id address strategy_id true s in
        let (done, others) = both_saved saved.0 _ t h in
        subst (Handled address) (ap (λ r. r.1) others)
          (mark-keeps addresses address saved.1 (registry.handles address s done))
    mark-Handled (address ∷ addresses) s t h other (there listed) =
        let saved = strategy_registry.save_strategy_id chain_id address strategy_id true s in
        let (done, others) = both_saved saved.0 _ t h in
        mark-Handled addresses saved.1 t others other listed

    module _ (addresses : List String) (last : EventPointer) (rounds fuel : ℕ) where
      -- where the loop starts, at the checkpoint if there is one
      abbrev from_checkpoint : Option EventPointer → S → StrategyProgress P S
      from_checkpoint checkpoint s =
          waiting d strategy_id addresses last (new_queue 5000) (start_pointer checkpoint) s

      -- The loop ran from the checkpoint to the end, each address is handled, and the deletion of the
      -- checkpoint came last.
      pub record Done (s t : S) : Type (ℓ ⊔ μ) where
        pub checkpoint : Option EventPointer
        pub started : S
        pub progress : StrategyProgress P S
        pub marked : S
        pub read :
            checkpoint_repository.get_checkpoint chain_id strategy_id s ≡ (ok checkpoint, started)
        pub ran :
            event_loop d strategy_id addresses last rounds fuel (from_checkpoint checkpoint started)
            ≡ some (ok tt, progress)
        pub finished : Finished d strategy_id addresses last progress.current_pointer
        pub handled : (address : String) → Listed address addresses → Handled address t
        pub deleted :
            checkpoint_repository.delete_checkpoint chain_id strategy_id marked ≡ (ok tt, t)

      after_loop-Done :
          (s v t : S) (checkpoint : Option EventPointer)
          (o : Option (Outcome (Unit {0}) × StrategyProgress P S))
          → checkpoint_repository.get_checkpoint chain_id strategy_id s ≡ (ok checkpoint, v)
          → event_loop d strategy_id addresses last rounds fuel (from_checkpoint checkpoint v) ≡ o
          → after_event_loop d strategy_id addresses o ≡ some (ok tt, t)
          → Done s t
      unfolding after_event_loop finish_strategy
      after_loop-Done s v t checkpoint none reads runs h = cc (h)
      after_loop-Done s v t checkpoint (some (err e, st)) reads runs h = cc (h)
      after_loop-Done s v t checkpoint (some (ok _, st)) reads runs h =
          let (x, u, marks, deletes) =
            bind-eq-ok (mark_strategy_as_handled d strategy_id addresses)
              (λ _. checkpoint_repository.delete_checkpoint chain_id strategy_id) (cc (h)) in
          record {
            checkpoint = checkpoint;
            started = v;
            progress = st;
            marked = u;
            read = reads;
            ran = runs;
            finished =
                event_loop-Finished d strategy_id addresses last rounds fuel _ st []
                  (new_queue-Represents 5000) runs;
            handled = λ address listed. subst (Handled address) (ap (λ r. r.1) deletes) (
                registry.delete_keeps address u
                  (mark-Handled addresses st.world u marks address listed));
            deleted = deletes;
          }

      by_checkpoint :
          (s t : S) (c : Outcome (Option EventPointer) × S)
          → checkpoint_repository.get_checkpoint chain_id strategy_id s ≡ c
          → process_from d strategy_id addresses last rounds fuel c ≡ some (ok tt, t)
          → Done s t
      unfolding process_from
      by_checkpoint s t (err e, v) reads h = cc (h)
      by_checkpoint s t (ok checkpoint, v) reads h = after_loop-Done s v t checkpoint _ reads refl h

      -- If a strategy that is saved as handled is handled from then on, then processRetroactiveStrategy
      -- returns only when its loop, which starts at the checkpoint if there is one, has come to or past the
      -- last event or to where the indexer has no event left, when each address of the strategy has been
      -- marked as handled, and when the checkpoint has been deleted, which is done last.
      pub process_retroactive_strategy-Done :
          (s t : S)
          → process_retroactive_strategy d strategy_id addresses last rounds fuel s
            ≡ some (ok tt, t)
          → Done s t
      unfolding process_retroactive_strategy
      process_retroactive_strategy-Done s t h = by_checkpoint s t _ refl h
