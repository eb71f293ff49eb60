-- ===== src/Orchestrator/Handling/Taken.antt =====
-- The operation of orchestrator.ts and the event at hand, which only gets its strategy id.
use grants_stack_indexer_v.Prelude.{
  ◌≡◌, ap, String, Bool, true, false, ◌&&◌, Bool-cases, inl, inr, Option, none, some, List,
  if◌then◌else◌,
}
use grants_stack_indexer_v.Effects.{Outcome, ok, err}
use grants_stack_indexer_v.Effects.Keeps.{bind_keeps}
use grants_stack_indexer_v.Changesets.{Entities, Changeset}
use grants_stack_indexer_v.Events.{AnyEvent, strategy, is_contract}
use grants_stack_indexer_v.Processors.{exists_handler, is_defined, text_or_empty}
use grants_stack_indexer_v.Orchestrator.{Dependencies, is_pool_created, requires_strategy_id}
use grants_stack_indexer_v.Orchestrator.Handling.{
  Current, set_strategy_id, enhance_strategy_id, process, save_strategy, handle_enhanced,
  handle_event, load, operation,
}

module _ {ℓ} {P : Type ℓ} where
  abbrev pub with_id : Option String → AnyEvent P → AnyEvent P
  with_id id event = record event { strategy_id = id }

module _ {ℓ} {P S : Type ℓ} (taken : AnyEvent P) where
  -- The event at hand is the one taken, up to the strategy id, which `enhanceStrategyId` may set.
  pub record IsTaken (c : Current P S) : Type ℓ where
    pub id : Option String
    pub same : c.0 ≡ with_id id taken

  pub elsewhere : (event : AnyEvent P) (s t : S) → IsTaken (event, s) → IsTaken (event, t)
  elsewhere event s t i = record { id = i.id; same = i.same }

  set_keeps :
      (event : AnyEvent P) (s : S) (o : Outcome String × S)
      → IsTaken (event, s)
      → IsTaken (set_strategy_id event o).1
  unfolding set_strategy_id
  set_keeps event s (ok id, t) i = record { id = some id; same = ap (with_id (some id)) i.same }
  set_keeps event s (err e, t) i = record { id = i.id; same = i.same }

module _ {ℓ} {E : Entities} {P S Tx : Type ℓ} (d : Dependencies E P S Tx) (taken : AnyEvent P) where
  enhance_keeps : (c : Current P S) → IsTaken taken c → IsTaken taken (enhance_strategy_id d c).1
  unfolding enhance_strategy_id
  enhance_keeps (event, s) i = elim (Bool-cases (requires_strategy_id event)) [
    | inl yes-it ↦ rw (yes-it) (set_keeps taken event s _ i)
    | inr no-it ↦ rw (no-it) i
  ]

  process_keeps : (c : Current P S) → IsTaken taken c → IsTaken taken (process d c).1
  unfolding process
  process_keeps (event, s) i = elsewhere taken event s _ i

  save_keeps : (c : Current P S) → IsTaken taken c → IsTaken taken (save_strategy d c).1
  unfolding save_strategy
  save_keeps (event, s) i = elsewhere taken event s _ i

  enhanced_keeps : (c : Current P S) → IsTaken taken c → IsTaken taken (handle_enhanced d c).1
  unfolding handle_enhanced
  enhanced_keeps (event, s) i = elim (Bool-cases (is_pool_created event)) [
    | inl created ↦ rw (created) (
        bind_keeps (IsTaken taken) (save_strategy d) (λ _. process d) save_keeps
          (λ _. process_keeps) (event, s) i)
    | inr other ↦ rw (other) (
        by_strategy (is_contract event.contract_name strategy && is_defined event.strategy_id)
          (exists_handler (text_or_empty event.strategy_id)))
  ]
    where
      by_strategy :
          (b c : Bool)
          → IsTaken taken
              (if b
                then (if c then process d (event, s) else (ok none, (event, s)))
                else process d (event, s)).1
      by_strategy true true = process_keeps (event, s) i
      by_strategy true false = i
      by_strategy false c = process_keeps (event, s) i

  pub handle_keeps : (c : Current P S) → IsTaken taken c → IsTaken taken (handle_event d c).1
  unfolding handle_event
  handle_keeps c i =
      bind_keeps (IsTaken taken) (enhance_strategy_id d) (λ _. handle_enhanced d) enhance_keeps
        (λ _. enhanced_keeps) c i

  pub load_keeps :
      (changesets : Option (List (Changeset E))) (c : Current P S)
      → IsTaken taken c
      → IsTaken taken (load d changesets c).1
  unfolding load
  load_keeps changesets (event, s) i = elsewhere taken event s _ i

  pub operation_keeps : (c : Current P S) → IsTaken taken c → IsTaken taken (operation d c).1
  unfolding operation
  operation_keeps c i =
      bind_keeps (IsTaken taken) (handle_event d) (load d) handle_keeps load_keeps c i
