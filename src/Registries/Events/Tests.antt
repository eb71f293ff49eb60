-- ===== src/Registries/Events/Tests.antt =====
-- The registries of events on a small database, and each theorem at an input.
use grants_stack_indexer_v.Prelude.{
  ℕ, ◌≡◌, refl, sym, ap, ◌∙◌, inl, inr, Bool-cases, ==_iff, Option, none, some, List, [], ◌∷◌, ◌++◌,
  ◌==◌, if◌then◌else◌,
}
use grants_stack_indexer_v.Prelude.Maps.{number_keys, map_get, map_set, map_get-set}
use grants_stack_indexer_v.Effects.{native_error, ok, err}
use grants_stack_indexer_v.Changesets.{
  NewProcessedEvent, project_changeset, insert_project, insert_processed_event,
}
use grants_stack_indexer_v.Repositories.{ProcessedEvent, EventRegistryRepository}
use grants_stack_indexer_v.DataLoader.{project_handlers, handler, apply, apply_changes}
use grants_stack_indexer_v.DataLoader.Order.{none_left, then_next}
use grants_stack_indexer_v.DataLoader.Sample.{
  entities, World, start, tables, event_table, manager, laws,
}
use grants_stack_indexer_v.Registries.Events.{cached_save_last}
use grants_stack_indexer_v.Registries.Events.Coherent.{
  IsRegistry, IsCoherent, Saved, cached_save_last-Saved,
}
use grants_stack_indexer_v.Registries.Events.Pointer.{
  with_database_registry, processed_event-outlives_rollback,
}

abbrev event : NewProcessedEvent entities
event = record { block_number = 9; block_timestamp = 90; log_index = 1; raw_event = none }

abbrev processed : ProcessedEvent entities
processed = record { chain_id = 10; event = event }

abbrev rows : List ℕ → List ℕ → Option (ProcessedEvent entities) → World
rows stored pending pointer = record { stored = stored; pending = pending; pointer = pointer }

-- the commit is refused, so the project is not stored, but the event counts as processed
processed_event-outlives_rollback_example :
    apply_changes
      (with_database_registry tables event_table)
      manager
      ((project_changeset (insert_project 1) ∷ []) ++ (insert_processed_event 10 event ∷ []))
      start
    ≡ (err (native_error "commit"), rows [] (1 ∷ []) (some processed))
unfolding apply handler project_handlers
processed_event-outlives_rollback_example =
    processed_event-outlives_rollback tables event_table (λ (s : World). s.stored) manager laws
      (project_changeset (insert_project 1) ∷ []) 10 event (native_error "commit") tt start start
      (rows [] (1 ∷ []) none) (rows [] (1 ∷ []) (some processed))
      (rows [] (1 ∷ []) (some processed)) refl (then_next refl none_left) refl refl

-- a registry with one event for each chain
abbrev Table : Type 0
Table = List (ℕ × NewProcessedEvent entities)

abbrev row_event : ℕ → Option (NewProcessedEvent entities) → Option (ProcessedEvent entities)
row_event k none = none
row_event k (some e) = some (record { chain_id = k; event = e })

abbrev last_of : Table → ℕ → Option (ProcessedEvent entities)
last_of table k = row_event k (map_get k table)

abbrev registry : EventRegistryRepository entities Table (Unit {0})
registry = record {
  get_last_processed_event = λ k table. (ok (last_of table k), table);
  save_last_processed_event = λ k e _ table. (ok tt, map_set k e table);
}

row_set :
    (k j : ℕ) (e : NewProcessedEvent entities) (table : Table)
    → row_event j (if k == j then some e else map_get j table)
      ≡ (if k == j then some (record { chain_id = k; event = e }) else last_of table j)
row_set k j e table = elim (Bool-cases (k == j)) [
  | inl same ↦
      rw (same) (ap (λ i. some (record { chain_id = i; event = e })) (sym ((==_iff k j).0 same)))
  | inr other ↦ rw (other) refl
]

abbrev chain_or : ℕ → Option (ProcessedEvent entities) → ℕ
chain_or d none = d
chain_or d (some p) = p.chain_id

row_chain :
    (k : ℕ) (o : Option (NewProcessedEvent entities)) (p : ProcessedEvent entities)
    → row_event k o ≡ some p
    → p.chain_id ≡ k
row_chain k none p e = cc (e)
row_chain k (some x) p e = sym (ap (chain_or 0) e)

registry-IsRegistry : IsRegistry registry last_of
registry-IsRegistry = record {
  reads = λ k s o e. cc (e);
  read_keeps = λ k j s. refl;
  saves = λ k j e s _. ap (row_event j) (map_get-set k j e s) ∙ row_set k j e s;
  failure_keeps = λ k j e s error h. cc (h);
  own_chain = λ k s p e. row_chain k (map_get k s) p e;
}

abbrev table : Table
table = (10, event) ∷ []

empty-IsCoherent : IsCoherent last_of ([], table)
unfolding IsCoherent map_get
empty-IsCoherent k p e = cc (e)

cached_save_last-Saved_example :
    Saved registry last_of registry-IsRegistry 1 event table
      (cached_save_last registry 1 event ([], table))
cached_save_last-Saved_example =
    cached_save_last-Saved registry last_of registry-IsRegistry 1 event [] table empty-IsCoherent
