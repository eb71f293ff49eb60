-- ===== src/DataLoader/Tests.antt =====
-- Runs of the loader on a small database, and each theorem at an input.
use grants_stack_indexer_v.Prelude.{◌≡◌, refl, ap, none, List, [], ◌∷◌}
use grants_stack_indexer_v.Effects.{native_error, Outcome, ok, err}
use grants_stack_indexer_v.Changesets.{
  Changeset, project_changeset, round_changeset, donation_changeset, insert_project, insert_round,
  insert_donation,
}
use grants_stack_indexer_v.DataLoader.{
  project_handlers, round_handlers, donation_handlers, handler, invalid_types, apply,
  apply_in_order, run_or_refuse, apply_changes,
}
use grants_stack_indexer_v.DataLoader.Order.{Progress, apply_in_order-Progress}
use grants_stack_indexer_v.DataLoader.Atomic.{Invisible, no_change, also, apply_changes-atomic}
use grants_stack_indexer_v.DataLoader.Outcomes.{Committed, apply_changes-Committed}
use grants_stack_indexer_v.DataLoader.Sample.{entities, World, start, tables, manager, laws}

abbrev good : List (Changeset entities)
good = project_changeset (insert_project 7) ∷ round_changeset (insert_round 8) ∷ []

abbrev bad : List (Changeset entities)
bad =
    project_changeset (insert_project 7)
    ∷ donation_changeset (insert_donation 0)
    ∷ round_changeset (insert_round 8)
    ∷ []

stored_in_order :
    apply_changes tables manager good start
    ≡ (ok tt, record { stored = 8 ∷ 7 ∷ []; pending = 8 ∷ 7 ∷ []; pointer = none })
unfolding apply_changes run_or_refuse invalid_types handler apply_in_order apply project_handlers
    round_handlers
stored_in_order = refl

rolled_back : apply_changes tables manager bad start ≡ (err (native_error "constraint"), start)
unfolding apply_changes run_or_refuse invalid_types handler apply_in_order apply project_handlers
    donation_handlers round_handlers
rolled_back = refl

apply_in_order-Progress_example : Progress tables tt bad start (apply_in_order tables bad tt start)
apply_in_order-Progress_example = apply_in_order-Progress tables tt bad start

bad-Invisible : Invisible tables (λ (s : World). s.stored) bad
unfolding apply handler project_handlers donation_handlers round_handlers
bad-Invisible = also (λ tx s. refl) (also (λ tx s. refl) (also (λ tx s. refl) no_change))

apply_changes-atomic_example : (apply_changes tables manager bad start).1.stored ≡ []
apply_changes-atomic_example =
    apply_changes-atomic tables (λ (s : World). s.stored) manager laws bad start
      (native_error "constraint") bad-Invisible
      (ap (λ (o : Outcome (Unit {0}) × World). o.0) rolled_back)

apply_changes-Committed_example :
    Committed tables
      (λ (s : World). s.stored)
      manager
      laws
      good
      start
      (record { stored = 8 ∷ 7 ∷ []; pending = 8 ∷ 7 ∷ []; pointer = none })
apply_changes-Committed_example =
    apply_changes-Committed tables (λ (s : World). s.stored) manager laws good start _
      stored_in_order
