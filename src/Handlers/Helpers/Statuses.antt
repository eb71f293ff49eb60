-- ===== src/Handlers/Helpers/Statuses.antt =====
-- `createStatusUpdate` over the life of an application.
use grants_stack_indexer_v.Prelude.{
  ℕ, ◌≡◌, ◌↔◌, refl, sym, ap, ◌∙◌, true, false, List, [], ◌∷◌, ◌++◌, map, arith, inl, inr,
  Bool-cases,
}
use mathlib.Core.Logic.{ite, if_pos, if_neg}
use mathlib.Core.List.{map-append, append_assoc, append-nil}
use grants_stack_indexer_v.Handlers.Rows.{
  Application, ApplicationStatus, StatusSnapshot, StatusUpdate,
}
use grants_stack_indexer_v.Handlers.Helpers.{same_status, create_status_update}

-- a new status, with the block and the time of its event
abbrev pub StatusEvent : Type 0
StatusEvent = ApplicationStatus × ℕ × ℕ

module _ {Json : Type 0} where
  -- the application with the columns of the update written
  abbrev pub write_status : Application Json → StatusUpdate → Application Json
  write_status application update = record application {
    status = update.status;
    status_updated_at_block = update.status_updated_at_block;
    status_snapshots = update.status_snapshots;
  }

  abbrev pub after_updates : Application Json → List StatusEvent → Application Json
  after_updates application [] = application
  after_updates application ((status, block, time) ∷ events) =
      after_updates (write_status application (create_status_update application status block time))
        events

ApplicationStatus-discrete : Discrete ApplicationStatus
ApplicationStatus-discrete = hlevel

same_status_iff : (a b : ApplicationStatus) → (same_status a b ≡ true) ↔ (a ≡ b)
unfolding same_status
same_status_iff a b = ground arith

not_same : (a b : ApplicationStatus) → ¬ (a ≡ b) → same_status a b ≡ false
not_same a b h = elim (Bool-cases (same_status a b)) [
  | inl same ↦ absurd (h ((same_status_iff a b).0 same))
  | inr other ↦ other
]

-- the statuses of a list that differ from the one before
pub changes_from : ApplicationStatus → List ApplicationStatus → List ApplicationStatus
changes_from status [] = []
changes_from status (next ∷ statuses) =
    let rest = changes_from next statuses in
    ite (ApplicationStatus-discrete status next) rest (next ∷ rest)

abbrev pub latest_of : ApplicationStatus → List ApplicationStatus → ApplicationStatus
latest_of status [] = status
latest_of status (next ∷ statuses) = latest_of next statuses

abbrev pub statuses_of : List StatusSnapshot → List ApplicationStatus
statuses_of snapshots = map (λ s. s.status) snapshots

module _ {Json : Type 0} where
  -- After any updates of its status an application has the last status, and its snapshots are those it
  -- had and one for each status that differs from the one before, in their order.
  pub after_updates-changes_from :
      (application : Application Json) (events : List StatusEvent)
      → ((after_updates application events).status
          ≡ latest_of application.status (map (λ e. e.0) events))
        × (statuses_of (after_updates application events).status_snapshots
            ≡ statuses_of application.status_snapshots
              ++ changes_from application.status (map (λ e. e.0) events))
  unfolding create_status_update changes_from
  after_updates-changes_from application [] = (refl, sym (append-nil _))
  after_updates-changes_from application ((status, block, time) ∷ events) =
      let (e, f) =
        after_updates-changes_from
          (write_status application (create_status_update application status block time)) events in
      (
        e,
        f ∙ elim (ApplicationStatus-discrete application.status status) [
          | yes same ↦ rw (if_pos _ same, (same_status_iff application.status status).1 same) refl
          | no other ↦
              rw (if_neg _ other, not_same application.status status other)
                (ap (λ l. l ++ changes_from status (map (λ e. e.0) events))
                    (map-append (λ s. s.status) application.status_snapshots _)
                  ∙ append_assoc (statuses_of application.status_snapshots) (status ∷ []) _)
        ],
      )
