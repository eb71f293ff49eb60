-- ===== src/DataLoader/Sample.antt =====
-- A small database to run the loader on: each row is a number, in the transaction or outside.
use grants_stack_indexer_v.Prelude.{ℕ, zero, suc, ◌≡◌, refl, Option, none, some, List, [], ◌∷◌}
use grants_stack_indexer_v.Effects.{Error, native_error, Outcome, ok, err, Action}
use grants_stack_indexer_v.Changesets.{Entities}
use grants_stack_indexer_v.Repositories.{
  Write, EventRegistryRepository, ProcessedEvent, Repositories, TransactionManager,
}
use grants_stack_indexer_v.DataLoader.Atomic.{finish, IsTransactional}

abbrev pub entities : Entities
entities = record {
  Project = ℕ;
  PartialProject = ℕ;
  ProjectRole = ℕ;
  PendingProjectRole = ℕ;
  Round = ℕ;
  PartialRound = ℕ;
  RoundRole = ℕ;
  PendingRoundRole = ℕ;
  Application = ℕ;
  PartialApplication = ℕ;
  Donation = ℕ;
  ApplicationPayout = ℕ;
  Attestation = ℕ;
  AttestationTxn = ℕ;
  LegacyProject = ℕ;
  RawEvent = ℕ;
}

-- `pending` is what the open transaction has written, newest first
pub record World : Type 0 where
  pub stored : List ℕ
  pub pending : List ℕ
  pub pointer : Option (ProcessedEvent entities)

abbrev pub start : World
start = record { stored = []; pending = []; pointer = none }

-- the row 0 cannot be written
abbrev pub write : ℕ → Write World (Unit {0})
write zero _ s = (err (native_error "constraint"), s)
write (suc n) none s = (ok tt, record s { stored = suc n ∷ s.stored })
write (suc n) (some _) s = (ok tt, record s { pending = suc n ∷ s.pending })

-- a call without a connection is stored at once; with one it is made in the transaction
abbrev pub event_table : EventRegistryRepository entities World (Unit {0})
event_table = record {
  get_last_processed_event = λ chain_id s. (ok s.pointer, s);
  save_last_processed_event = λ chain_id event _ s.
      (ok tt, record s { pointer = some (record { chain_id = chain_id; event = event }) });
}

abbrev pub tables : Repositories entities World (Unit {0})
tables = record {
  project = record {
    insert_project = write;
    update_project = λ i c p. write p;
    insert_project_role = write;
    delete_many_project_roles = λ c i r a. write 3;
    insert_pending_project_role = write;
    delete_many_pending_project_roles = λ ids. write 2;
  };
  round = record {
    insert_round = write;
    update_round = λ k p. write p;
    increment_round_funds = λ c i a u. write a;
    increment_round_donation_stats = λ c i u. write 4;
    increment_round_total_distributed = λ c i a. write a;
    insert_round_role = write;
    delete_many_round_roles_by_role_and_address = λ c i r a. write 5;
    insert_pending_round_role = write;
    delete_many_pending_round_roles = λ ids. write 2;
  };
  application = record {
    insert_application = write;
    update_application = λ i c n p. write p;
    increment_application_donation_stats = λ i c n u. write 6;
  };
  donation = record { insert_donation = write; insert_many_donations = λ ds. write 2 };
  insert_application_payout = write;
  event_registry = event_table;
  insert_attestation = λ a ts. write a;
  insert_legacy_project = write;
}

-- the commit is refused if the newest row is 1
abbrev pub commit_rows : List ℕ → World → Outcome (Unit {0}) × World
commit_rows (suc zero ∷ rows) s = (err (native_error "commit"), s)
commit_rows rows s = (ok tt, record s { stored = s.pending })

abbrev pub commit : Unit {0} → Action World (Unit {0})
commit _ s = commit_rows s.pending s

abbrev pub rollback : Unit {0} → World → World
rollback _ s = record s { pending = [] }

abbrev pub begin : Action World (Unit {0})
begin s = (ok tt, record s { pending = s.stored })

abbrev pub manager : TransactionManager World (Unit {0})
manager = record { run_in_transaction = λ f s. finish commit rollback tt (f tt (begin s).1) }

pub commit_rows_keep :
    (rows : List ℕ) (s : World) (e : Error)
    → (commit_rows rows s).0 ≡ err e
    → (commit_rows rows s).1.stored ≡ s.stored
commit_rows_keep [] s e h = cc (h)
commit_rows_keep (zero ∷ rows) s e h = cc (h)
commit_rows_keep (suc zero ∷ rows) s e h = refl
commit_rows_keep (suc (suc n) ∷ rows) s e h = cc (h)

abbrev pub laws : IsTransactional (λ (s : World). s.stored) manager
laws = record {
  begin = begin;
  commit = commit;
  rollback = rollback;
  runs = λ f s. refl;
  begin_keeps = λ s. refl;
  rollback_keeps = λ tx s. refl;
  commit_keeps = λ tx s e h. commit_rows_keep s.pending s e h;
}
