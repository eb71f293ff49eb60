-- ===== src/Handlers/Strategies/Registrations.antt =====
-- The handlers of RegisteredWithSender, UpdatedRegistrationWithStatus and the timestamps, of each
-- strategy in packages/processors/src/processors/strategy.
pub mod Counters
use grants_stack_indexer_v.Prelude.{
  ℕ, zero, suc, String, Bool, true, false, Option, none, some, List, [], ◌∷◌, if◌then◌else◌,
}
use grants_stack_indexer_v.Prelude.Numerals.{to_string, big_int}
use grants_stack_indexer_v.Effects.{Outcome, ok, err, Action, pure, continue_with, ◌>>=◌, ◌>>◌}
use grants_stack_indexer_v.Changesets.{
  Changeset, round_changeset, application_changeset, update_round, insert_application,
  update_application,
}
use grants_stack_indexer_v.Events.{AnyEvent}
use grants_stack_indexer_v.Processors.{Handler}
use grants_stack_indexer_v.Handlers.Rows.{
  Date, Round, Project, Application, ApplicationStatus, pending, StatusUpdate, StrategyTimings,
  all_timings, application_timings, all_fields, rows,
}
use grants_stack_indexer_v.Handlers.Params.{Params}
use grants_stack_indexer_v.Handlers.Services.{Services}
use grants_stack_indexer_v.Handlers.Helpers.{
  lift, new_date, get_date_from_timestamp, is_valid_application_status, status_of,
  create_status_update, DecodedApplication, DecodedExtendedApplication,
  decode_dvmd_application_data, decode_dvmd_extended_application_data, decode_dg_application_data,
}

-- `(Number(recipientsCounter) - 1).toString()`; a text that is no number gives NaN. `Number` is exact up
-- to 2^53, and a counter is far below.
abbrev pub less_one : Option ℕ → String
less_one none = "NaN"
less_one (some zero) = "-1"
less_one (some (suc n)) = to_string n

unfoldable pub id_of_counter : String → String
id_of_counter counter = less_one (big_int counter)

abbrev pub counted : Outcome DecodedExtendedApplication → Outcome (String × String)
counted (err e) = err e
counted (ok values) = ok (id_of_counter values.recipients_counter, values.application.pointer)

module _ {ℓ} {Json : Type 0} {S P B : Type ℓ} (services : Services Json S P B) where
  open services use {chain_id, viem, round_repository, project_repository, application_repository}

  -- a new application, which is pending
  abbrev pub new_application :
      AnyEvent Params
      → String
      → Project Json
      → Round Json
      → String
      → String
      → Option Json
      → String
      → Application Json
  new_application event id project round anchor pointer metadata sender = record {
    chain_id = chain_id;
    id = id;
    project_id = project.id;
    anchor_address = some anchor;
    round_id = round.id;
    status = pending;
    metadata_cid = some pointer;
    metadata = metadata;
    created_at_block = event.block_number;
    created_by_address = sender;
    status_updated_at_block = event.block_number;
    status_snapshots =
        record {
          status = pending;
          updated_at_block = to_string event.block_number;
          updated_at = new_date event.block_timestamp;
        }
        ∷ [];
    distribution_transaction = none;
    total_amount_donated_in_usd = "0";
    total_donations_count = 0;
    unique_donors_count = 0;
    timestamp = new_date event.block_timestamp;
    tags = "allo-v2" ∷ [];
  }

  -- what the handlers of a registration have in common, with what each decodes: the id and the pointer
  unfoldable pub registered_by :
      (AnyEvent Params → Outcome (String × String)) → Handler (rows Json) Params S
  registered_by decode event = do
    anchor ← lift (viem.get_address event.params.recipient_id)
    project ← project_repository.get_project_by_anchor_or_throw chain_id anchor
    strategy_address ← lift (viem.get_address event.src_address)
    round ← round_repository.get_round_by_strategy_address_or_throw chain_id strategy_address
    (id, pointer) ← lift (decode event)
    metadata ← services.get_metadata pointer
    sender ← lift (viem.get_address event.params.sender)
    pure (
        application_changeset (
          insert_application
            (new_application event id project round anchor pointer metadata sender))
        ∷ [])

  abbrev pub decode_with_counter : AnyEvent Params → Outcome (String × String)
  decode_with_counter event =
      counted (decode_dvmd_extended_application_data viem event.params.encoded_data)

  abbrev pub decode_direct_grants : AnyEvent Params → Outcome (String × String)
  decode_direct_grants event = elim (decode_dg_application_data viem event.params.encoded_data) [
    | err e ↦ err e
    | ok values ↦ ok (event.params.recipient_id, values.pointer)
  ]

  -- `DVMDRegisteredHandler`
  unfoldable pub registered : Handler (rows Json) Params S
  unfolding registered_by
  registered = registered_by decode_with_counter

  -- `DGSimpleRegisteredHandler`
  unfoldable pub direct_grants_registered : Handler (rows Json) Params S
  unfolding registered_by
  direct_grants_registered = registered_by decode_direct_grants

  -- `{...application, ...statusUpdates, metadataCid, metadata}`
  abbrev pub updated_application :
      Application Json → StatusUpdate → String → Option Json → Application Json
  updated_application application update pointer json = record application {
    status = update.status;
    status_updated_at_block = update.status_updated_at_block;
    status_snapshots = update.status_snapshots;
    metadata_cid = some pointer;
    metadata = json;
  }

  -- `project.anchorAddress!`
  abbrev pub text_or_null : Option String → String
  text_or_null none = "null"
  text_or_null (some text) = text

  unfoldable pub update_registration : Handler (rows Json) Params S
  update_registration event = do
    anchor ← lift (viem.get_address event.params.recipient_id)
    project ← project_repository.get_project_by_anchor_or_throw chain_id anchor
    strategy_address ← lift (viem.get_address event.src_address)
    round ← round_repository.get_round_by_strategy_address_or_throw chain_id strategy_address
    application ←
        application_repository.get_application_by_anchor_address_or_throw chain_id round.id
          (text_or_null project.anchor_address)
    values ← lift (decode_dvmd_application_data viem event.params.encoded_data)
    metadata ← services.get_metadata values.pointer
    pure (
        application_changeset (
          update_application chain_id round.id application.id (
            all_fields (
              updated_application application
                (create_status_update application (status_of event.params.status) event.block_number
                  event.block_timestamp)
                values.pointer metadata)))
        ∷ [])

  -- `DVMDUpdatedRegistrationHandler`
  unfoldable pub updated_registration : Handler (rows Json) Params S
  unfolding update_registration
  updated_registration event =
      if is_valid_application_status event.params.status then update_registration event else pure []

  -- `DVMDTimestampsUpdatedHandler`
  unfoldable pub timestamps_updated : Handler (rows Json) Params S
  unfolding get_date_from_timestamp
  timestamps_updated event = do
    strategy_address ← lift (viem.get_address event.src_address)
    round ← round_repository.get_round_by_strategy_address_or_throw chain_id strategy_address
    pure (
        round_changeset (
          update_round chain_id round.id (
            all_timings (record {
              applications_start_time =
                  get_date_from_timestamp event.params.registration_start_time;
              applications_end_time = get_date_from_timestamp event.params.registration_end_time;
              donations_start_time = get_date_from_timestamp event.params.allocation_start_time;
              donations_end_time = get_date_from_timestamp event.params.allocation_end_time;
            })))
        ∷ [])

  -- `DGSimpleTimestampsUpdatedHandler`
  unfoldable pub application_timestamps_updated : Handler (rows Json) Params S
  unfolding get_date_from_timestamp
  application_timestamps_updated event = do
    strategy_address ← lift (viem.get_address event.src_address)
    round ← round_repository.get_round_by_strategy_address_or_throw chain_id strategy_address
    pure (
        round_changeset (
          update_round chain_id round.id (
            application_timings (get_date_from_timestamp event.params.start_time)
              (get_date_from_timestamp event.params.end_time)))
        ∷ [])

  -- the handlers of the other classes whose code is the same, up to the log lines
  -- `ERFRegisteredHandler`
  abbrev pub easy_retro_registered : Handler (rows Json) Params S
  easy_retro_registered = registered

  -- `DGLiteRegisteredHandler`
  abbrev pub lite_registered : Handler (rows Json) Params S
  lite_registered = registered

  -- `ERFUpdatedRegistrationHandler`
  abbrev pub easy_retro_updated_registration : Handler (rows Json) Params S
  easy_retro_updated_registration = updated_registration

  -- `DGLiteUpdatedRegistrationHandler`
  abbrev pub lite_updated_registration : Handler (rows Json) Params S
  lite_updated_registration = updated_registration

  -- `ERFTimestampsUpdatedHandler`
  abbrev pub easy_retro_timestamps_updated : Handler (rows Json) Params S
  easy_retro_timestamps_updated = timestamps_updated

  -- `DGLiteTimestampsUpdatedHandler`
  abbrev pub lite_timestamps_updated : Handler (rows Json) Params S
  lite_timestamps_updated = application_timestamps_updated
