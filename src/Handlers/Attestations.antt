-- ===== src/Handlers/Attestations.antt =====
-- packages/processors/src/processors/gitcoinAttestationNetwork and alloV1ToV2ProfileMigration: the
-- handlers of OnAttested and ProfileMigrated.
use grants_stack_indexer_v.Prelude.{ℕ, String, Option, none, some, [], ◌∷◌}
use grants_stack_indexer_v.Effects.{Outcome, ok, err, pure, ◌>>=◌}
use grants_stack_indexer_v.Changesets.{insert_attestation, insert_legacy_project}
use grants_stack_indexer_v.Processors.{Handler}
use grants_stack_indexer_v.Handlers.Rows.{rows}
use grants_stack_indexer_v.Handlers.Params.{Params}
use grants_stack_indexer_v.Handlers.Services.{Services, Viem}
use grants_stack_indexer_v.Handlers.Helpers.{lift, get_date_from_timestamp}

pub record GitcoinAttestedData : Type 0 where
  pub projects_contributed : ℕ
  pub rounds_contributed : ℕ
  pub chain_ids_contributed : ℕ
  pub total_usd_amount : ℕ
  pub timestamp : ℕ
  pub metadata_cid : String

-- `decodeAttestedData`
unfoldable pub decode_attested_data : Viem → String → Outcome GitcoinAttestedData
decode_attested_data viem encoded = elim (viem.decode_attestation encoded) [
  | err e ↦ err e
  | ok (projects, rounds, chains, total, timestamp, cid) ↦ ok (record {
    projects_contributed = projects;
    rounds_contributed = rounds;
    chain_ids_contributed = chains;
    total_usd_amount = total;
    timestamp = timestamp;
    metadata_cid = cid;
  })
]

module _ {ℓ} {Json : Type 0} {S P B : Type ℓ} (services : Services Json S P B) where
  open services use {chain_id, viem, schemas}

  abbrev pub attestations_or_none : Option Json → Json
  attestations_or_none none = schemas.no_attestations
  attestations_or_none (some metadata) = metadata

  -- `OnAttestedHandler`
  unfoldable pub on_attested : Handler (rows Json) Params S
  unfolding get_date_from_timestamp
  on_attested event = do
    recipient ← lift (viem.get_address event.params.recipient)
    decoded ← lift (decode_attested_data viem event.params.encoded_data)
    metadata ← services.get_metadata decoded.metadata_cid
    let attestations = attestations_or_none metadata
    pure (
        insert_attestation
          (record {
            uid = event.params.uid;
            chain_id = chain_id;
            recipient = recipient;
            fee = event.params.fee;
            ref_uid = event.params.ref_uid;
            projects_contributed = decoded.projects_contributed;
            rounds_contributed = decoded.rounds_contributed;
            chain_ids_contributed = decoded.chain_ids_contributed;
            total_usd_amount = decoded.total_usd_amount;
            timestamp = get_date_from_timestamp decoded.timestamp;
            metadata_cid = decoded.metadata_cid;
            metadata = attestations;
          })
          (schemas.attestations attestations)
        ∷ [])

  -- `ProfileMigratedHandler`
  unfoldable pub profile_migrated : Handler (rows Json) Params S
  profile_migrated event = pure (
      insert_legacy_project (record {
        v1_project_id = event.params.allo_v1;
        v1_chain_id = event.params.allo_v1_chain_id;
        v2_project_id = event.params.allo_v2;
      })
      ∷ [])
