-- ===== src/Handlers/Rows.antt =====
-- packages/repository/src/types: the rows that the handlers read and write. A JSON value is of any type
-- `Json`, and a partial row is one of the sets of fields that the handlers write.
use grants_stack_indexer_v.Prelude.{ℕ, String, Option, none, some, List}
use grants_stack_indexer_v.Changesets.{Entities, ProjectRoleName, RoundRoleName}

-- a `Date`: a number of milliseconds, or not a date; and what a cast of a JSON value has in its place, the
-- text that `toISOString` writes for a time
pub data Date : Type 0 where
  at : ℕ → Date
  invalid_date : Date
  iso_text : ℕ → Date

pub record StrategyTimings : Type 0 where
  pub applications_start_time : Option Date
  pub applications_end_time : Option Date
  pub donations_start_time : Option Date
  pub donations_end_time : Option Date

-- the JSON value of timings: each is the text of a time, given by the time, or null
pub record JsonTimings : Type 0 where
  pub applications_start_time : Option ℕ
  pub applications_end_time : Option ℕ
  pub donations_start_time : Option ℕ
  pub donations_end_time : Option ℕ

-- `JSON.stringify` of a date writes the text of its time, and null for a date that is none
unfoldable pub json_date : Option Date → Option ℕ
json_date none = none
json_date (some (at ms)) = some ms
json_date (some invalid_date) = none
json_date (some (iso_text ms)) = some ms

-- `JSON.stringify(strategyTimings)`
unfoldable pub json_timings : StrategyTimings → JsonTimings
json_timings timings = record {
  applications_start_time = json_date timings.applications_start_time;
  applications_end_time = json_date timings.applications_end_time;
  donations_start_time = json_date timings.donations_start_time;
  donations_end_time = json_date timings.donations_end_time;
}

-- `as unknown as StrategyTimings`: the texts stay texts
unfoldable pub cast_date : Option ℕ → Option Date
cast_date none = none
cast_date (some ms) = some (iso_text ms)

unfoldable pub cast_timings : JsonTimings → StrategyTimings
cast_timings timings = record {
  applications_start_time = cast_date timings.applications_start_time;
  applications_end_time = cast_date timings.applications_end_time;
  donations_start_time = cast_date timings.donations_start_time;
  donations_end_time = cast_date timings.donations_end_time;
}

pub record RoundRole : Type 0 where
  pub chain_id : ℕ
  pub round_id : String
  pub address : String
  pub role : RoundRoleName
  pub created_at_block : ℕ

-- `NewPendingRoundRole`, and `PendingRoundRole` with its id
pub record NewPendingRoundRole : Type 0 where
  pub chain_id : ℕ
  pub role : String
  pub address : String
  pub created_at_block : ℕ

pub record PendingRoundRole : Type 0 where
  pub id : ℕ
  pub row : NewPendingRoundRole

pub data ProjectType : Type 0 where
  canonical linked : ProjectType

pub record ProjectRole : Type 0 where
  pub chain_id : ℕ
  pub project_id : String
  pub address : String
  pub role : ProjectRoleName
  pub created_at_block : ℕ

pub record NewPendingProjectRole : Type 0 where
  pub chain_id : ℕ
  pub role : String
  pub address : String
  pub created_at_block : ℕ

pub record PendingProjectRole : Type 0 where
  pub id : ℕ
  pub row : NewPendingProjectRole

-- `ApplicationStatus` of application.types.ts
pub data ApplicationStatus : Type 0 where
  pending approved rejected cancelled in_review : ApplicationStatus

pub record StatusSnapshot : Type 0 where
  pub status : ApplicationStatus
  pub updated_at_block : String
  pub updated_at : Date

-- `Pick<Application, "status" | "statusUpdatedAtBlock" | "statusSnapshots">`
pub record StatusUpdate : Type 0 where
  pub status : ApplicationStatus
  pub status_updated_at_block : ℕ
  pub status_snapshots : List StatusSnapshot

pub record Donation : Type 0 where
  pub id : String
  pub chain_id : ℕ
  pub round_id : String
  pub application_id : Option String
  pub donor_address : String
  pub recipient_address : String
  pub project_id : String
  pub transaction_hash : String
  pub block_number : ℕ
  pub token_address : String
  pub amount : ℕ
  pub amount_in_usd : String
  pub amount_in_round_match_token : ℕ
  pub timestamp : Date

-- `NewApplicationPayout`
pub record ApplicationPayout : Type 0 where
  pub amount : ℕ
  pub application_id : String
  pub round_id : String
  pub chain_id : ℕ
  pub token_address : String
  pub amount_in_round_match_token : ℕ
  pub amount_in_usd : String
  pub transaction_hash : String
  pub sender : String
  pub timestamp : Date

pub record AttestationTxnData : Type 0 where
  pub chain_id : ℕ
  pub txn_hash : String

pub record LegacyProject : Type 0 where
  pub v1_project_id : String
  pub v1_chain_id : ℕ
  pub v2_project_id : String

module _ (Json : Type 0) where
  pub record Round : Type 0 where
    pub id : String
    pub chain_id : ℕ
    pub match_amount : ℕ
    pub match_token_address : String
    pub match_amount_in_usd : String
    pub funded_amount : ℕ
    pub funded_amount_in_usd : String
    pub application_metadata_cid : String
    pub application_metadata : Json
    pub round_metadata_cid : String
    pub round_metadata : Option Json
    pub timings : StrategyTimings
    pub created_by_address : String
    pub created_at_block : ℕ
    pub updated_at_block : ℕ
    pub total_amount_donated_in_usd : String
    pub total_donations_count : ℕ
    pub total_distributed : ℕ
    pub unique_donors_count : ℕ
    pub manager_role : String
    pub admin_role : String
    pub strategy_address : String
    pub strategy_id : String
    pub strategy_name : String
    pub ready_for_payout_transaction : Option String
    pub matching_distribution : Option Json
    pub project_id : String
    pub tags : List String
    pub timestamp : Date

  pub data PartialRound : Type 0 where
    match_and_metadata :
        (match_amount : ℕ) (match_amount_in_usd application_metadata_cid : String)
        (application_metadata : Json) (round_metadata_cid : String) (round_metadata : Json)
        → PartialRound
    ready_for_payout : (transaction : String) (matching_distribution : Json) → PartialRound
    all_timings : StrategyTimings → PartialRound
    application_timings : (start end : Option Date) → PartialRound

  pub record Project : Type 0 where
    pub tags : List String
    pub chain_id : ℕ
    pub registry_address : String
    pub id : String
    pub name : String
    pub nonce : ℕ
    pub anchor_address : Option String
    pub project_number : Option ℕ
    pub metadata_cid : String
    pub metadata : Option Json
    pub created_by_address : String
    pub created_at_block : ℕ
    pub updated_at_block : ℕ
    pub project_type : ProjectType
    pub timestamp : Date

  pub data PartialProject : Type 0 where
    project_metadata :
        (metadata_cid : String) (metadata : Option Json) → ProjectType → PartialProject
    project_name : (name anchor_address : String) → PartialProject

  pub record Application : Type 0 where
    pub id : String
    pub chain_id : ℕ
    pub round_id : String
    pub project_id : String
    pub anchor_address : Option String
    pub status : ApplicationStatus
    pub status_snapshots : List StatusSnapshot
    pub distribution_transaction : Option String
    pub metadata_cid : Option String
    pub metadata : Option Json
    pub created_by_address : String
    pub created_at_block : ℕ
    pub status_updated_at_block : ℕ
    pub total_donations_count : ℕ
    pub total_amount_donated_in_usd : String
    pub unique_donors_count : ℕ
    pub timestamp : Date
    pub tags : List String

  pub data PartialApplication : Type 0 where
    distribution : (transaction : String) → PartialApplication
    status_update : StatusUpdate → PartialApplication
    all_fields : Application → PartialApplication

  pub record Attestation : Type 0 where
    pub uid : String
    pub chain_id : ℕ
    pub recipient : String
    pub fee : ℕ
    pub ref_uid : String
    pub projects_contributed : ℕ
    pub rounds_contributed : ℕ
    pub chain_ids_contributed : ℕ
    pub total_usd_amount : ℕ
    pub timestamp : Option Date
    pub metadata_cid : String
    pub metadata : Json

  abbrev pub rows : Entities
  rows = record {
    Project = Project;
    PartialProject = PartialProject;
    ProjectRole = ProjectRole;
    PendingProjectRole = NewPendingProjectRole;
    Round = Round;
    PartialRound = PartialRound;
    RoundRole = RoundRole;
    PendingRoundRole = NewPendingRoundRole;
    Application = Application;
    PartialApplication = PartialApplication;
    Donation = Donation;
    ApplicationPayout = ApplicationPayout;
    Attestation = Attestation;
    AttestationTxn = AttestationTxnData;
    LegacyProject = LegacyProject;
    RawEvent = Json;
  }
