-- ===== src/Handlers/Params.antt =====
-- packages/shared/src/types/events: the parameters of the events. An event has the fields of its own
-- type of parameters, and a handler reads no others. The uint256 numbers, decimal texts in the event,
-- are numbers here.
use grants_stack_indexer_v.Prelude.{ℕ, String}

pub record Params : Type 0 where
  pub account : String
  pub allo_v1 : String
  pub allo_v1_chain_id : ℕ
  pub allo_v2 : String
  pub allocation_end_time : ℕ
  pub allocation_start_time : ℕ
  pub amount : ℕ
  pub anchor : String
  pub encoded_data : String
  pub end_time : ℕ
  pub fee : ℕ
  pub full_row : ℕ
  -- `metadata[1]`
  pub metadata_pointer : String
  pub name : String
  pub nonce : ℕ
  pub origin : String
  pub owner : String
  pub pool_id : ℕ
  pub profile_id : String
  pub profile_owner : String
  pub recipient : String
  pub recipient_id : String
  pub ref_uid : String
  pub registration_end_time : ℕ
  pub registration_start_time : ℕ
  pub role : String
  pub row_index : ℕ
  pub sender : String
  pub start_time : ℕ
  pub status : ℕ
  pub strategy : String
  pub token : String
  pub uid : String
