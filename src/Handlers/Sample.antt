-- ===== src/Handlers/Sample.antt =====
-- Services on a small world: a cache of one row of timings, one pool, one profile and one application.
use grants_stack_indexer_v.Prelude.{
  ℕ, ◌*◌, ◌/◌, ◌-◌, ◌%◌, ◌^◌, String, Bool, true, false, Option, none, some, List, [], ◌∷◌, map,
  if◌then◌else◌,
}
use Prim.Native.String.{◌++◌ as ◌++ₛ◌}
use grants_stack_indexer_v.Prelude.Numerals.{to_string, big_int}
use grants_stack_indexer_v.Effects.{ok}
use grants_stack_indexer_v.Changesets.{RoundRoleName, admin, manager}
use grants_stack_indexer_v.Events.{AnyEvent, strategy, equals}
use grants_stack_indexer_v.Handlers.Rows.{
  at, Round, Project, Application, pending, linked, PendingRoundRole, PendingProjectRole,
  NewPendingRoundRole,
}
use grants_stack_indexer_v.Handlers.Params.{Params}
use grants_stack_indexer_v.Handlers.Services.{Services, Token, TimingsRow, Viem}
use grants_stack_indexer_v.Handlers.StrategyReads.{no_timings}

-- the rows of the pools that exist, and the timings that are cached
pub record World : Type 0 where
  pub has_pool : Bool
  pub cached : Option TimingsRow

abbrev pub a_pool : Round ℕ
a_pool = record {
  id = "7";
  chain_id = 10;
  match_amount = 0;
  match_token_address = "0xmatch";
  match_amount_in_usd = "0";
  funded_amount = 0;
  funded_amount_in_usd = "0";
  application_metadata_cid = "cid";
  application_metadata = 0;
  round_metadata_cid = "cid";
  round_metadata = none;
  timings = no_timings;
  created_by_address = "0xcreator";
  created_at_block = 5;
  updated_at_block = 5;
  total_amount_donated_in_usd = "0";
  total_donations_count = 0;
  total_distributed = 0;
  unique_donors_count = 0;
  manager_role = "manager of 7";
  admin_role = "admin of 7";
  strategy_address = "0xstrategy";
  strategy_id = "";
  strategy_name = "";
  ready_for_payout_transaction = none;
  matching_distribution = none;
  project_id = "0xprofile";
  tags = [];
  timestamp = at 1000;
}

abbrev pub a_profile : Project ℕ
a_profile = record {
  tags = [];
  chain_id = 10;
  registry_address = "0xregistry";
  id = "0xprofile";
  name = "profile";
  nonce = 1;
  anchor_address = some "0xanchor";
  project_number = none;
  metadata_cid = "cid";
  metadata = none;
  created_by_address = "0xcreator";
  created_at_block = 5;
  updated_at_block = 5;
  project_type = linked;
  timestamp = at 1000;
}

abbrev pub an_application : Application ℕ
an_application = record {
  id = "64";
  chain_id = 10;
  round_id = "7";
  project_id = "0xprofile";
  anchor_address = some "0xanchor";
  status = pending;
  status_snapshots = [];
  distribution_transaction = none;
  metadata_cid = none;
  metadata = none;
  created_by_address = "0xcreator";
  created_at_block = 5;
  status_updated_at_block = 5;
  total_donations_count = 0;
  total_amount_donated_in_usd = "0";
  unique_donors_count = 0;
  timestamp = at 1000;
  tags = [];
}

abbrev pub viem : Viem
viem = record {
  get_address = λ address. ok address;
  keccak_of_text = λ text. text;
  keccak_of_pool = λ pool_id. "admin of " ++ₛ to_string pool_id;
  pad_number = λ pool_id. "manager of " ++ₛ to_string pool_id;
  parse_units = λ text decimals. ok 1000;
  decode_dvmd_data = λ encoded. ok ("0xanchor", "0xrecipient", 1, "cid");
  decode_dvmd_event_data = λ encoded. ok (encoded, 8);
  decode_dg_data = λ encoded. ok ("0xrecipient", "0xanchor", 0, 1, "cid");
  decode_attestation = λ encoded. ok (1, 2, 3, 4, 5, "cid");
}

abbrev a_token : String → Token
a_token address = record { price_source_code = "ETH"; address = address; decimals = 2 }

abbrev pub pending_admin : NewPendingRoundRole
pending_admin = record {
  chain_id = 10;
  role = "admin of 7";
  address = "0xaccount";
  created_at_block = 100;
}

abbrev pub admins : List PendingRoundRole
admins = record { id = 3; row = pending_admin } ∷ []

abbrev pub a_waiting_member : PendingProjectRole
a_waiting_member = record {
  id = 1;
  row = record { chain_id = 10; role = "0xprofile"; address = "0xmember"; created_at_block = 90 };
}

abbrev pub find_application : String → Option (Application ℕ)
find_application id = if equals "64" id then some an_application else none

abbrev is_admin : RoundRoleName → Bool
is_admin admin = true
is_admin manager = false

abbrev pub services : Services ℕ World ℕ ℕ
services = record {
  chain_id = 10;
  tokens = λ chain address. some (a_token address);
  viem = viem;
  numbers = record {
    big = λ text. elim (big_int text) [ none ↦ 0 | some n ↦ n ];
    multiplied_by = λ m n. m * n;
    divided_by = λ m n. m / n;
    pow = λ m n. m ^ n;
    decimal_places = λ m n. m;
    big_to_string = λ m. to_string m;
    to_fixed_floor = λ m. to_string m;
    number_to_string = λ m. to_string m;
    inverse = λ m. 1 / m;
    to_numeric_string = λ m. to_string m;
  };
  schemas = record {
    round_field = λ json. some json;
    application_field = λ json. some json;
    empty_object = 0;
    round_metadata = λ json. some 10;
    project_metadata = λ json. some (record { has_canonical = false; type = "project"; value = 1 });
    application_metadata = λ json. some "0xrecipient";
    matching_distribution = λ json. some json;
    simple_matching_distribution = λ json. some json;
    attestations = λ json. [];
    no_attestations = 0;
  };
  status_in_row = λ row full i. full / 16 ^ (i - row * 64) % 16;
  get_metadata = λ cid s. (ok (some 1), s);
  pricing_provider = record {
    get_token_price =
        λ code start end s. (ok (some (record { timestamp_ms = start; price_usd = 3 })), s);
    get_token_prices = λ code times s. (ok [], s);
  };
  evm_provider = record {
    get_transaction_from = λ hash s. (ok "0xsender", s);
    get_multicall3_address = none;
    multicall = λ calls s. (ok (map (λ c. 1) calls), s);
    read_contract = λ call s. (ok 20000000, s);
  };
  round_repository = record {
    get_round_by_role = λ chain name role s.
        (ok (if s.has_pool then if is_admin name then some a_pool else none else none), s);
    get_round_by_id_or_throw = λ chain id s. (ok a_pool, s);
    get_round_by_strategy_address = λ chain address s. (ok (some a_pool), s);
    get_round_by_strategy_address_or_throw = λ chain address s. (ok a_pool, s);
    get_pending_round_roles =
        λ chain role s. (ok (if equals "admin of 7" role then admins else []), s);
  };
  project_repository = record {
    get_project_by_id = λ chain id s. (ok (some a_profile), s);
    get_project_by_id_or_throw = λ chain id s. (ok a_profile, s);
    get_project_by_anchor_or_throw = λ chain anchor s. (ok a_profile, s);
    get_pending_project_roles_by_role = λ chain role s. (ok (a_waiting_member ∷ []), s);
  };
  application_repository = record {
    get_application_by_id = λ id chain round_id s. (ok (find_application id), s);
    get_application_by_anchor_address_or_throw =
        λ chain round_id anchor s. (ok (record an_application { chain_id = chain }), s);
  };
  timings_repository = record {
    get = λ address s. (ok s.cached, s);
    set = λ address row s. (ok tt, record s { cached = some row });
  };
}

abbrev pub parameters : Params
parameters = record {
  account = "0xaccount";
  allo_v1 = "0xv1";
  allo_v1_chain_id = 1;
  allo_v2 = "0xprofile";
  allocation_end_time = 40000000;
  allocation_start_time = 30000000;
  amount = 500;
  anchor = "0xanchor";
  encoded_data = "0xdata";
  end_time = 20000000;
  fee = 0;
  -- 2 at the first place, which is approved, and 9 at the second
  full_row = 146;
  metadata_pointer = "cid";
  name = "profile";
  nonce = 1;
  origin = "0xorigin";
  owner = "0xowner";
  pool_id = 7;
  profile_id = "0xprofile";
  profile_owner = "0xowner";
  recipient = "0xrecipient";
  recipient_id = "0xanchor";
  ref_uid = "";
  registration_end_time = 20000000;
  registration_start_time = 10000000;
  role = "admin of 7";
  row_index = 1;
  sender = "0xsender";
  start_time = 10000000;
  status = 2;
  strategy = "0xstrategy";
  token = "0xtoken";
  uid = "0xuid";
}

abbrev pub event_named : String → AnyEvent Params
event_named name = record {
  block_number = 100;
  block_timestamp = 1700000000000;
  chain_id = 10;
  contract_name = strategy;
  event_name = name;
  log_index = 4;
  params = parameters;
  src_address = "0xstrategy";
  transaction_fields = record { hash = "0xhash"; transaction_index = 1; from_address = none };
  strategy_id = some "0x103732A8e473467a510d4128ee11065262bdd978f0d9dad89ba68f2c56127e27";
}

abbrev pub before_pool : World
before_pool = record { has_pool = false; cached = none }

abbrev pub after_pool : World
after_pool = record { has_pool = true; cached = none }
