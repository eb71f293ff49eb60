-- ===== src/Handlers/Tests.antt =====
-- The handlers on the services of `Sample`, and each theorem at an input.
use grants_stack_indexer_v.Prelude.Maps.{map_get}
use grants_stack_indexer_v.Prelude.{
  ℕ, ◌+◌, ◌*◌, ◌/◌, ◌%◌, ◌^◌, ◌≤◌, ◌<◌, arith, ◌≡◌, refl, ap, subst, ◌↔◌, none, some, true, List,
  [], ◌∷◌, ◌++◌,
}
use grants_stack_indexer_v.Prelude.Listed.{Listed, here}
use grants_stack_indexer_v.Prelude.Numerals.{to_string, digit_char}
use grants_stack_indexer_v.Effects.{ok}
use grants_stack_indexer_v.Effects.Triples.{Returns, Sound}
use grants_stack_indexer_v.Changesets.{
  Changeset, round_changeset, application_changeset, insert_round_role, admin, manager,
  update_application,
}
use grants_stack_indexer_v.Processors.{dvmd_direct_transfer, direct_grants_lite, process_event}
use grants_stack_indexer_v.Handlers.Rows.{
  at, invalid_date, StrategyTimings, json_timings, cast_timings, Application, pending, approved,
  rejected, status_update, RoundRole, rows,
}
use grants_stack_indexer_v.Handlers.Helpers.{
  uint64_max, get_date_from_timestamp, create_status_update, status_of, admin_role_of,
  manager_role_of, read_contracts,
}
use grants_stack_indexer_v.Handlers.Helpers.Dates.{get_date_from_timestamp_bounds}
use grants_stack_indexer_v.Handlers.Helpers.Ids.{get_donation_id_injective}
use grants_stack_indexer_v.Handlers.Helpers.Statuses.{
  StatusEvent, after_updates, changes_from, statuses_of, after_updates-changes_from,
}
use grants_stack_indexer_v.Handlers.StrategyReads.{four_timings, fetch_strategy_timings}
use grants_stack_indexer_v.Events.{to_lower_case}
use grants_stack_indexer_v.Handlers.Allo.{role_granted, find_round_by_role}
use grants_stack_indexer_v.Handlers.Allo.PoolCreated.{
  role_changes, delete_changes, handle_pending_roles, strategy_timings,
}
use grants_stack_indexer_v.Handlers.Allo.PoolCreated.Timings.{strategy_timings-strategy_timings}
use grants_stack_indexer_v.Handlers.Allo.PoolCreated.Pending.{
  Distinct, handle_pending_roles-Distinct,
}
use grants_stack_indexer_v.Handlers.Allo.Roles.{role_granted-handle_pending_roles}
use grants_stack_indexer_v.Handlers.Registry.{profile_created}
use grants_stack_indexer_v.Handlers.Registry.Roles.{Converted, profile_created-Converted}
use grants_stack_indexer_v.Handlers.Strategies.Common.{recipient_status_updated}
use grants_stack_indexer_v.Handlers.Strategies.Common.FullRow.{recipient_status_updated_iff}
use grants_stack_indexer_v.Handlers.Strategies.Registrations.{registered}
use grants_stack_indexer_v.Handlers.Strategies.Registrations.Counters.{InsertsNumber, registered-id}
use grants_stack_indexer_v.Handlers.Strategies.Allocations.{
  allocated, allocated_with_token, direct_allocated,
}
use grants_stack_indexer_v.Handlers.Strategies.Allocations.Amounts.{Booked, allocations-Booked}
use grants_stack_indexer_v.Handlers.Strategies.Dispatch.{handlers}
use grants_stack_indexer_v.Handlers.Sound.{ServicesKeep, AllOnChain}
use grants_stack_indexer_v.Handlers.Sound.Events.{process_event-Sound}
use grants_stack_indexer_v.Handlers.Sample.{
  World, services, viem, event_named, before_pool, after_pool, admins, pending_admin,
  a_waiting_member, an_application, a_pool, find_application,
}

get_date_from_timestamp_bounds_example :
    ((get_date_from_timestamp 1700000000 ≡ none) ↔ (uint64_max ≤ 1700000000))
    × ((get_date_from_timestamp 1700000000 ≡ some invalid_date)
        ↔ ((8640000000000000 < 1700000000) × (1700000000 < uint64_max)))
    × ((ms : ℕ) → get_date_from_timestamp 1700000000 ≡ some (at ms) → ms ≤ 8640000000000000)
get_date_from_timestamp_bounds_example = get_date_from_timestamp_bounds 1700000000

get_donation_id_injective_example : (◌≡◌ {A = ℕ} 12 12) × (◌≡◌ {A = ℕ} 3 3)
get_donation_id_injective_example = get_donation_id_injective viem 12 3 12 3 (λ e. e) refl

abbrev updates : List StatusEvent
updates = (approved, 101, 1) ∷ (approved, 102, 2) ∷ (rejected, 103, 3) ∷ []

after_updates-changes_from_example :
    ((after_updates an_application updates).status ≡ rejected)
    × (statuses_of (after_updates an_application updates).status_snapshots
        ≡ [] ++ changes_from pending (approved ∷ approved ∷ rejected ∷ []))
after_updates-changes_from_example = after_updates-changes_from an_application updates

abbrev first_timings : StrategyTimings
first_timings = four_timings (20000000 ∷ 20000000 ∷ 20000000 ∷ 20000000 ∷ [])

strategy_timings-strategy_timings_example :
    let t = record before_pool {
      cached = some (record {
        address = "0xstrategy";
        timings = json_timings first_timings;
        strategy_id = "0x1";
      });
    } in
    strategy_timings services (some direct_grants_lite) "0xstrategy" "0x2" t
    ≡ (ok (cast_timings (json_timings first_timings)), t)
unfolding strategy_timings fetch_strategy_timings read_contracts
strategy_timings-strategy_timings_example =
    strategy_timings-strategy_timings services (λ address s. refl)
      (λ address row s t h. (
        row,
        subst (λ (w : World). services.timings_repository.get address w ≡ (ok (some row), w))
            (ap (λ r. r.1) h) refl,
        refl,
      ))
      dvmd_direct_transfer direct_grants_lite "0xstrategy" "0x1" "0x2" before_pool _ _ refl

handle_pending_roles-Distinct_example :
    (ids : List ℕ) × (handle_pending_roles services 7 before_pool ≡ (
      ok (
          role_changes services "7" admin admins
          ++ (role_changes services "7" manager [] ++ delete_changes services ids)),
      before_pool,
    ))
    × Distinct ids
    × ((n : ℕ) → Listed n ids ↔ Listed n (3 ∷ []))
unfolding admin_role_of manager_role_of to_string digit_char
handle_pending_roles-Distinct_example =
    handle_pending_roles-Distinct services 7 admins [] before_pool before_pool before_pool refl refl
      refl

abbrev granted_role : RoundRole
granted_role = record {
  chain_id = 10;
  round_id = "7";
  address = "0xaccount";
  role = admin;
  created_at_block = 100;
}

role_granted-handle_pending_roles_example :
    (changes : List (Changeset (rows ℕ))) × (handle_pending_roles services 7 before_pool
      ≡ (ok changes, before_pool))
    × Listed (round_changeset (insert_round_role granted_role)) changes
unfolding role_granted find_round_by_role to_lower_case map_get admin_role_of manager_role_of
    to_string digit_char
role_granted-handle_pending_roles_example =
    role_granted-handle_pending_roles services (event_named "RoleGranted") 7 3 pending_admin
      granted_role admins [] before_pool before_pool after_pool after_pool before_pool before_pool
      before_pool refl refl refl refl refl refl here

profile_created-Converted_example :
    Returns
      (Converted services
        (event_named "ProfileCreated")
        (a_waiting_member ∷ [])
        a_waiting_member
        "0xmember")
      (profile_created services (event_named "ProfileCreated") before_pool).0
profile_created-Converted_example =
    profile_created-Converted services (event_named "ProfileCreated") (a_waiting_member ∷ [])
      (λ s. refl) a_waiting_member "0xmember" here refl before_pool

recipient_status_updated_iff_example :
    (changes : List (Changeset (rows ℕ))) × (recipient_status_updated services
        (event_named "RecipientStatusUpdatedWithFullRow")
        after_pool
      ≡ (ok changes, after_pool))
    × ((change : Changeset (rows ℕ))
        → Listed change changes ↔ (
            (k : ℕ) × (application : Application ℕ) × (k < 64)
            × (find_application (to_string (1 * 64 + k)) ≡ some application)
            × (1 ≤ 146 / 16 ^ k % 16)
            × (146 / 16 ^ k % 16 ≤ 5)
            × (change
                ≡ application_changeset (
                    update_application 10 "7" application.id (
                      status_update (
                        create_status_update application
                          (status_of (146 / 16 ^ k % 16))
                          100
                          1700000000000))))))
recipient_status_updated_iff_example =
    recipient_status_updated_iff services (event_named "RecipientStatusUpdatedWithFullRow") a_pool
      "0xstrategy" after_pool after_pool find_application refl refl (λ id s. refl)
      (λ k below. ap (λ n. 146 / 16 ^ n % 16) (omega arith))

allocations-Booked_example :
    Returns
      (Booked services (event_named "AllocatedWithOrigin"))
      (allocated services (event_named "AllocatedWithOrigin") after_pool).0
    × Returns
        (Booked services (event_named "AllocatedWithOrigin"))
        (direct_allocated services (event_named "AllocatedWithOrigin") after_pool).0
    × Returns
        (Booked services (event_named "AllocatedWithOrigin"))
        (allocated_with_token services (event_named "AllocatedWithOrigin") after_pool).0
allocations-Booked_example =
    allocations-Booked services (event_named "AllocatedWithOrigin") after_pool

registered-id_example :
    Returns
      (InsertsNumber services (event_named "RegisteredWithSender") 7)
      (registered services (event_named "RegisteredWithSender") after_pool).0
registered-id_example =
    registered-id services (event_named "RegisteredWithSender") "0xdata" 7 refl (omega arith)
      after_pool

abbrev HasPool : World → Type 0
HasPool s = s.has_pool ≡ true

services_keep : ServicesKeep HasPool services
services_keep = record {
  metadata = λ cid. record { holds = λ s i. (i, tt) };
  price = λ code start end. record { holds = λ s i. (i, tt) };
  transaction = λ hash. record { holds = λ s i. (i, tt) };
  multicall = λ calls. record { holds = λ s i. (i, tt) };
  contract = λ call. record { holds = λ s i. (i, tt) };
  round_by_role = λ chain name role. record { holds = λ s i. (i, tt) };
  round_by_id = λ chain id. record { holds = λ s i. (i, tt) };
  round_by_strategy = λ chain address. record { holds = λ s i. (i, tt) };
  round_by_strategy_or_throw = λ chain address. record { holds = λ s i. (i, tt) };
  pending_round_roles = λ chain role. record { holds = λ s i. (i, tt) };
  project_by_id = λ chain id. record { holds = λ s i. (i, tt) };
  project_by_id_or_throw = λ chain id. record { holds = λ s i. (i, tt) };
  project_by_anchor = λ chain anchor. record { holds = λ s i. (i, tt) };
  pending_project_roles = λ chain role. record { holds = λ s i. (i, tt) };
  application_by_id = λ id chain round_id. record { holds = λ s i. (i, tt) };
  application_by_anchor = λ chain round_id anchor. record { holds = λ s i. (i, refl) };
  get_timings = λ address. record { holds = λ s i. (i, tt) };
  set_timings = λ address row. record { holds = λ s i. (i, tt) };
}

process_event-Sound_example :
    Sound HasPool
      (AllOnChain 10)
      (process_event (handlers services) (event_named "UpdatedRegistrationWithStatus"))
process_event-Sound_example =
    process_event-Sound services_keep (event_named "UpdatedRegistrationWithStatus")
