-- ===== src/Events/Tests.antt =====
-- Runs of the guards.
use grants_stack_indexer_v.Prelude.{◌≡◌, refl, true, false}
use grants_stack_indexer_v.Prelude.Maps.{map_get}
use grants_stack_indexer_v.Events.{includes, allo_events, strategy_events, to_lower_case}

known_name : includes strategy_events "DirectAllocated" ≡ true
unfolding includes
known_name = refl

unknown_name : includes allo_events "DirectAllocated" ≡ false
unfolding includes
unknown_name = refl

lowered : to_lower_case "0xAbC9fZ" ≡ "0xabc9fz"
unfolding to_lower_case map_get
lowered = refl
