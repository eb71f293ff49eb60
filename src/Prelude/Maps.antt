-- ===== src/Prelude/Maps.antt =====
-- A JavaScript `Map` as an association list, over any type of keys with a Boolean equality.
use Prim.Native.Nat.{ℕ}
use Prim.Native.String.{String}
use mathlib.Core.Path.{◌≡◌, refl}
use mathlib.Core.Logic.{◌↔◌}
use mathlib.Core.Bool.{Bool, true}
use mathlib.Core.Option.{Option, none, some}
use mathlib.Core.List.{List, [], ◌∷◌}
use native.Mathlib.Omega.{arith}
use text.Mathlib.Text.{◌==◌ as str_eq}
use text.Mathlib.TextEquality.{eq_iff}
use grants_stack_indexer_v.Prelude.Tests.{◌==◌, ==_iff, if◌then◌else◌}

pub record Keys {ℓ} (K : Type ℓ) : Type ℓ where
  pub same : K → K → Bool
  pub same_iff : (a b : K) → (same a b ≡ true) ↔ (a ≡ b)

instance abbrev pub number_keys : Keys ℕ
number_keys = record { same = ◌==◌; same_iff = ==_iff }

instance abbrev pub text_keys : Keys String
text_keys = record { same = str_eq; same_iff = eq_iff }

module _ {ℓ κ} {K : Type ℓ} {V : Type κ} ⦃keys : Keys K⦄ where
  -- `map.get(key)`
  unfoldable pub map_get : K → List (K × V) → Option V
  map_get k [] = none
  map_get k ((j, v) ∷ m) = if keys.same j k then some v else map_get k m

  -- `map.set(key, value)`: a key that is there keeps its place
  unfoldable pub map_set : K → V → List (K × V) → List (K × V)
  map_set k v [] = (k, v) ∷ []
  map_set k v ((j, w) ∷ m) =
      let rest = map_set k v m in if keys.same j k then (j, v) ∷ m else (j, w) ∷ rest

  pub map_get-set :
      (k j : K) (v : V) (m : List (K × V))
      → map_get j (map_set k v m) ≡ (if keys.same k j then some v else map_get j m)
  unfolding map_get map_set
  map_get-set k j v [] = refl
  map_get-set k j v ((i, w) ∷ m) =
      ground (arith, keys.same_iff k j, keys.same_iff i k, keys.same_iff i j, map_get-set k j v m)

  pub map_get-set_self : (k : K) (v : V) (m : List (K × V)) → map_get k (map_set k v m) ≡ some v
  map_get-set_self k v m = rw (map_get-set, (keys.same_iff k k).1 refl)

  -- `map.values()`
  unfoldable pub map_values : List (K × V) → List V
  map_values [] = []
  map_values ((k, v) ∷ m) = v ∷ map_values m
