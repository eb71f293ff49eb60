-- ===== src/Registries/Strategies/Lookups.antt =====
-- What the registry of strategies in memory answers after a save, and when it does not save.
use grants_stack_indexer_v.Prelude.{
  ℕ, ◌≡◌, refl, ◌∙◌, ap, String, Bool, true, false, Bool-cases, inl, inr, Option, none, some, List,
  [], ◌==◌, ==_iff, ◌⊎◌, subst, if◌then◌else◌,
}
use grants_stack_indexer_v.Prelude.Maps.{number_keys, text_keys, map_get, map_get-set}
use grants_stack_indexer_v.Effects.{Outcome, ok, err}
use grants_stack_indexer_v.Registries.Strategies.{
  Strategy, StrategyRegistry, StrategyCache, inner_get, inner_set, cache_get, cache_set, same_flag,
  keep_strategy_saved, cached_get_strategy, cached_save_strategy,
}

inner_get-set :
    (a b : String) (x : Strategy) (m : Option (List (String × Strategy)))
    → map_get b (inner_set a x m) ≡ (if text_keys.same a b then some x else inner_get b m)
unfolding map_get
inner_get-set a b x none = map_get-set a b x []
inner_get-set a b x (some inner) = map_get-set a b x inner

-- A write to the nested map changes the entry of its chain and address only.
pub cache_get-set :
    (c d : ℕ) (a b : String) (x : Strategy) (cache : StrategyCache)
    → cache_get d b (cache_set c a x cache) ≡ (
        if c == d
        then (if text_keys.same a b then some x else cache_get d b cache)
        else cache_get d b cache)
unfolding cache_get cache_set
cache_get-set c d a b x cache =
    ap (inner_get b) (map_get-set c d (inner_set a x (map_get c cache)) cache)
    ∙ elim (Bool-cases (c == d)) [
      | inl same ↦ rw (same) (
          inner_get-set a b x (map_get c cache)
          ∙ ap (λ k. if text_keys.same a b then some x else inner_get b (map_get k cache))
              ((==_iff c d).0 same))
      | inr other ↦ rw (other) refl
    ]

pub cache_get-set_self :
    (c : ℕ) (a : String) (x : Strategy) (cache : StrategyCache)
    → cache_get c a (cache_set c a x cache) ≡ some x
cache_get-set_self c a x cache =
    cache_get-set c c a a x cache ∙ rw ((==_iff c c).1 refl, (text_keys.same_iff a a).1 refl) refl

-- the flag that the test `cache?.handled === handled` found
same_flag_found :
    (o : Option Strategy) (handled : Bool)
    → same_flag o handled ≡ true
    → (x : Strategy) × (o ≡ some x) × (x.handled ≡ handled)
same_flag_found none handled h = cc (h)
same_flag_found (some x) true h = (x, refl, h)
same_flag_found (some x) false h = elim (Bool-cases x.handled) [
  | inl on ↦ cc (rw on at h)
  | inr off ↦ (x, refl, off)
]

module _ {ℓ} {S : Type ℓ} (registry : StrategyRegistry S) where
  module _ (chain_id : ℕ) (address id : String) (handled : Bool) where
    abbrev pub new_strategy : Strategy
    new_strategy = record { address = address; id = id; chain_id = chain_id; handled = handled }

    -- a copy that answers `x` for the address, without the registry behind it
    abbrev pub Answers : StrategyCache × S → Strategy → Type ℓ
    Answers w x = cached_get_strategy registry chain_id address w ≡ (ok (some x), w)

    -- the strategy that is in the copy after a save: the new one, or one that was there with the flag
    pub record Kept (w w' : StrategyCache × S) : Type ℓ where
      pub strategy : Strategy
      pub answers : Answers w' strategy
      pub flag : strategy.handled ≡ handled
      pub origin :
          (strategy ≡ new_strategy) ⊎ ((cache_get chain_id address w.0 ≡ some strategy) × (w' ≡ w))

    from_copy :
        (x : Strategy) (cache : StrategyCache) (s : S)
        → cache_get chain_id address cache ≡ some x
        → Answers (cache, s) x
    unfolding cached_get_strategy
    from_copy x cache s e = rw (e, cached_get_strategy) refl

    saved_behind :
        (cache : StrategyCache) (s : S) (w' : StrategyCache × S) (o : Outcome (Unit {0}) × S)
        → keep_strategy_saved new_strategy cache o ≡ (ok tt, w')
        → Kept (cache, s) w'
    unfolding keep_strategy_saved
    saved_behind cache s w' (err e, t) h = cc (h)
    saved_behind cache s w' (ok _, t) h = subst (Kept (cache, s)) (ap (λ o. o.1) h) (record {
      strategy = new_strategy;
      answers = from_copy new_strategy _ t (cache_get-set_self chain_id address new_strategy cache);
      flag = refl;
      origin = inl refl;
    })

    -- After a save that returns, `getStrategyId` answers from memory with a strategy that has the flag
    -- saved. It is the strategy saved, unless one with that flag was there: then nothing was saved, whatever
    -- its id.
    pub cached_save_strategy-Kept :
        (cache : StrategyCache) (s : S) (w' : StrategyCache × S)
        → cached_save_strategy registry chain_id address id handled (cache, s) ≡ (ok tt, w')
        → Kept (cache, s) w'
    unfolding cached_save_strategy
    cached_save_strategy-Kept cache s w' h =
        elim (Bool-cases (same_flag (cache_get chain_id address cache) handled)) [
          | inl same ↦
              let (x, e, flag) = same_flag_found _ handled same in
              let unchanged : (cache, s) ≡ w' = ap (λ o. o.1) (rw same at h) in
              subst (Kept (cache, s)) unchanged (record {
                strategy = x;
                answers = from_copy x cache s e;
                flag = flag;
                origin = inr (e, refl);
              })
          | inr other ↦ saved_behind cache s w' _ (rw other at h)
        ]
