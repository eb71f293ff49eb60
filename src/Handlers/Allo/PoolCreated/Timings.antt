-- ===== src/Handlers/Allo/PoolCreated/Timings.antt =====
-- The timings of a strategy are asked for once.
use grants_stack_indexer_v.Prelude.{ℕ, ◌≡◌, refl, sym, ap, ◌∙◌, subst, String, Option, none, some}
use grants_stack_indexer_v.Effects.{ok, pure, ◌>>◌}
use grants_stack_indexer_v.Effects.Triples.{bind-eq-ok}
use grants_stack_indexer_v.Processors.{StrategyHandlerClass}
use grants_stack_indexer_v.Handlers.Rows.{
  StrategyTimings, JsonTimings, json_date, json_timings, cast_date, cast_timings,
}
use grants_stack_indexer_v.Handlers.Services.{Services, TimingsRow}
use grants_stack_indexer_v.Handlers.StrategyReads.{fetch_strategy_timings}
use grants_stack_indexer_v.Handlers.Allo.PoolCreated.{strategy_timings, timings_or_fetch}

module _ {ℓ} {Json : Type 0} {S P B : Type ℓ} (services : Services Json S P B)
    (get_keeps : (address : String) (s : S) → (services.timings_repository.get address s).1 ≡ s)
    (get-set : (address : String) (row : TimingsRow) (s t : S)
      → services.timings_repository.set address row s ≡ (ok tt, t)
      → (found : TimingsRow) × (services.timings_repository.get address t ≡ (ok (some found), t))
        × (found.timings ≡ row.timings)) where
  open services use {timings_repository}

  -- a text that was read from JSON is written as it is
  cast-json-cast : (d : Option ℕ) → cast_date (json_date (cast_date d)) ≡ cast_date d
  unfolding cast_date json_date
  cast-json-cast none = refl
  cast-json-cast (some ms) = refl

  cast-json-cast_timings :
      (j : JsonTimings) → cast_timings (json_timings (cast_timings j)) ≡ cast_timings j
  unfolding cast_timings json_timings
  cast-json-cast_timings j = rw (
    cast-json-cast j.applications_start_time,
    cast-json-cast j.applications_end_time,
    cast-json-cast j.donations_start_time,
    cast-json-cast j.donations_end_time,
  )

  -- what is cached after the timings were found out
  after_timings :
      (class : StrategyHandlerClass) (address strategy_id : String) (found : Option TimingsRow)
      (s t : S) (timings : StrategyTimings)
      → timings_repository.get address s ≡ (ok found, s)
      → timings_or_fetch services class address strategy_id found s ≡ (ok timings, t)
      → (row : TimingsRow) × (timings_repository.get address t ≡ (ok (some row), t))
        × (cast_timings row.timings ≡ cast_timings (json_timings timings))
  after_timings class address strategy_id (some row) s t timings gets h = (
    row,
    subst (λ v. timings_repository.get address v ≡ (ok (some row), v)) (ap (λ r. r.1) h) gets,
    let same : cast_timings row.timings ≡ timings = cc (h) in
        sym (cast-json-cast_timings row.timings) ∙ ap (λ v. cast_timings (json_timings v)) same,
  )
  after_timings class address strategy_id none s t timings gets h =
      let row_of = λ (tm : StrategyTimings).
        let r : TimingsRow = record {
          address = address;
          timings = json_timings tm;
          strategy_id = strategy_id;
        } in
        r in
      let (tm, u, fetched, h1) =
        bind-eq-ok (fetch_strategy_timings services class address)
          (λ tm. timings_repository.set address (row_of tm) >> pure tm) h in
      let (done, v, saved, h2) =
        bind-eq-ok (timings_repository.set address (row_of tm)) (λ _. pure tm) h1 in
      let (row, gets, same) = get-set address (row_of tm) u v saved in
      (
        row,
        subst (λ w. timings_repository.get address w ≡ (ok (some row), w)) (ap (λ r. r.1) h2) gets,
        let told : tm ≡ timings = cc (h2) in ap cast_timings (same ∙ ap json_timings told),
      )

  -- If a read of the cache changes nothing and finds the JSON that was set, then once the timings of a
  -- strategy have been found out, for any class of handlers, a call right after it, whatever class and id it
  -- is made with, changes nothing and finds those timings as they come back from JSON: each date is the text
  -- of its time, and one that is invalid is null.
  pub strategy_timings-strategy_timings :
      (class class' : StrategyHandlerClass) (address strategy_id strategy_id' : String) (s t : S)
      (timings : StrategyTimings)
      → strategy_timings services (some class) address strategy_id s ≡ (ok timings, t)
      → strategy_timings services (some class') address strategy_id' t
        ≡ (ok (cast_timings (json_timings timings)), t)
  unfolding strategy_timings
  strategy_timings-strategy_timings class class' address strategy_id strategy_id' s t timings h =
      let (found, u, e, k) =
        bind-eq-ok (timings_repository.get address)
          (timings_or_fetch services class address strategy_id) h in
      let unchanged : u ≡ s = sym (ap (λ r. r.1) e) ∙ get_keeps address s in
      let (row, cached, same) =
        after_timings class address strategy_id found s t timings
          (e ∙ ap (λ v. (ok found, v)) unchanged)
          (subst
            (λ v. timings_or_fetch services class address strategy_id found v ≡ (ok timings, t))
            unchanged k) in
      rw cached (ap (λ x. (ok x, t)) same)
