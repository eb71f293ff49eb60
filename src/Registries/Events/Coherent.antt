-- ===== src/Registries/Events/Coherent.antt =====
-- The copy in memory of `InMemoryCachedEventRegistry` against the registry behind it.
use grants_stack_indexer_v.Prelude.{
  ℕ, ◌≡◌, refl, sym, ◌∙◌, subst, ap, Bool-cases, inl, inr, Option, none, some, List, [], ◌∷◌, ◌==◌,
  ==_iff, if◌then◌else◌,
}
use grants_stack_indexer_v.Prelude.Maps.{number_keys, map_get, map_set, map_get-set}
use grants_stack_indexer_v.Effects.{Error, Outcome, ok, err}
use grants_stack_indexer_v.Changesets.{Entities, NewProcessedEvent}
use grants_stack_indexer_v.Repositories.{ProcessedEvent, EventRegistryRepository}
use grants_stack_indexer_v.Registries.Events.{
  EventCache, keep_found, keep_saved, keep_settled, cached_get_last, cached_save_last, load_events,
}

module _ {ℓ} {E : Entities} {S Tx : Type ℓ} where
  -- What is expected of a registry: a read that does not throw returns the event that was saved last for
  -- the chain, and a save that does not throw changes that of its chain only. `last` is the view of the
  -- world in which the events are.
  pub record IsRegistry (registry : EventRegistryRepository E S Tx)
      (last : S → ℕ → Option (ProcessedEvent E)) : Type ℓ where
    pub reads :
        (k : ℕ) (s : S) (o : Option (ProcessedEvent E))
        → (registry.get_last_processed_event k s).0 ≡ ok o
        → o ≡ last s k
    pub read_keeps : (k j : ℕ) (s : S) → last (registry.get_last_processed_event k s).1 j ≡ last s j
    pub saves :
        (k j : ℕ) (event : NewProcessedEvent E) (s : S)
        → (registry.save_last_processed_event k event none s).0 ≡ ok tt
        → last (registry.save_last_processed_event k event none s).1 j
          ≡ (if k == j then some (record { chain_id = k; event = event }) else last s j)
    pub failure_keeps :
        (k j : ℕ) (event : NewProcessedEvent E) (s : S) (e : Error)
        → (registry.save_last_processed_event k event none s).0 ≡ err e
        → last (registry.save_last_processed_event k event none s).1 j ≡ last s j
    -- the event of a chain carries that chain's id
    pub own_chain : (k : ℕ) (s : S) (p : ProcessedEvent E) → last s k ≡ some p → p.chain_id ≡ k

module _ {ℓ} {E : Entities} {S : Type ℓ} (last : S → ℕ → Option (ProcessedEvent E)) where
  -- What the copy holds for a chain is what the registry behind it holds.
  unfoldable pub IsCoherent : EventCache E × S → Type 0
  IsCoherent w = (k : ℕ) (p : ProcessedEvent E) → map_get k w.0 ≡ some p → last w.1 k ≡ some p

  IsCoherent-set :
      (k : ℕ) (p : ProcessedEvent E) (cache : EventCache E) (s t : S)
      → IsCoherent (cache, s)
      → ((j : ℕ) → last t j ≡ (if k == j then some p else last s j))
      → IsCoherent (map_set k p cache, t)
  unfolding IsCoherent
  IsCoherent-set k p cache s t h moved j q found = elim (Bool-cases (k == j)) [
    | inl same ↦
        moved j
        ∙ rw (same) (
            sym (ap (λ b. if b then some p else map_get j cache) same)
            ∙ sym (map_get-set k j p cache)
            ∙ found)
    | inr other ↦
        moved j
        ∙ rw (other) (
            h j q (
              sym (ap (λ b. if b then some p else map_get j cache) other)
              ∙ sym (map_get-set k j p cache)
              ∙ found))
  ]

  -- the copy after a write of what is there already
  IsCoherent-keep :
      (k : ℕ) (p : ProcessedEvent E) (cache : EventCache E) (s t : S)
      → IsCoherent (cache, s)
      → ((j : ℕ) → last t j ≡ last s j)
      → last s k ≡ some p
      → IsCoherent (map_set k p cache, t)
  IsCoherent-keep k p cache s t h same there = IsCoherent-set k p cache s t h by_key
    where
      by_key : (j : ℕ) → last t j ≡ (if k == j then some p else last s j)
      by_key j = elim (Bool-cases (k == j)) [
        | inl e ↦ same j ∙ rw (e) (subst (λ i. last s i ≡ some p) ((==_iff k j).0 e) there)
        | inr e ↦ same j ∙ rw (e) refl
      ]

  IsCoherent-moved :
      (cache : EventCache E) (s t : S)
      → IsCoherent (cache, s)
      → ((j : ℕ) → last t j ≡ last s j)
      → IsCoherent (cache, t)
  unfolding IsCoherent
  IsCoherent-moved cache s t h same k p found = same k ∙ h k p found

module _ {ℓ} {E : Entities} {S Tx : Type ℓ} (registry : EventRegistryRepository E S Tx)
    (last : S → ℕ → Option (ProcessedEvent E)) (laws : IsRegistry registry last) where
  -- what a read of chain `k` in the world `s` did
  pub record Read (k : ℕ) (s : S) (o : Outcome (Option (ProcessedEvent E)) × (EventCache E × S))
      : Type ℓ where
    pub answer : (event : Option (ProcessedEvent E)) → o.0 ≡ ok event → event ≡ last s k
    pub coherent : IsCoherent last o.1
    pub unchanged : (j : ℕ) → last o.1.1 j ≡ last s j

  Read-behind :
      (k : ℕ) (cache : EventCache E) (s : S)
      → IsCoherent last (cache, s)
      → (o : Outcome (Option (ProcessedEvent E)) × S) → registry.get_last_processed_event k s ≡ o
      → Read k s (keep_found k cache o)
  unfolding keep_found
  Read-behind k cache s h (err e, t) r =
      let same : (j : ℕ) → last t j ≡ last s j = λ j. rw r at (laws.read_keeps k j s) in
      record {
        answer = λ event e'. cc (e');
        coherent = IsCoherent-moved last cache s t h same;
        unchanged = same;
      }
  Read-behind k cache s h (ok none, t) r =
      let same : (j : ℕ) → last t j ≡ last s j = λ j. rw r at (laws.read_keeps k j s) in
      let found : none ≡ last s k = laws.reads k s none (ap (λ o. o.0) r) in
      record {
        answer = λ event e'. cc (e', found);
        coherent = IsCoherent-moved last cache s t h same;
        unchanged = same;
      }
  Read-behind k cache s h (ok (some p), t) r =
      let same : (j : ℕ) → last t j ≡ last s j = λ j. rw r at (laws.read_keeps k j s) in
      let found : some p ≡ last s k = laws.reads k s (some p) (ap (λ o. o.0) r) in
      record {
        answer = λ event e'. cc (e', found);
        coherent = IsCoherent-keep last k p cache s t h same (sym found);
        unchanged = same;
      }

  -- On a coherent copy, `getLastProcessedEvent` of the registry in memory returns, unless it throws, what
  -- the registry behind it holds, changes nothing there, and leaves the copy coherent.
  cached_get_last-Read :
      (k : ℕ) (cache : EventCache E) (s : S)
      → IsCoherent last (cache, s)
      → Read k s (cached_get_last registry k (cache, s))
  unfolding cached_get_last IsCoherent
  cached_get_last-Read k cache s h = by_copy (map_get k cache) refl
    where
      by_copy :
          (o : Option (ProcessedEvent E))
          → map_get k cache ≡ o
          → Read k s (cached_get_last registry k (cache, s))
      by_copy none e = rw (e, cached_get_last) (Read-behind k cache s h _ refl)
      by_copy (some p) e =
          rw (e, cached_get_last)
            (record { answer = λ event e'. cc (e', h k p e); coherent = h; unchanged = λ j. refl })

  -- what a save of `event` for chain `k` in the world `s` did
  pub record Saved (k : ℕ) (event : NewProcessedEvent E) (s : S)
      (o : Outcome (Unit {0}) × (EventCache E × S)) : Type ℓ where
    pub stored :
        o.0 ≡ ok tt
        → (j : ℕ)
        → last o.1.1 j
          ≡ (if k == j then some (record { chain_id = k; event = event }) else last s j)
    pub kept : (e : Error) → o.0 ≡ err e → (j : ℕ) → last o.1.1 j ≡ last s j
    pub coherent : IsCoherent last o.1

  Saved-behind :
      (k : ℕ) (event : NewProcessedEvent E) (cache : EventCache E) (s : S)
      → IsCoherent last (cache, s)
      → (o : Outcome (Unit {0}) × S) → registry.save_last_processed_event k event none s ≡ o
      → Saved k event s (keep_saved k event cache o)
  unfolding keep_saved
  Saved-behind k event cache s h (err e, t) r =
      let same : (j : ℕ) → last t j ≡ last s j =
        λ j. rw r at (laws.failure_keeps k j event s e (ap (λ o. o.0) r)) in
      record {
        stored = λ e'. cc (e');
        kept = λ e' failed. same;
        coherent = IsCoherent-moved last cache s t h same;
      }
  Saved-behind k event cache s h (ok _, t) r =
      let moved : (j : ℕ)
          → last t j
            ≡ (if k == j then some (record { chain_id = k; event = event }) else last s j) =
        λ j. rw r at (laws.saves k j event s (ap (λ o. o.0) r)) in
      record {
        stored = λ e. moved;
        kept = λ e' failed. cc (failed);
        coherent = IsCoherent-set last k _ cache s t h moved;
      }

  -- `saveLastProcessedEvent` of the registry in memory saves in the registry behind it, and only if that
  -- does not throw in its copy, which stays coherent either way.
  pub cached_save_last-Saved :
      (k : ℕ) (event : NewProcessedEvent E) (cache : EventCache E) (s : S)
      → IsCoherent last (cache, s)
      → Saved k event s (cached_save_last registry k event (cache, s))
  unfolding cached_save_last
  cached_save_last-Saved k event cache s h = Saved-behind k event cache s h _ refl

  settled-IsCoherent :
      (k : ℕ) (cache : EventCache E) (s : S)
      → IsCoherent last (cache, s)
      → (o : Outcome (Option (ProcessedEvent E)) × S) → registry.get_last_processed_event k s ≡ o
      → IsCoherent last (keep_settled o.0 cache, o.1)
  unfolding keep_settled
  settled-IsCoherent k cache s h (err e, t) r =
      IsCoherent-moved last cache s t h (λ j. rw r at (laws.read_keeps k j s))
  settled-IsCoherent k cache s h (ok none, t) r =
      IsCoherent-moved last cache s t h (λ j. rw r at (laws.read_keeps k j s))
  settled-IsCoherent k cache s h (ok (some p), t) r =
      let found : last s k ≡ some p = sym (laws.reads k s (some p) (ap (λ o. o.0) r)) in
      subst (λ c. IsCoherent last (map_set c p cache, t)) (sym (laws.own_chain k s p found))
        (IsCoherent-keep last k p cache s t h (λ j. rw r at (laws.read_keeps k j s)) found)

  -- `initialize` gives a coherent copy from an empty one, whichever of the reads throw.
  load_events-IsCoherent :
      (chain_ids : List ℕ) (w : EventCache E × S)
      → IsCoherent last w
      → IsCoherent last (load_events registry chain_ids w)
  unfolding load_events
  load_events-IsCoherent [] (cache, s) h = h
  load_events-IsCoherent (k ∷ chain_ids) (cache, s) h =
      load_events-IsCoherent chain_ids _ (settled-IsCoherent k cache s h _ refl)
