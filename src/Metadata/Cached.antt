-- ===== src/Metadata/Cached.antt =====
-- The metadata of a content id is fetched once.
use grants_stack_indexer_v.Prelude.{
  ◌≡◌, refl, sym, ap, ◌∙◌, subst, inl, inr, String, Bool, true, Bool-cases, Option, none, some,
}
use grants_stack_indexer_v.Effects.{Outcome, ok, err, pure, ◌>>◌}
use grants_stack_indexer_v.Effects.Triples.{bind-eq-ok}
use grants_stack_indexer_v.Pricing.Provider.{attempt}
use grants_stack_indexer_v.Metadata.{
  CachingDependencies, is_refused, served, read_cache, write_cache, fetched, fetch_and_cache,
  answer_or_fetch, get_valid_metadata, get_metadata,
}

module _ {ℓ} {S : Type ℓ} {Json : Type 0} (d : CachingDependencies S Json)
    (get_keeps : (cid : String) (s : S) → (d.cache.get cid s).1 ≡ s)
    (set_ends : (cid : String) (value : Option Json) (s : S)
      → (t : S) × (d.cache.set cid value s ≡ (ok tt, t))
        × (d.cache.get cid t ≡ (ok (some value), t))) where
  read_keeps : (cid : String) (s : S) → (read_cache d cid s).1 ≡ s
  unfolding attempt
  read_keeps cid s = by_outcome (d.cache.get cid s) ∙ get_keeps cid s
    where
      by_outcome : (r : Outcome (Option (Option Json)) × S) → (attempt none r).1 ≡ r.1
      by_outcome (ok found, t) = refl
      by_outcome (err e, t) = refl

  served_again :
      (result : Option Json)
      → ((json : Json) → result ≡ some json → d.is_truthy json ≡ true)
      → served d (some result) ≡ some result
  unfolding served
  served_again none truthy = refl
  served_again (some json) truthy = rw (truthy json refl) refl

  -- what was fetched is read after it was written
  written :
      (cid : String) (schema : Option (Json → Option Json)) (m result : Option Json) (s t : S)
      → ((json : Json) → result ≡ some json → d.is_truthy json ≡ true)
      → (write_cache d cid m >> pure m) s ≡ (ok result, t)
      → get_valid_metadata d cid schema t ≡ (ok result, t)
  unfolding get_valid_metadata attempt
  written cid schema m result s t truthy h =
      let (u, sets, gets) = set_ends cid m s in
      let done : (ok m, u) ≡ (ok result, t) = sym (rw sets refl) ∙ h in
      let same : m ≡ result = cc (done) in
      let read : get_valid_metadata d cid schema u ≡ (ok m, u) =
        rw (gets, served_again m (λ json e. truthy json (sym same ∙ e))) refl in
      subst (λ (w : S). get_valid_metadata d cid schema w ≡ (ok result, w)) (ap (λ r. r.1) done)
        (read ∙ ap (λ (x : Option Json). (ok x, u)) same)

  answered :
      (cid : String) (schema : Option (Json → Option Json)) (answer r : Option (Option Json))
      (s t : S) (result : Option Json)
      → ((json : Json) → result ≡ some json → d.is_truthy json ≡ true)
      → read_cache d cid s ≡ (ok answer, s)
      → served d answer ≡ r
      → answer_or_fetch d cid schema r s ≡ (ok result, t)
      → get_valid_metadata d cid schema t ≡ (ok result, t)
  unfolding get_valid_metadata fetch_and_cache
  answered cid schema answer (some r) s t result truthy reads serves h =
      let read : get_valid_metadata d cid schema s ≡ (ok r, s) = rw (reads, serves) refl in
      subst (λ (w : S). get_valid_metadata d cid schema w ≡ (ok result, w)) (ap (λ r. r.1) h)
        (read ∙ ap (λ (x : Outcome (Option Json) × S). (x.0, s)) h)
  answered cid schema answer none s t result truthy reads serves h =
      let (m, u, e, k) = bind-eq-ok (fetched d cid schema) (λ m. write_cache d cid m >> pure m) h in
      written cid schema m result u t truthy k

  valid_again :
      (cid : String) (schema : Option (Json → Option Json)) (s t : S) (result : Option Json)
      → ((json : Json) → result ≡ some json → d.is_truthy json ≡ true)
      → get_valid_metadata d cid schema s ≡ (ok result, t)
      → get_valid_metadata d cid schema t ≡ (ok result, t)
  unfolding get_valid_metadata
  valid_again cid schema s t result truthy h =
      let (answer, u, e, k) =
        bind-eq-ok (read_cache d cid) (λ found. answer_or_fetch d cid schema (served d found)) h in
      let unchanged : u ≡ s = sym (ap (λ r. r.1) e) ∙ read_keeps cid s in
      answered cid schema answer (served d answer) s t result truthy
        (e ∙ ap (λ w. (ok answer, w)) unchanged) refl
        (subst (λ (w : S). answer_or_fetch d cid schema (served d answer) w ≡ (ok result, t))
          unchanged k)

  -- If a read of the cache changes nothing and finds what was written, and what was written is not lost,
  -- then what getMetadata of the caching provider returned for a content id, if it is null or a value that
  -- JavaScript takes for true, it returns again, and changes nothing: the provider is not asked again, also
  -- where the result is the null that stands for a fetch that failed.
  pub get_metadata-get_metadata :
      (parses : String → Bool) (cid : String) (schema : Option (Json → Option Json)) (s t : S)
      (result : Option Json)
      → ((json : Json) → result ≡ some json → d.is_truthy json ≡ true)
      → get_metadata d parses cid schema s ≡ (ok result, t)
      → get_metadata d parses cid schema t ≡ (ok result, t)
  unfolding get_metadata
  get_metadata-get_metadata parses cid schema s t result truthy h =
      elim (Bool-cases (is_refused parses cid)) [
        | inl refused ↦
            rw refused (ap (λ (x : Outcome (Option Json) × S). (x.0, t)) (rw refused at h))
        | inr valid ↦ rw valid (valid_again cid schema s t result truthy (rw valid at h))
      ]
