-- ===== src/Metadata/Tests.antt =====
-- Content ids, the gateways, and the cache with a provider that fails.
use grants_stack_indexer_v.Prelude.{
  ℕ, ◌≡◌, refl, String, Bool, true, false, not, Option, none, some, [], ◌∷◌, ◌==◌,
}
use grants_stack_indexer_v.Effects.{native_error, ok, err}
use grants_stack_indexer_v.Events.{equals}
use grants_stack_indexer_v.Pricing.Provider.{attempt}
use grants_stack_indexer_v.Metadata.{
  is_valid_cid, split_delimiter, all_of, is_line_end, is_delimiter, matches_cid, after_prefix,
  is_base58, is_alphanumeric, text_length, Gateways, content_of, validate_data, ask,
  CachingDependencies, served, fetch_and_cache, get_valid_metadata, get_metadata,
}
use grants_stack_indexer_v.Metadata.Cached.{get_metadata-get_metadata}

abbrev any_parses : String → Bool
any_parses text = true

abbrev cid : String
cid = "QmaQZB9xU8H7Z6Zz3TxEtZ3F1vS3EZgkK6N4mT5cWq1y2X"

with_path : is_valid_cid any_parses "bafy1/round.json?x=1" ≡ true
unfolding is_valid_cid split_delimiter all_of is_line_end is_delimiter matches_cid after_prefix
    is_base58 is_alphanumeric text_length
with_path = refl

too_short : is_valid_cid any_parses "Qm12" ≡ false
unfolding is_valid_cid split_delimiter all_of is_line_end is_delimiter matches_cid after_prefix
    is_base58 is_alphanumeric text_length
too_short = refl

-- the first gateway is down, the second answers
abbrev two_gateways : Gateways (Unit {0}) ℕ
two_gateways = record {
  urls = "https://down" ∷ "https://up" ∷ [];
  request = λ url s. elim (equals "https://up/ipfs/Qm" url) [
    | true ↦ (ok 7, s)
    | false ↦ (err (native_error "timeout"), s)
  ];
  is_object = λ n. true;
  is_json = λ n. false;
}

second_answers : ask two_gateways "Qm" none two_gateways.urls tt ≡ (ok (some 7), tt)
unfolding ask content_of validate_data
second_answers = refl

-- a world with one row of the cache, and a provider whose requests all fail
abbrev failing : CachingDependencies (Option (Option ℕ)) ℕ
failing = record {
  provider = λ cid schema s. (ok none, s);
  cache = record {
    get = λ cid s. (ok s, s);
    set = λ cid value s. (ok tt, some value);
    clear_cache = none;
  };
  retry_async = λ m s. (err (native_error "timeout"), s);
  is_truthy = λ n. not (n == 0);
}

-- a failed fetch, and then null for good
get_metadata-get_metadata_example :
    get_metadata failing any_parses cid none (some none) ≡ (ok none, some none)
unfolding get_metadata get_valid_metadata served fetch_and_cache attempt is_valid_cid
    split_delimiter all_of is_line_end is_delimiter matches_cid after_prefix is_base58
    is_alphanumeric text_length
get_metadata-get_metadata_example =
    get_metadata-get_metadata failing (λ cid s. refl) (λ cid value s. (some value, refl, refl))
      any_parses cid none none (some none) none (λ json e. cc (e)) refl
