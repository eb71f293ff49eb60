-- ===== src/Metadata.antt =====
-- packages/metadata/src: the providers of metadata, one that asks gateways of IPFS, and the one in front of
-- it that caches, and the check of a content id. The requests, the cache, the retries of ts-retry and
-- `CID.parse` are parameters.
pub mod Cached
mod Tests
use Prim.Native.Char.{Char, code}
use Prim.Native.String.{◌∷◌ as ◌∷ₛ◌, [] as empty_text, ◌++◌ as ◌++ₛ◌}
use grants_stack_indexer_v.Prelude.{
  ℕ, zero, suc, ◌+◌, ◌==◌, leb, String, Bool, true, false, not, ◌&&◌, ◌||◌, Option, none, some,
  List, [], ◌∷◌, if◌then◌else◌,
}
use grants_stack_indexer_v.Effects.{
  native_error, Outcome, ok, err, Action, pure, continue_with, ◌>>=◌, ◌>>◌,
}
use grants_stack_indexer_v.Events.{equals}
use grants_stack_indexer_v.Pricing.Provider.{attempt}

abbrev pub between : ℕ → ℕ → ℕ → Bool
between low high n = leb low n && leb n high

-- `[1-9A-HJ-NP-Za-km-z]` and `[0-9A-Za-z]`
unfoldable pub is_base58 : Char → Bool
is_base58 c =
    between 49 57 (code c)
    || between 65 72 (code c)
    || between 74 78 (code c)
    || between 80 90 (code c)
    || between 97 107 (code c)
    || between 109 122 (code c)

unfoldable pub is_alphanumeric : Char → Bool
is_alphanumeric c = between 48 57 (code c) || between 65 90 (code c) || between 97 122 (code c)

-- `[/?#]`
unfoldable pub is_delimiter : Char → Bool
is_delimiter c = code c == 47 || code c == 63 || code c == 35

-- a character that `.` of a regular expression does not match
unfoldable pub is_line_end : Char → Bool
is_line_end c = code c == 10 || code c == 13 || code c == 8232 || code c == 8233

-- the text in front of the first delimiter, and what follows that
unfoldable pub split_delimiter : String → String × String
unfolding is_delimiter
split_delimiter empty_text = (empty_text, empty_text)
split_delimiter (c ∷ₛ text) =
    let parts = split_delimiter text in
    if is_delimiter c then (empty_text, text) else (c ∷ₛ parts.0, parts.1)

unfoldable pub all_of : (Char → Bool) → String → Bool
all_of test empty_text = true
all_of test (c ∷ₛ text) = test c && all_of test text

unfoldable pub text_length : String → ℕ
text_length empty_text = 0
text_length (c ∷ₛ text) = suc (text_length text)

-- the text after a prefix, which is given by its codes
unfoldable pub after_prefix : List ℕ → String → Option String
after_prefix [] text = some text
after_prefix (n ∷ ns) empty_text = none
after_prefix (n ∷ ns) (c ∷ₛ text) =
    let rest = after_prefix ns text in if code c == n then rest else none

abbrev pub is_qm_tail : Option String → Bool
is_qm_tail none = false
is_qm_tail (some text) = all_of is_base58 text && text_length text == 44

abbrev pub is_baf_tail : Option String → Bool
is_baf_tail none = false
is_baf_tail (some text) = all_of is_alphanumeric text && leb 1 (text_length text)

-- `cidRegex`
unfoldable pub matches_cid : String → Bool
unfolding after_prefix all_of is_base58 is_alphanumeric text_length
matches_cid text =
    is_qm_tail (after_prefix (81 ∷ 109 ∷ []) text)
    || is_baf_tail (after_prefix (98 ∷ 97 ∷ 102 ∷ []) text)

abbrev pub not_line_end : Char → Bool
not_line_end c = not (is_line_end c)

-- `isValidCid`, with a test for whether `CID.parse` does not throw
unfoldable pub is_valid_cid : (String → Bool) → String → Bool
unfolding split_delimiter all_of is_line_end matches_cid
is_valid_cid parses input =
    let parts = split_delimiter input in
    all_of not_line_end parts.1 && (matches_cid parts.0 && parses parts.0)

-- what both providers do not ask for
abbrev pub is_refused : (String → Bool) → String → Bool
is_refused parses cid = equals "" cid || not (is_valid_cid parses cid)

-- the requests of axios and what is asked of their data; `JSON.parse` of a text that is JSON is not done
pub record Gateways {ℓ} (S : Type ℓ) (Json : Type 0) : Type ℓ where
  pub urls : List String
  pub request : (url : String) → Action S Json
  pub is_object : Json → Bool
  pub is_json : Json → Bool

module _ {ℓ} {S : Type ℓ} {Json : Type 0} (gateways : Gateways S Json) where
  abbrev pub parsed_or_invalid : Option Json → Outcome (Option Json)
  parsed_or_invalid none = err (native_error "InvalidContentException")
  parsed_or_invalid (some json) = ok (some json)

  -- `validateData`
  unfoldable pub validate_data : Json → Option (Json → Option Json) → Outcome (Option Json)
  validate_data json none = ok (some json)
  validate_data json (some schema) = parsed_or_invalid (schema json)

  unfoldable pub content_of : Json → Option (Json → Option Json) → Outcome (Option Json)
  unfolding validate_data
  content_of json schema =
      if gateways.is_object json || gateways.is_json json
      then validate_data json schema
      else err (native_error "InvalidContentException")

  -- an answer ends the loop, a failure of the request goes on to the next gateway
  abbrev pub or_next :
      Option (Json → Option Json)
      → Action S (Option Json)
      → Outcome Json × S
      → Outcome (Option Json) × S
  or_next schema next (ok json, s) = (content_of json schema, s)
  or_next schema next (err e, s) = next s

  unfoldable pub ask : String → Option (Json → Option Json) → List String → Action S (Option Json)
  unfolding content_of
  ask cid schema [] s = (ok none, s)
  ask cid schema (url ∷ urls) s =
      or_next schema (ask cid schema urls) (gateways.request (url ++ₛ "/ipfs/" ++ₛ cid) s)

  -- `PublicGatewayProvider.getMetadata`, where undefined is `none`
  unfoldable pub get_gateway_metadata :
      (parses : String → Bool) → String → Option (Json → Option Json) → Action S (Option Json)
  unfolding ask is_valid_cid
  get_gateway_metadata parses cid schema =
      if is_refused parses cid then pure none else ask cid schema gateways.urls

-- `ICache`, where `none` is undefined and `some none` is null
pub record MetadataCache {ℓ} (S : Type ℓ) (Json : Type 0) : Type ℓ where
  pub get : String → Action S (Option (Option Json))
  pub set : String → Option Json → Action S (Unit {0})
  pub clear_cache : Option (Action S (Unit {0}))

pub record CachingDependencies {ℓ} (S : Type ℓ) (Json : Type 0) : Type ℓ where
  pub provider : String → Option (Json → Option Json) → Action S (Option Json)
  pub cache : MetadataCache S Json
  -- `retryAsync` with the options
  pub retry_async : Action S (Option Json) → Action S (Option Json)
  pub is_truthy : Json → Bool

module _ {ℓ} {S : Type ℓ} {Json : Type 0} (d : CachingDependencies S Json) where
  -- `cachedMetadata || cachedMetadata === null`
  unfoldable pub served : Option (Option Json) → Option (Option Json)
  served none = none
  served (some none) = some none
  served (some (some json)) = if d.is_truthy json then some (some json) else none

  abbrev pub read_cache : String → Action S (Option (Option Json))
  read_cache cid s = attempt none (d.cache.get cid s)

  abbrev pub write_cache : String → Option Json → Action S (Unit {0})
  write_cache cid result s = attempt tt (d.cache.set cid result s)

  -- an error of all retries gives null
  abbrev pub fetched : String → Option (Json → Option Json) → Action S (Option Json)
  fetched cid schema s = attempt none (d.retry_async (d.provider cid schema) s)

  unfoldable pub fetch_and_cache : String → Option (Json → Option Json) → Action S (Option Json)
  fetch_and_cache cid schema =
      fetched cid schema >>= λ result. write_cache cid result >> pure result

  abbrev pub answer_or_fetch :
      String → Option (Json → Option Json) → Option (Option Json) → Action S (Option Json)
  answer_or_fetch cid schema none = fetch_and_cache cid schema
  answer_or_fetch cid schema (some result) = pure result

  unfoldable pub get_valid_metadata : String → Option (Json → Option Json) → Action S (Option Json)
  unfolding served fetch_and_cache
  get_valid_metadata cid schema =
      read_cache cid >>= λ found. answer_or_fetch cid schema (served found)

  -- `CachingMetadataProvider.getMetadata`
  unfoldable pub get_metadata :
      (parses : String → Bool) → String → Option (Json → Option Json) → Action S (Option Json)
  unfolding get_valid_metadata is_valid_cid
  get_metadata parses cid schema =
      if is_refused parses cid then pure none else get_valid_metadata cid schema

  -- `clearCache`
  abbrev pub clear_if : Option (Action S (Unit {0})) → Action S (Unit {0})
  clear_if none s = (ok tt, s)
  clear_if (some clear) s = attempt tt (clear s)

  unfoldable pub clear_metadata_cache : Action S (Unit {0})
  clear_metadata_cache = clear_if d.cache.clear_cache
