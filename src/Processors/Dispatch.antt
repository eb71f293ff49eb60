-- ===== src/Processors/Dispatch.antt =====
-- `processEvent` of eventsProcessor.ts: an event that a guard admits has its handler.
use grants_stack_indexer_v.Prelude.{
  ◌≡◌, ◌≢◌, refl, ap, String, Bool-cases, inl, inr, true, false, List, [], ◌∷◌, if◌then◌else◌,
}
use grants_stack_indexer_v.Prelude.Maps.{text_keys}
use grants_stack_indexer_v.Effects.{Action, invalid_event, throw}
use grants_stack_indexer_v.Changesets.{Entities, Changeset}
use grants_stack_indexer_v.Events.{
  AnyEvent, ContractName, allo, registry, strategy, profile_migration, attestation_network,
  is_contract, event_names, equals, includes,
}
use grants_stack_indexer_v.Processors.{
  Handler, Handlers, process_allo, process_registry, process_strategy, process_attestation,
  process_migration, process_event,
}

module _ {ℓ κ} {E : Entities} {P : Type ℓ} {S : Type κ} where
  -- what is done with the event is what the handler beside its name does
  pub data HandledAs (event : AnyEvent P) (result : Action S (List (Changeset E)))
      : List (String × Handler E P S) → Type (ℓ ⊔ κ) where
    this :
        {name : String} {h : Handler E P S} {table : List (String × Handler E P S)}
        → name ≡ event.event_name
        → result ≡ h event
        → HandledAs event result ((name, h) ∷ table)
    another :
        {name : String} {h : Handler E P S} {table : List (String × Handler E P S)}
        → name ≢ event.event_name
        → HandledAs event result table
        → HandledAs event result ((name, h) ∷ table)

  -- one `case` of a `switch`
  a_case :
      {event : AnyEvent P} {h : Handler E P S} {table : List (String × Handler E P S)}
      {rest : Action S (List (Changeset E))} (name : String)
      → (equals name event.event_name ≡ false → HandledAs event rest table)
      → HandledAs event (if equals name event.event_name then h event else rest) ((name, h) ∷ table)
  a_case {event} name others = elim (Bool-cases (equals name event.event_name)) [
    | inl same ↦ rw (same) (this ((text_keys.same_iff name event.event_name).0 same) refl)
    | inr different ↦ rw (different) (
        another (λ e. cc (different, (text_keys.same_iff name event.event_name).1 e))
          (others different))
  ]

  -- every name with the same handler
  all_with : Handler E P S → List String → List (String × Handler E P S)
  all_with h [] = []
  all_with h (name ∷ names) = (name, h) ∷ all_with h names

  -- the handler of each event of a contract, by the event's name
  pub handlers_of : Handlers E P S → ContractName → List (String × Handler E P S)
  handlers_of h allo =
      ("PoolCreated", h.allo.pool_created)
      ∷ ("PoolFunded", h.allo.pool_funded)
      ∷ ("RoleGranted", h.allo.role_granted)
      ∷ ("PoolMetadataUpdated", h.allo.pool_metadata_updated)
      ∷ ("RoleRevoked", h.allo.role_revoked)
      ∷ []
  handlers_of h registry =
      ("ProfileCreated", h.registry.profile_created)
      ∷ ("ProfileMetadataUpdated", h.registry.profile_metadata_updated)
      ∷ ("ProfileNameUpdated", h.registry.profile_name_updated)
      ∷ ("ProfileOwnerUpdated", h.registry.profile_owner_updated)
      ∷ ("RoleGranted", h.registry.role_granted)
      ∷ ("RoleRevoked", h.registry.role_revoked)
      ∷ []
  handlers_of h strategy = all_with (process_strategy h.strategy) (event_names strategy)
  handlers_of h attestation_network = ("OnAttested", h.on_attested) ∷ []
  handlers_of h profile_migration = ("ProfileMigrated", h.profile_migrated) ∷ []

  all_with-HandledAs :
      (h : Handler E P S) (event : AnyEvent P) (names : List String)
      → includes names event.event_name ≡ true
      → HandledAs event (h event) (all_with h names)
  unfolding includes all_with
  all_with-HandledAs h event [] known = cc (known)
  all_with-HandledAs h event (name ∷ names) known =
      elim (Bool-cases (equals name event.event_name)) [
        | inl same ↦ this ((text_keys.same_iff name event.event_name).0 same) refl
        | inr different ↦
            another (λ e. cc (different, (text_keys.same_iff name event.event_name).1 e))
              (all_with-HandledAs h event names (rw (different) at known))
      ]

  allo-HandledAs :
      (h : Handlers E P S) (event : AnyEvent P)
      → includes (event_names allo) event.event_name ≡ true
      → HandledAs event (process_allo h.allo event) (handlers_of h allo)
  unfolding process_allo includes handlers_of
  allo-HandledAs h event known = a_case "PoolCreated" (λ n1. a_case "PoolFunded" (λ n2.
      a_case "RoleGranted" (λ n3.
        a_case "PoolMetadataUpdated"
          (λ n4. a_case "RoleRevoked" (λ n5. absurd (cc (rw (n1, n2, n3, n4, n5) at known)))))))

  registry-HandledAs :
      (h : Handlers E P S) (event : AnyEvent P)
      → includes (event_names registry) event.event_name ≡ true
      → HandledAs event (process_registry h.registry event) (handlers_of h registry)
  unfolding process_registry includes handlers_of
  registry-HandledAs h event known = a_case "ProfileCreated" (λ n1.
      a_case "ProfileMetadataUpdated" (λ n2. a_case "ProfileNameUpdated" (λ n3.
        a_case "ProfileOwnerUpdated" (λ n4. a_case "RoleGranted" (λ n5.
          a_case "RoleRevoked" (λ n6. absurd (cc (rw (n1, n2, n3, n4, n5, n6) at known))))))))

  attestation-HandledAs :
      (h : Handlers E P S) (event : AnyEvent P)
      → includes (event_names attestation_network) event.event_name ≡ true
      → HandledAs event
          (process_attestation h.on_attested event)
          (handlers_of h attestation_network)
  unfolding process_attestation includes handlers_of
  attestation-HandledAs h event known = a_case "OnAttested" (λ n1. absurd (cc (rw (n1) at known)))

  migration-HandledAs :
      (h : Handlers E P S) (event : AnyEvent P)
      → includes (event_names profile_migration) event.event_name ≡ true
      → HandledAs event
          (process_migration h.profile_migrated event)
          (handlers_of h profile_migration)
  unfolding process_migration includes handlers_of
  migration-HandledAs h event known =
      a_case "ProfileMigrated" (λ n1. absurd (cc (rw (n1) at known)))

  by_contract :
      (h : Handlers E P S) (event : AnyEvent P) (c : ContractName)
      → event.contract_name ≡ c
      → includes (event_names c) event.event_name ≡ true
      → HandledAs event (process_event h event) (handlers_of h c)
  unfolding process_event handlers_of
  by_contract h event allo e known =
      let of : (d : ContractName) → is_contract event.contract_name d ≡ is_contract allo d =
        λ d. ap (λ x. is_contract x d) e in
      rw (of allo, known) (allo-HandledAs h event known)
  by_contract h event registry e known =
      let of : (d : ContractName) → is_contract event.contract_name d ≡ is_contract registry d =
        λ d. ap (λ x. is_contract x d) e in
      rw (of allo, of registry, known) (registry-HandledAs h event known)
  by_contract h event strategy e known =
      let of : (d : ContractName) → is_contract event.contract_name d ≡ is_contract strategy d =
        λ d. ap (λ x. is_contract x d) e in
      rw (of allo, of registry, of strategy, known)
        (all_with-HandledAs (process_strategy h.strategy) event (event_names strategy) known)
  by_contract h event attestation_network e known =
      let of : (d : ContractName)
          → is_contract event.contract_name d ≡ is_contract attestation_network d =
        λ d. ap (λ x. is_contract x d) e in
      rw (of allo, of registry, of strategy, of attestation_network, known)
        (attestation-HandledAs h event known)
  by_contract h event profile_migration e known =
      let of : (d : ContractName)
          → is_contract event.contract_name d ≡ is_contract profile_migration d =
        λ d. ap (λ x. is_contract x d) e in
      rw (of allo, of registry, of strategy, of attestation_network, of profile_migration, known)
        (migration-HandledAs h event known)

  -- An event whose name the guard of its contract admits goes to the handler that `handlers_of` has beside
  -- that name for the contract (a strategy event, whatever its name, to the choice by strategy id): the
  -- switches leave out no name and confuse none.
  pub process_event-HandledAs :
      (h : Handlers E P S) (event : AnyEvent P)
      → includes (event_names event.contract_name) event.event_name ≡ true
      → HandledAs event (process_event h event) (handlers_of h event.contract_name)
  process_event-HandledAs h event known = by_contract h event event.contract_name refl known

  refused_by :
      (h : Handlers E P S) (event : AnyEvent P) (c : ContractName)
      → event.contract_name ≡ c
      → includes (event_names c) event.event_name ≡ false
      → process_event h event ≡ throw invalid_event
  unfolding process_event
  refused_by h event allo e unknown =
      let of : (d : ContractName) → is_contract event.contract_name d ≡ is_contract allo d =
        λ d. ap (λ x. is_contract x d) e in
      rw (of allo, of registry, of strategy, of attestation_network, of profile_migration, unknown)
        refl
  refused_by h event registry e unknown =
      let of : (d : ContractName) → is_contract event.contract_name d ≡ is_contract registry d =
        λ d. ap (λ x. is_contract x d) e in
      rw (of allo, of registry, of strategy, of attestation_network, of profile_migration, unknown)
        refl
  refused_by h event strategy e unknown =
      let of : (d : ContractName) → is_contract event.contract_name d ≡ is_contract strategy d =
        λ d. ap (λ x. is_contract x d) e in
      rw (of allo, of registry, of strategy, of attestation_network, of profile_migration, unknown)
        refl
  refused_by h event attestation_network e unknown =
      let of : (d : ContractName)
          → is_contract event.contract_name d ≡ is_contract attestation_network d =
        λ d. ap (λ x. is_contract x d) e in
      rw (of allo, of registry, of strategy, of attestation_network, of profile_migration, unknown)
        refl
  refused_by h event profile_migration e unknown =
      let of : (d : ContractName)
          → is_contract event.contract_name d ≡ is_contract profile_migration d =
        λ d. ap (λ x. is_contract x d) e in
      rw (of allo, of registry, of strategy, of attestation_network, of profile_migration, unknown)
        refl

  -- An event with any other name is refused with `InvalidEvent`, and no handler runs.
  process_event_refused :
      (h : Handlers E P S) (event : AnyEvent P)
      → includes (event_names event.contract_name) event.event_name ≡ false
      → process_event h event ≡ throw invalid_event
  process_event_refused h event unknown = refused_by h event event.contract_name refl unknown
