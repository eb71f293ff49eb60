-- ===== src/Handlers/Sound/Profiles.antt =====
-- The handlers of the events of the registry, of attestations and of the migration keep what the services
-- keep, on their own chain.
use grants_stack_indexer_v.Prelude.{refl, String, Option, none, some, List, [], ◌∷◌}
use grants_stack_indexer_v.Effects.{Outcome, ok, err}
use grants_stack_indexer_v.Effects.Triples.{
  Returns, Keeps, pure-Sound, if-Sound, lift-Sound, lift-Keeps, bind-Sound, then-Sound,
}
use grants_stack_indexer_v.Changesets.{Changeset, member}
use grants_stack_indexer_v.Events.{AnyEvent, equals, to_lower_case}
use grants_stack_indexer_v.Handlers.Rows.{rows}
use grants_stack_indexer_v.Handlers.Params.{Params}
use grants_stack_indexer_v.Handlers.Services.{Services}
use grants_stack_indexer_v.Handlers.Sound.{
  ServicesKeep, AllOnChain, empty, both, append-AllOnChain, SoundHandler,
}
use grants_stack_indexer_v.Handlers.Rows.{Project, PendingProjectRole}
use grants_stack_indexer_v.Handlers.Registry.{
  creator_of, role_change, member_changes, pending_changes, profile_created,
  profile_metadata_updated, profile_name_updated, profile_owner_updated, granted_member,
  member_granted, project_or_throw, member_revoked, allo_owner_role,
}
use grants_stack_indexer_v.Handlers.Attestations.{
  on_attested, profile_migrated, decode_attested_data,
}

module _ {ℓ μ} {Json : Type 0} {S P B : Type ℓ} {I : S → Type μ} {services : Services Json S P B}
    (keep : ServicesKeep I services) where
  open services use {viem}

  creator_of-Keeps :
      (event : AnyEvent Params) (sender : Option String)
      → Keeps I (creator_of services event sender)
  creator_of-Keeps event none = keep.transaction _
  creator_of-Keeps event (some address) = pure-Sound tt

  member_changes-AllOnChain :
      (event : AnyEvent Params) (pending : List PendingProjectRole)
      → Returns (AllOnChain services.chain_id) (member_changes services event pending)
  unfolding member_changes
  member_changes-AllOnChain event [] = empty
  member_changes-AllOnChain event (p ∷ pending) =
      add_member (viem.get_address p.row.address) (member_changes services event pending)
        (member_changes-AllOnChain event pending)
    where
      add_member :
          (address : Outcome String) (rest : Outcome (List (Changeset (rows Json))))
          → Returns (AllOnChain services.chain_id) rest
          → Returns (AllOnChain services.chain_id) (elim address [
            | err e ↦ err e
            | ok address ↦ elim rest [
              | err e ↦ err e
              | ok changes ↦ ok (
                  role_change services event.params.profile_id address member event.block_number
                  ∷ changes)
            ]
          ])
      add_member (err e) rest on = tt
      add_member (ok address) (err e) on = tt
      add_member (ok address) (ok changes) on = both refl on

  pending_changes-AllOnChain :
      (pending : List PendingProjectRole) {changes : List (Changeset (rows Json))}
      → AllOnChain services.chain_id changes
      → AllOnChain services.chain_id (pending_changes services pending changes)
  pending_changes-AllOnChain [] on = empty
  pending_changes-AllOnChain (p ∷ pending) on =
      append-AllOnChain services.chain_id on (both tt empty)

  pub profile_created-Sound : SoundHandler keep (profile_created services)
  unfolding profile_created
  profile_created-Sound event = then-Sound (keep.metadata _) (λ metadata.
      then-Sound (creator_of-Keeps event event.transaction_fields.from_address) (λ created_by.
        then-Sound (lift-Keeps (viem.get_address event.src_address)) (λ registry_address.
          then-Sound (lift-Keeps (viem.get_address event.params.anchor)) (λ anchor.
            then-Sound (lift-Keeps (viem.get_address created_by)) (λ creator.
              then-Sound (lift-Keeps (viem.get_address event.params.owner)) (λ profile_owner.
                then-Sound (keep.pending_project_roles _ _) (λ pending.
                  bind-Sound {R = AllOnChain services.chain_id}
                    (lift-Sound {o = member_changes services event pending}
                      (member_changes-AllOnChain event pending))
                    (λ members on_chain.
                      pure-Sound (
                        both refl (both refl (pending_changes-AllOnChain pending on_chain)))))))))))

  pub profile_metadata_updated-Sound : SoundHandler keep (profile_metadata_updated services)
  unfolding profile_metadata_updated
  profile_metadata_updated-Sound event =
      then-Sound (keep.metadata _) (λ metadata. pure-Sound (both refl empty))

  pub profile_name_updated-Sound : SoundHandler keep (profile_name_updated services)
  unfolding profile_name_updated
  profile_name_updated-Sound event =
      then-Sound (lift-Keeps (viem.get_address event.params.anchor))
        (λ anchor. pure-Sound (both refl empty))

  pub profile_owner_updated-Sound : SoundHandler keep (profile_owner_updated services)
  unfolding profile_owner_updated
  profile_owner_updated-Sound event =
      then-Sound (lift-Keeps (viem.get_address event.params.owner))
        (λ address. pure-Sound (both refl (both refl empty)))

  granted_member-AllOnChain :
      (event : AnyEvent Params) (account : String) (project : Option (Project Json))
      → AllOnChain services.chain_id (granted_member services event account project ∷ [])
  granted_member-AllOnChain event account none = both refl empty
  granted_member-AllOnChain event account (some project) = both refl empty

  pub member_granted-Sound : SoundHandler keep (member_granted services)
  unfolding member_granted
  member_granted-Sound event =
      if-Sound (equals allo_owner_role (to_lower_case event.params.role)) (pure-Sound empty) (
        then-Sound (lift-Keeps (viem.get_address event.params.account)) (λ account.
          then-Sound (keep.project_by_id _ _)
            (λ project. pure-Sound (granted_member-AllOnChain event account project))))

  pub member_revoked-Sound : SoundHandler keep (member_revoked services)
  unfolding member_revoked
  member_revoked-Sound event =
      then-Sound (lift-Keeps (viem.get_address event.params.account)) (λ account.
        then-Sound (keep.project_by_id _ _) (λ found.
          then-Sound (lift-Keeps (project_or_throw services found))
            (λ project. pure-Sound (both refl empty))))

  pub on_attested-Sound : SoundHandler keep (on_attested services)
  unfolding on_attested
  on_attested-Sound event =
      then-Sound (lift-Keeps (viem.get_address event.params.recipient)) (λ recipient.
        then-Sound (lift-Keeps (decode_attested_data viem event.params.encoded_data))
          (λ decoded. then-Sound (keep.metadata _) (λ metadata. pure-Sound (both refl empty))))

  pub profile_migrated-Sound : SoundHandler keep (profile_migrated services)
  unfolding profile_migrated
  profile_migrated-Sound event = pure-Sound (both tt empty)
