-- ===== src/Handlers/Registry.antt =====
-- packages/processors/src/processors/registry/handlers: the handlers of the events of the registry.
pub mod Roles
use grants_stack_indexer_v.Prelude.{
  ℕ, String, Bool, true, false, Option, none, some, List, [], ◌∷◌, ◌++◌, map, if◌then◌else◌,
}
use grants_stack_indexer_v.Effects.{
  native_error, Outcome, ok, err, Action, pure, throw, continue_with, ◌>>=◌, ◌>>◌,
}
use grants_stack_indexer_v.Changesets.{
  Changeset, project_changeset, ProjectRoleName, owner, member, insert_project, update_project,
  insert_pending_project_role, delete_pending_project_roles, insert_project_role,
  delete_all_project_roles_by_role, delete_all_project_roles_by_role_and_address,
}
use grants_stack_indexer_v.Events.{AnyEvent, equals, to_lower_case}
use grants_stack_indexer_v.Processors.{Handler}
use grants_stack_indexer_v.Handlers.Rows.{
  Project, PendingProjectRole, ProjectType, canonical, linked, project_metadata, project_name, rows,
}
use grants_stack_indexer_v.Handlers.Params.{Params}
use grants_stack_indexer_v.Handlers.Services.{Services, ProjectMetadata}
use grants_stack_indexer_v.Handlers.Helpers.{lift, new_date}

-- `ALLO_OWNER_ROLE`
abbrev pub allo_owner_role : String
allo_owner_role = "0x815b5a78dc333d344c7df9da23c04dbd432015cc701876ddb9ffe850e6882747"

module _ {Json : Type 0} where
  -- `getProjectTypeFromMetadata`, and "canonical" where the metadata does not fit the schema
  unfoldable pub project_type_of : Option (ProjectMetadata Json) → ProjectType
  project_type_of none = canonical
  project_type_of (some metadata) = if metadata.has_canonical then linked else canonical

  abbrev pub program_tags : Option (ProjectMetadata Json) → List String
  program_tags none = []
  program_tags (some metadata) = if equals "program" metadata.type then "program" ∷ [] else []

  abbrev pub value_of : Option (ProjectMetadata Json) → Option Json
  value_of none = none
  value_of (some metadata) = some metadata.value

module _ {ℓ} {Json : Type 0} {S P B : Type ℓ} (services : Services Json S P B) where
  open services use {chain_id, viem, schemas, project_repository}

  abbrev pub creator_of : AnyEvent Params → Option String → Action S String
  creator_of event none = services.evm_provider.get_transaction_from event.transaction_fields.hash
  creator_of event (some address) = pure address

  -- an `InsertProjectRole`
  abbrev pub role_change : String → String → ProjectRoleName → ℕ → Changeset (rows Json)
  role_change project_id address role block = project_changeset (
      insert_project_role (record {
        chain_id = chain_id;
        project_id = project_id;
        address = address;
        role = role;
        created_at_block = block;
      }))

  -- the roles that wait for the profile; an address that viem refuses ends the handler
  unfoldable pub member_changes :
      AnyEvent Params → List PendingProjectRole → Outcome (List (Changeset (rows Json)))
  member_changes event [] = ok []
  member_changes event (p ∷ pending) = elim (viem.get_address p.row.address) [
    | err e ↦ err e
    | ok address ↦ elim (member_changes event pending) [
      | err e ↦ err e
      | ok changes ↦
          ok (role_change event.params.profile_id address member event.block_number ∷ changes)
    ]
  ]

  abbrev pub pending_changes :
      List PendingProjectRole → List (Changeset (rows Json)) → List (Changeset (rows Json))
  pending_changes [] changes = []
  pending_changes (p ∷ pending) changes =
      changes
      ++ project_changeset (delete_pending_project_roles (map (λ q. q.id) (p ∷ pending))) ∷ []

  -- `ProfileCreatedHandler`
  unfoldable pub profile_created : Handler (rows Json) Params S
  unfolding member_changes
  profile_created event = do
    metadata ← services.get_metadata event.params.metadata_pointer
    let parsed = schemas.project_metadata metadata
    created_by ← creator_of event event.transaction_fields.from_address
    registry_address ← lift (viem.get_address event.src_address)
    anchor ← lift (viem.get_address event.params.anchor)
    creator ← lift (viem.get_address created_by)
    profile_owner ← lift (viem.get_address event.params.owner)
    pending ← project_repository.get_pending_project_roles_by_role chain_id event.params.profile_id
    members ← lift (member_changes event pending)
    pure (
        project_changeset (
          insert_project (record {
            tags = "allo-v2" ∷ program_tags parsed;
            chain_id = chain_id;
            registry_address = registry_address;
            id = event.params.profile_id;
            name = event.params.name;
            nonce = event.params.nonce;
            anchor_address = some anchor;
            project_number = none;
            metadata_cid = event.params.metadata_pointer;
            metadata = value_of parsed;
            created_by_address = creator;
            created_at_block = event.block_number;
            updated_at_block = event.block_number;
            project_type = project_type_of parsed;
            timestamp = new_date event.block_timestamp;
          }))
        ∷ role_change event.params.profile_id profile_owner owner event.block_number
        ∷ pending_changes pending members)

  -- the metadata as it was fetched, if it fits the schema
  abbrev pub fetched_if_parsed : Option (ProjectMetadata Json) → Option Json → Option Json
  fetched_if_parsed none metadata = none
  fetched_if_parsed (some _) metadata = metadata

  -- `ProfileMetadataUpdatedHandler`
  unfoldable pub profile_metadata_updated : Handler (rows Json) Params S
  profile_metadata_updated event = do
    metadata ← services.get_metadata event.params.metadata_pointer
    let parsed = schemas.project_metadata metadata
    pure (
        project_changeset (
          update_project chain_id event.params.profile_id (
            project_metadata event.params.metadata_pointer (fetched_if_parsed parsed metadata)
              (project_type_of parsed)))
        ∷ [])

  -- `ProfileNameUpdatedHandler`
  unfoldable pub profile_name_updated : Handler (rows Json) Params S
  profile_name_updated event = do
    anchor ← lift (viem.get_address event.params.anchor)
    pure (
        project_changeset
          (update_project chain_id event.params.profile_id (project_name event.params.name anchor))
        ∷ [])

  -- `ProfileOwnerUpdatedHandler`
  unfoldable pub profile_owner_updated : Handler (rows Json) Params S
  profile_owner_updated event = do
    address ← lift (viem.get_address event.params.owner)
    pure (
        project_changeset (delete_all_project_roles_by_role chain_id event.params.profile_id owner)
        ∷ role_change event.params.profile_id address owner event.block_number
        ∷ [])

  abbrev pub granted_member :
      AnyEvent Params → String → Option (Project Json) → Changeset (rows Json)
  granted_member event account (some project) =
      role_change project.id account member event.block_number
  granted_member event account none = project_changeset (
      insert_pending_project_role (record {
        chain_id = chain_id;
        role = to_lower_case event.params.role;
        address = account;
        created_at_block = event.block_number;
      }))

  abbrev pub grant_member : Handler (rows Json) Params S
  grant_member event = do
    account ← lift (viem.get_address event.params.account)
    project ← project_repository.get_project_by_id chain_id (to_lower_case event.params.role)
    pure (granted_member event account project ∷ [])

  -- `RoleGrantedHandler`
  unfoldable pub member_granted : Handler (rows Json) Params S
  member_granted event =
      if equals allo_owner_role (to_lower_case event.params.role)
      then pure []
      else grant_member event

  -- `ProjectByRoleNotFound`
  abbrev pub project_or_throw : Option (Project Json) → Outcome (Project Json)
  project_or_throw none = err (native_error "Project not found for role")
  project_or_throw (some project) = ok project

  -- `RoleRevokedHandler`
  unfoldable pub member_revoked : Handler (rows Json) Params S
  member_revoked event = do
    account ← lift (viem.get_address event.params.account)
    found ← project_repository.get_project_by_id chain_id (to_lower_case event.params.role)
    project ← lift (project_or_throw found)
    pure (
        project_changeset
          (delete_all_project_roles_by_role_and_address chain_id project.id member account)
        ∷ [])
