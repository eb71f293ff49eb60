-- ===== src/Handlers/Registry/Roles.antt =====
-- The pending roles that become members of a profile when it is created.
use grants_stack_indexer_v.Prelude.{◌≡◌, sym, subst, String, List, [], ◌∷◌, map, inl, inr}
use grants_stack_indexer_v.Prelude.Listed.{
  Listed, here, there, Listed-left, Listed-right, Listed-cons,
}
use grants_stack_indexer_v.Effects.{Outcome, ok, err}
use grants_stack_indexer_v.Effects.Triples.{
  Returns, Sound, Anywhere, ends-Keeps, pure-Sound, lift-Sound, lift-Keeps, bind-Sound, then-Sound,
}
use grants_stack_indexer_v.Changesets.{
  Changeset, project_changeset, insert_project_role, delete_pending_project_roles, member,
}
use grants_stack_indexer_v.Events.{AnyEvent}
use grants_stack_indexer_v.Handlers.Rows.{PendingProjectRole, rows}
use grants_stack_indexer_v.Handlers.Params.{Params}
use grants_stack_indexer_v.Handlers.Services.{Services}
use grants_stack_indexer_v.Handlers.Registry.{
  creator_of, role_change, member_changes, pending_changes, profile_created,
}

module _ {ℓ} {Json : Type 0} {S P B : Type ℓ} (services : Services Json S P B)
    (event : AnyEvent Params) (pending : List PendingProjectRole) where
  open services use {chain_id}

  -- the changes that make the pending role a role of a member
  abbrev pub BecomesMember : PendingProjectRole → String → List (Changeset (rows Json)) → Type 0
  BecomesMember p address changes =
      Listed
        (project_changeset (
          insert_project_role (record {
            chain_id = chain_id;
            project_id = event.params.profile_id;
            address = address;
            role = member;
            created_at_block = event.block_number;
          })))
        changes

  -- Every pending role becomes one of a member, and all pending roles are deleted.
  abbrev pub Converted : PendingProjectRole → String → List (Changeset (rows Json)) → Type 0
  Converted p address changes =
      BecomesMember p address changes
      × Listed (project_changeset (delete_pending_project_roles (map (λ q. q.id) pending))) changes

module _ {ℓ} {Json : Type 0} {S P B : Type ℓ} (services : Services Json S P B)
    (event : AnyEvent Params) (pending : List PendingProjectRole)
    (reads : (s : S)
      → (services.project_repository.get_pending_project_roles_by_role services.chain_id
          event.params.profile_id s).0
        ≡ ok pending) where
  open services use {chain_id, viem}

  reads_pending :
      Sound Anywhere
        (λ found. found ≡ pending)
        (services.project_repository.get_pending_project_roles_by_role chain_id
          event.params.profile_id)
  reads_pending = record { holds = λ s i. (tt, by_outcome _ (reads s)) }
    where
      by_outcome :
          (o : Outcome (List PendingProjectRole))
          → o ≡ ok pending
          → Returns (λ found. found ≡ pending) o
      by_outcome (ok found) e = cc e
      by_outcome (err e) h = tt

  add_member :
      (p q : PendingProjectRole) (address : String) (other : Outcome String)
      (rest : Outcome (List (Changeset (rows Json))))
      → Returns (BecomesMember services event pending p address) rest
      → Returns (BecomesMember services event pending p address) (elim other [
        | err e ↦ err e
        | ok a ↦ elim rest [
          | err e ↦ err e
          | ok changes ↦
              ok
                (role_change services event.params.profile_id a member event.block_number ∷ changes)
        ]
      ])
  add_member p q address (err e) rest l = tt
  add_member p q address (ok a) (err e) l = tt
  add_member p q address (ok a) (ok changes) l = there l

  first_member :
      (p : PendingProjectRole) (address : String) (rest : Outcome (List (Changeset (rows Json))))
      → Returns (BecomesMember services event pending p address) (elim rest [
        | err e ↦ err e
        | ok changes ↦ ok (
            role_change services event.params.profile_id address member event.block_number
            ∷ changes)
      ])
  first_member p address (err e) = tt
  first_member p address (ok changes) = here

  member_changes-BecomesMember :
      (p : PendingProjectRole) (address : String) (waiting : List PendingProjectRole)
      → viem.get_address p.row.address ≡ ok address
      → Listed p waiting
      → Returns
          (BecomesMember services event pending p address)
          (member_changes services event waiting)
  unfolding member_changes
  member_changes-BecomesMember p address [] checks l = elim l [ ]
  member_changes-BecomesMember p address (q ∷ waiting) checks l = elim (Listed-cons l) [
    | inl e ↦
        subst
          (λ (r : PendingProjectRole).
            Returns (BecomesMember services event pending p address)
              (member_changes services event (r ∷ waiting)))
          (sym e)
          (rw (member_changes, checks)
            (first_member p address (member_changes services event waiting)))
    | inr k ↦
        add_member p q address (viem.get_address q.row.address)
          (member_changes services event waiting)
          (member_changes-BecomesMember p address waiting checks k)
  ]

  converted :
      (p : PendingProjectRole) (address : String) (waiting : List PendingProjectRole)
      (members : List (Changeset (rows Json)))
      → Listed p waiting
      → BecomesMember services event pending p address members
      → BecomesMember services event pending p address (pending_changes services waiting members)
        × Listed
            (project_changeset (delete_pending_project_roles (map (λ q. q.id) waiting)))
            (pending_changes services waiting members)
  converted p address [] members l m = elim l [ ]
  converted p address (q ∷ waiting) members l m = (Listed-left _ m, Listed-right members here)

  -- If the pending roles of a profile are read whatever the world, then profileCreated, when it returns,
  -- inserts for each of them whose address viem accepts the role of a member of the profile, in the block
  -- of the creation, and deletes all of them.
  pub profile_created-Converted :
      (p : PendingProjectRole) (address : String)
      → Listed p pending
      → viem.get_address p.row.address ≡ ok address
      → (s : S)
      → Returns (Converted services event pending p address) (profile_created services event s).0
  unfolding profile_created
  profile_created-Converted p address l checks s = (by_steps.holds s tt).1
    where
      members_of :
          (found : List PendingProjectRole)
          → found ≡ pending
          → Returns
              (BecomesMember services event pending p address)
              (member_changes services event found)
      members_of found same =
          subst
            (λ ps.
              Returns (BecomesMember services event pending p address)
                (member_changes services event ps))
            (sym same) (member_changes-BecomesMember p address pending checks l)

      both :
          (found : List PendingProjectRole)
          → found ≡ pending
          → (members : List (Changeset (rows Json)))
          → BecomesMember services event pending p address members
          → Converted services event pending p address (pending_changes services found members)
      both found same members becomes =
          subst
            (λ ps. Converted services event pending p address (pending_changes services ps members))
            (sym same) (converted p address pending members l becomes)

      by_steps :
          Sound Anywhere
            (Converted services event pending p address)
            (profile_created services event)
      by_steps = then-Sound (ends-Keeps (services.get_metadata _)) (λ metadata.
          then-Sound (ends-Keeps (creator_of services event event.transaction_fields.from_address))
            (λ created_by.
              then-Sound (lift-Keeps (viem.get_address event.src_address)) (λ registry_address.
                then-Sound (lift-Keeps (viem.get_address event.params.anchor)) (λ anchor.
                  then-Sound (lift-Keeps (viem.get_address created_by)) (λ creator.
                    then-Sound (lift-Keeps (viem.get_address event.params.owner)) (λ profile_owner.
                      bind-Sound {R = λ found. found ≡ pending} reads_pending (λ found same.
                        bind-Sound {R = BecomesMember services event pending p address}
                          (lift-Sound {o = member_changes services event found}
                            (members_of found same))
                          (λ members becomes. pure-Sound (
                            there (there (both found same members becomes).0),
                            there (there (both found same members becomes).1),
                          )))))))))
