-- ===== src/Handlers/Allo/Roles.antt =====
-- A role of a pool that is granted before the pool is created, and after.
use grants_stack_indexer_v.Prelude.{
  ℕ, ◌≡◌, refl, ap, subst, String, false, Option, none, some, List, [], ◌∷◌, ◌++◌,
}
use grants_stack_indexer_v.Prelude.Listed.{Listed, Listed-left, Listed-right, Listed-map}
use grants_stack_indexer_v.Prelude.Numerals.{to_string}
use grants_stack_indexer_v.Effects.{ok, pure, ◌>>=◌}
use grants_stack_indexer_v.Effects.Triples.{bind-eq-ok}
use grants_stack_indexer_v.Changesets.{
  Changeset, round_changeset, RoundRoleName, admin, manager, insert_pending_round_role,
  insert_round_role,
}
use grants_stack_indexer_v.Events.{AnyEvent, equals, to_lower_case}
use grants_stack_indexer_v.Handlers.Rows.{
  Round, RoundRole, NewPendingRoundRole, PendingRoundRole, rows,
}
use grants_stack_indexer_v.Handlers.Params.{Params}
use grants_stack_indexer_v.Handlers.Services.{Services}
use grants_stack_indexer_v.Handlers.Helpers.{lift, admin_role_of, manager_role_of}
use grants_stack_indexer_v.Handlers.Allo.{role_granted, granted, find_round_by_role}
use grants_stack_indexer_v.Handlers.Allo.PoolCreated.{
  handle_pending_roles, role_changes, delete_changes,
}
use grants_stack_indexer_v.Handlers.Allo.PoolCreated.Pending.{handle_pending_roles-Distinct}

module _ {ℓ} {Json : Type 0} {S P B : Type ℓ} (services : Services Json S P B) where
  open services use {chain_id, viem, round_repository}

  -- what a granted role was made of
  granted_inversion :
      (event : AnyEvent Params) (s t : S) (change : Changeset (rows Json))
      → role_granted services event s ≡ (ok (change ∷ []), t)
      → (account : String) × (found : Option (Round Json × RoundRoleName)) × (viem.get_address
            event.params.account
          ≡ ok account)
        × (granted services event account found ≡ change)
  unfolding role_granted
  granted_inversion event s t change h =
      let (account, s1, e1, h1) =
        bind-eq-ok (lift (viem.get_address event.params.account))
          (λ account. find_round_by_role services (to_lower_case event.params.role) >>= λ found.
            pure (granted services event account found ∷ []))
          h in
      let (found, s2, e2, h2) =
        bind-eq-ok (find_round_by_role services (to_lower_case event.params.role))
          (λ found. pure (granted services event account found ∷ [])) h1 in
      (account, found, ap (λ r. r.0) e1, cc (h2))

  pending_inversion :
      (event : AnyEvent Params) (account : String) (found : Option (Round Json × RoundRoleName))
      (p : NewPendingRoundRole)
      → granted services event account found ≡ round_changeset (insert_pending_round_role p)
      → (account ≡ p.address) × (event.block_number ≡ p.created_at_block)
  pending_inversion event account none p h = (cc (h), cc (h))
  pending_inversion event account (some (round, name)) p h = cc (h)

  -- the role of an account in a round, granted in a block
  abbrev role_in : String → String → RoundRoleName → ℕ → RoundRole
  role_in round_id account name block = record {
    chain_id = chain_id;
    round_id = round_id;
    address = account;
    role = name;
    created_at_block = block;
  }

  role_inversion :
      (event : AnyEvent Params) (account : String) (found : Option (Round Json × RoundRoleName))
      (r : RoundRole)
      → granted services event account found ≡ round_changeset (insert_round_role r)
      → role_in r.round_id account r.role event.block_number ≡ r
  role_inversion event account none r h = cc (h)
  role_inversion event account (some (round, name)) r h =
      let e : role_in round.id account name event.block_number ≡ r = cc (h) in
      subst (λ (q : RoundRole). role_in q.round_id account q.role event.block_number ≡ q) e refl

  -- the list of the two that goes with a role
  abbrev pub pending_as :
      RoundRoleName → List PendingRoundRole → List PendingRoundRole → List PendingRoundRole
  pending_as admin admins managers = admins
  pending_as manager admins managers = managers

  as-Listed :
      (name : RoundRoleName) (round_id : String) (admins managers : List PendingRoundRole)
      (deletes : List (Changeset (rows Json))) (q : PendingRoundRole)
      → Listed q (pending_as name admins managers)
      → Listed
          (round_changeset
            (insert_round_role (role_in round_id q.row.address name q.row.created_at_block)))
          (role_changes services round_id admin admins
            ++ (role_changes services round_id manager managers ++ deletes))
  as-Listed admin round_id admins managers deletes q l = Listed-left _ (Listed-map _ l)
  as-Listed manager round_id admins managers deletes q l =
      Listed-right (role_changes services round_id admin admins) (Listed-left _ (Listed-map _ l))

  -- If an account is granted a role of a pool before the pool is there, which leaves a pending role, and
  -- the pending roles of the pool's hashes can be read when the pool is created, this one among them, then
  -- the creation of the pool inserts the very role that granting it after the creation inserts: the same
  -- account, round, name, and block.
  pub role_granted-handle_pending_roles :
      (event : AnyEvent Params) (pool_id id : ℕ) (p : NewPendingRoundRole) (r : RoundRole)
      (admins managers : List PendingRoundRole) (s s' t t' u v w : S)
      → role_granted services event s
        ≡ (ok (round_changeset (insert_pending_round_role p) ∷ []), s')
      → role_granted services event t ≡ (ok (round_changeset (insert_round_role r) ∷ []), t')
      → r.round_id ≡ to_string pool_id
      → equals (admin_role_of viem pool_id) (manager_role_of viem pool_id) ≡ false
      → round_repository.get_pending_round_roles chain_id (admin_role_of viem pool_id) u
        ≡ (ok admins, v)
      → round_repository.get_pending_round_roles chain_id (manager_role_of viem pool_id) v
        ≡ (ok managers, w)
      → Listed (record { id = id; row = p }) (pending_as r.role admins managers)
      → (changes : List (Changeset (rows Json))) × (handle_pending_roles services pool_id u
          ≡ (ok changes, w))
        × Listed (round_changeset (insert_round_role r)) changes
  role_granted-handle_pending_roles event pool_id id p r admins managers s s' t t' u v w before
        after in_pool differ reads_admins reads_managers waits =
      let (ids, e, _, _) =
        handle_pending_roles-Distinct services pool_id admins managers u v w differ reads_admins
          reads_managers in
      let (account, found, checks, is_pending) = granted_inversion event s s' _ before in
      let (account', found', checks', is_role) = granted_inversion event t t' _ after in
      let (same_address, same_block) = pending_inversion event account found p is_pending in
      let same_role = role_inversion event account' found' r is_role in
      let same_account : account' ≡ account = cc (checks, checks') in
      let same : role_in (to_string pool_id) p.address r.role p.created_at_block ≡ r =
        cc (same_address, same_block, same_role, same_account, in_pool) in
      let deletes = delete_changes services ids in
      let changes : List (Changeset (rows Json)) =
        role_changes services (to_string pool_id) admin admins
        ++ (role_changes services (to_string pool_id) manager managers ++ deletes) in
      (
        changes,
        e,
        subst
            (λ (q : RoundRole).
              Listed {A = Changeset (rows Json)} (round_changeset (insert_round_role q)) changes)
            same
            (as-Listed r.role (to_string pool_id) admins managers deletes
              (record { id = id; row = p }) waits),
      )
