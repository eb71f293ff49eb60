-- ===== src/Handlers/Allo/PoolCreated/Pending.antt =====
-- The pending roles that become roles of the pool (`handlePendingRoles`).
use grants_stack_indexer_v.Prelude.{
  ℕ, ◌≡◌, refl, sym, subst, inl, inr, ◌⊎◌, ◌↔◌, true, false, Bool-cases, right_true, List, [], ◌∷◌,
  ◌++◌, map, ◌==◌, ==_iff,
}
use grants_stack_indexer_v.Prelude.Listed.{
  Listed, there, Listed-left, Listed-right, Listed-append, Listed-cons, Listed-of_eq,
}
use grants_stack_indexer_v.Prelude.Numerals.{to_string}
use grants_stack_indexer_v.Effects.{ok}
use grants_stack_indexer_v.Changesets.{admin, manager}
use grants_stack_indexer_v.Events.{equals}
use grants_stack_indexer_v.Handlers.Rows.{PendingRoundRole}
use grants_stack_indexer_v.Handlers.Services.{Services}
use grants_stack_indexer_v.Handlers.Helpers.{admin_role_of, manager_role_of}
use grants_stack_indexer_v.Handlers.Allo.PoolCreated.{
  has_id, add_ids, role_changes, delete_changes, handle_pending_roles,
}

-- No number stands in the list twice.
pub data Distinct : List ℕ → Type 0 where
  none_left : Distinct []
  one_more : {n : ℕ} {ns : List ℕ} → ¬ (Listed n ns) → Distinct ns → Distinct (n ∷ ns)

has_id_iff : (n : ℕ) (ns : List ℕ) → (has_id n ns ≡ true) ↔ Listed n ns
unfolding has_id
has_id_iff n [] = (λ h. cc (h), λ l. elim l [ ])
has_id_iff n (m ∷ ms) = elim (Bool-cases (m == n)) [
  | inl same ↦ (λ _. Listed-of_eq ms ((==_iff m n).0 same), λ _. rw same refl)
  | inr other ↦ (
    λ h. there ((has_id_iff n ms).0 (rw other at h)),
    λ l. elim (Listed-cons l) [
      | inl e ↦ absurd (cc (other, (==_iff m n).1 e))
      | inr k ↦ right_true _ _ ((has_id_iff n ms).1 k)
    ],
  )
]

not_has_id : (n : ℕ) (ns : List ℕ) → has_id n ns ≡ false → ¬ (Listed n ns)
not_has_id n ns h l = cc (h, (has_id_iff n ns).1 l)

Distinct-add : (n : ℕ) (ns : List ℕ) → ¬ (Listed n ns) → Distinct ns → Distinct (ns ++ n ∷ [])
Distinct-add n [] h d = one_more (λ l. elim l [ ]) none_left
Distinct-add n (m ∷ ms) h (one_more k d) =
    one_more
      (λ l. elim (Listed-append ms l) [
        | inl old ↦ k old
        | inr new ↦ elim (Listed-cons {xs = []} new) [
          | inl e ↦ h (Listed-of_eq ms (sym e))
          | inr j ↦ elim j [ ]
        ]
      ])
      (Distinct-add n ms (λ l. h (there l)) d)

add_ids-Distinct : (set ns : List ℕ) → Distinct set → Distinct (add_ids set ns)
unfolding add_ids
add_ids-Distinct set [] d = d
add_ids-Distinct set (n ∷ ns) d = elim (Bool-cases (has_id n set)) [
  | inl old ↦ rw old (add_ids-Distinct set ns d)
  | inr new ↦
      rw new (add_ids-Distinct (set ++ n ∷ []) ns (Distinct-add n set (not_has_id n set new) d))
]

-- the set has what it had and the new ids
add_ids_iff : (set ns : List ℕ) (n : ℕ) → Listed n (add_ids set ns) ↔ (Listed n set ⊎ Listed n ns)
unfolding add_ids
add_ids_iff set [] n = (λ l. inl l, λ l. elim l [ inl k ↦ k | inr k ↦ elim k [ ] ])
add_ids_iff set (m ∷ ms) n = elim (Bool-cases (has_id m set)) [
  | inl old ↦
      let (to, from) = add_ids_iff set ms n in
      rw old (
        λ l. elim (to l) [ inl k ↦ inl k | inr k ↦ inr (there k) ],
        λ l. elim l [
          | inl k ↦ from (inl k)
          | inr k ↦ elim (Listed-cons k) [
            | inl e ↦ from (inl (subst (λ i. Listed i set) e ((has_id_iff m set).0 old)))
            | inr j ↦ from (inr j)
          ]
        ],
      )
  | inr new ↦
      let (to, from) = add_ids_iff (set ++ m ∷ []) ms n in
      rw new (
        λ l. elim (to l) [
          | inl k ↦ elim (Listed-append set k) [
            | inl j ↦ inl j
            | inr j ↦ elim (Listed-cons j) [ inl e ↦ inr (Listed-of_eq ms e) | inr i ↦ elim i [ ] ]
          ]
          | inr k ↦ inr (there k)
        ],
        λ l. elim l [
          | inl k ↦ from (inl (Listed-left (m ∷ []) k))
          | inr k ↦ elim (Listed-cons k) [
            | inl e ↦ from (inl (Listed-right set (Listed-of_eq [] e)))
            | inr j ↦ from (inr j)
          ]
        ],
      )
]

module _ {ℓ} {Json : Type 0} {S P B : Type ℓ} (services : Services Json S P B) where
  open services use {chain_id, viem, round_repository}

  -- If the pending roles of the two hashes of a pool can be read, and the hashes differ, the pool gets one
  -- admin for each pending role of the admin's hash, then one manager for each of the manager's hash, with
  -- their addresses and blocks, and then, if there was any, the ids of exactly these pending roles are
  -- deleted, each once.
  pub handle_pending_roles-Distinct :
      (pool_id : ℕ) (admins managers : List PendingRoundRole) (s t u : S)
      → equals (admin_role_of viem pool_id) (manager_role_of viem pool_id) ≡ false
      → round_repository.get_pending_round_roles chain_id (admin_role_of viem pool_id) s
        ≡ (ok admins, t)
      → round_repository.get_pending_round_roles chain_id (manager_role_of viem pool_id) t
        ≡ (ok managers, u)
      → (ids : List ℕ) × (handle_pending_roles services pool_id s ≡ (
        ok (
            role_changes services (to_string pool_id) admin admins
            ++ (role_changes services (to_string pool_id) manager managers
                ++ delete_changes services ids)),
        u,
      ))
        × Distinct ids
        × ((n : ℕ) → Listed n ids ↔ Listed n (map (λ p. p.id) (admins ++ managers)))
  unfolding handle_pending_roles
  handle_pending_roles-Distinct pool_id admins managers s t u differ reads_admins reads_managers = (
    add_ids [] (map (λ p. p.id) (admins ++ managers)),
    rw (reads_admins, reads_managers, differ) refl,
    add_ids-Distinct [] (map (λ p. p.id) (admins ++ managers)) none_left,
    λ n.
        let (to, from) = add_ids_iff [] (map (λ p. p.id) (admins ++ managers)) n in
        (λ l. elim (to l) [ inl k ↦ elim k [ ] | inr k ↦ k ], λ l. from (inr l)),
  )
