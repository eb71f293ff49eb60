-- ===== src/Handlers/Strategies/Common/FullRow.antt =====
-- RecipientStatusUpdatedWithFullRow: which applications of a row are updated, and to what.
use grants_stack_indexer_v.Prelude.{
  ℕ, zero, suc, ◌+◌, ◌*◌, ◌/◌, ◌%◌, ◌^◌, ◌≤◌, ◌<◌, ◌≡◌, refl, sym, ap, ◌∙◌, subst, ◌↔◌, inl, inr,
  String, true, Bool-cases, Option, none, some, List, [], ◌++◌, map, arith,
}
use grants_stack_indexer_v.Prelude.Listed.{
  Listed, Listed-left, Listed-right, Listed-append, Listed-cons, Listed-of_eq, Listed-map,
  of_Listed-map,
}
use grants_stack_indexer_v.Prelude.Numerals.{to_string}
use grants_stack_indexer_v.Effects.{ok}
use grants_stack_indexer_v.Changesets.{Changeset, application_changeset, update_application}
use grants_stack_indexer_v.Events.{AnyEvent}
use grants_stack_indexer_v.Handlers.Rows.{Round, Application, status_update, rows}
use grants_stack_indexer_v.Handlers.Params.{Params}
use grants_stack_indexer_v.Handlers.Services.{Services}
use grants_stack_indexer_v.Handlers.Helpers.{
  is_valid_application_status, status_of, create_status_update,
}
use grants_stack_indexer_v.Handlers.Strategies.Common.{
  application_at, applications_from, get_applications_to_update, found_with, status_change,
  recipient_status_updated, items_per_row,
}

valid_iff : (n : ℕ) → (is_valid_application_status n ≡ true) ↔ ((1 ≤ n) × (n ≤ 5))
unfolding is_valid_application_status
valid_iff n = ground arith

module _ {ℓ} {Json : Type 0} {S P B : Type ℓ} (services : Services Json S P B) (row full : ℕ)
    (round_id : String) (find : String → Option (Application Json))
    (reads : (id : String) (s : S)
      → services.application_repository.get_application_by_id id services.chain_id round_id s
        ≡ (ok (find id), s)) where
  -- an application with its status at an index
  abbrev AtIndex : ℕ → Application Json × ℕ → Type 0
  AtIndex i p =
      (find (to_string i) ≡ some p.0)
      × (p.1 ≡ services.status_in_row row full i)
      × (1 ≤ p.1)
      × (p.1 ≤ 5)

  found_iff :
      (status : ℕ) (found : Option (Application Json)) (p : Application Json × ℕ)
      → Listed p (found_with services status found) ↔ ((found ≡ some p.0) × (p.1 ≡ status))
  found_iff status none p = (λ l. elim l [ ], λ h. cc (h.0))
  found_iff status (some application) p = (
    λ l. elim (Listed-cons {xs = []} l) [
      | inl e ↦ (ap (λ q. some q.0) e, sym (ap (λ q. q.1) e))
      | inr k ↦ elim k [ ]
    ],
    λ h. Listed-of_eq [] (cc (h.0, h.1)),
  )

  application_at_lem :
      (i : ℕ) (s : S)
      → (found : List (Application Json × ℕ)) × (application_at services row full i round_id s
          ≡ (ok found, s))
        × ((p : Application Json × ℕ) → Listed p found ↔ AtIndex i p)
  unfolding application_at
  application_at_lem i s =
      let status = services.status_in_row row full i in
      elim (Bool-cases (is_valid_application_status status)) [
        | inl valid ↦ (
          found_with services status (find (to_string i)),
          rw (valid, reads) refl,
          λ p.
              let (to, from) = found_iff status (find (to_string i)) p in
              let (low, high) = (valid_iff status).0 valid in
              (λ l. let (e, f) = to l in (e, f, rw f low, rw f high), λ h. from (h.0, h.1)),
        )
        | inr invalid ↦ (
          [],
          rw invalid refl,
          λ p. (
            λ l. elim l [ ],
            λ h. cc (invalid, (valid_iff status).1 (rw (← h.1) h.2, rw (← h.1) h.3)),
          ),
        )
      ]

  applications_from_lem :
      (items i : ℕ) (s : S)
      → (found : List (Application Json × ℕ)) × (applications_from services row full items i
            round_id s
          ≡ (ok found, s))
        × ((p : Application Json × ℕ)
            → Listed p found ↔ ((k : ℕ) × (k < items) × AtIndex (i + k) p))
  unfolding applications_from
  applications_from_lem zero i s =
      ([], refl, λ p. (λ l. elim l [ ], λ h. absurd (omega (arith, h.1))))
  applications_from_lem (suc items) i s =
      let (first, e, at) = application_at_lem i s in
      let (others, f, from) = applications_from_lem items (i + 1) s in
      (
        first ++ others,
        rw (e, f) refl,
        λ p. (
          λ l. elim (Listed-append first l) [
            | inl j ↦ (0, omega arith, subst (λ n. AtIndex n p) (omega arith) ((at p).0 j))
            | inr j ↦
                let (k, below, found) = (from p).0 j in
                (suc k, omega (arith, below), subst (λ n. AtIndex n p) (omega arith) found)
          ],
          λ (k, below, found). or_later first others p (at p) (from p) k below found,
        ),
      )
    where
      or_later :
          (first others : List (Application Json × ℕ)) (p : Application Json × ℕ)
          → (Listed p first ↔ AtIndex i p)
          → (Listed p others ↔ ((k : ℕ) × (k < items) × AtIndex (i + 1 + k) p))
          → (k : ℕ) → k < suc items
          → AtIndex (i + k) p
          → Listed p (first ++ others)
      or_later first others p at from zero below found =
          Listed-left others (at.1 (subst (λ n. AtIndex n p) (omega arith) found))
      or_later first others p at from (suc k) below found =
          Listed-right first
            (from.1 (k, omega (arith, below), subst (λ n. AtIndex n p) (omega arith) found))

module _ {ℓ} {Json : Type 0} {S P B : Type ℓ} (services : Services Json S P B) where
  open services use {chain_id, viem, round_repository, application_repository, status_in_row}

  -- If the strategy has a round, applications can be read, and the bitmap has the 4 bits from 4 k on of the
  -- full row as the k-th status of the row, then the handler returns updates of the applications of exactly
  -- those of the 64 places of the row whose status is from 1 to 5 and whose index is the id of an
  -- application, each to the status of its place.
  pub recipient_status_updated_iff :
      (event : AnyEvent Params) (round : Round Json) (address : String) (s t : S)
      (find : String → Option (Application Json))
      → viem.get_address event.src_address ≡ ok address
      → round_repository.get_round_by_strategy_address_or_throw chain_id address s ≡ (ok round, t)
      → ((id : String) (u : S)
          → application_repository.get_application_by_id id chain_id round.id u ≡ (ok (find id), u))
      → ((k : ℕ)
          → k < 64
          → status_in_row event.params.row_index event.params.full_row
              (event.params.row_index * 64 + k)
            ≡ event.params.full_row / 16 ^ k % 16)
      → (changes : List (Changeset (rows Json))) × (recipient_status_updated services event s
          ≡ (ok changes, t))
        × ((change : Changeset (rows Json))
            → Listed change changes ↔ (
                (k : ℕ) × (application : Application Json) × (k < 64)
                × (find (to_string (event.params.row_index * 64 + k)) ≡ some application)
                × (1 ≤ event.params.full_row / 16 ^ k % 16)
                × (event.params.full_row / 16 ^ k % 16 ≤ 5)
                × (change
                    ≡ application_changeset (
                        update_application chain_id round.id application.id (
                          status_update (
                            create_status_update application
                              (status_of (event.params.full_row / 16 ^ k % 16))
                              event.block_number
                              event.block_timestamp))))))
  unfolding recipient_status_updated get_applications_to_update
  recipient_status_updated_iff event round address s t find checks finds reads bitmap =
      let (found, e, from) =
        applications_from_lem services event.params.row_index event.params.full_row round.id find
          reads items_per_row (event.params.row_index * items_per_row) t in
      (
        map (status_change services event round.id) found,
        rw (checks, finds, e) refl,
        λ change. (
          λ l.
              let (p, j, same) = of_Listed-map (status_change services event round.id) found l in
              let (k, below, (known, status, low, high)) = (from p).0 j in
              let bits : p.1 ≡ event.params.full_row / 16 ^ k % 16 = status ∙ bitmap k below in
              (
                k,
                p.0,
                below,
                known,
                rw (← bits) low,
                rw (← bits) high,
                subst (λ (n : ℕ). change ≡ status_change services event round.id (p.0, n)) bits
                    (sym same),
              ),
          λ (k, application, below, known, low, high, same).
              subst
                (λ (c : Changeset (rows Json)).
                  Listed c (map (status_change services event round.id) found))
                (sym same)
                (Listed-map (status_change services event round.id) (
                  (from (application, event.params.full_row / 16 ^ k % 16)).1
                    (k, below, (known, sym (bitmap k below), low, high)))),
        ),
      )
