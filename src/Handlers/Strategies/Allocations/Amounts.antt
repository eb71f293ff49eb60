-- ===== src/Handlers/Strategies/Allocations/Amounts.antt =====
-- The amounts of a donation or a payout, and those that its round and application are incremented by.
use grants_stack_indexer_v.Prelude.{
  ℕ, ◌≡◌, refl, String, none, some, List, [], ◌∷◌, ltb, ltb→lt, inl, inr, Bool-cases, arith,
}
use grants_stack_indexer_v.Effects.Triples.{
  Anywhere, any-Sound, ends-Keeps, Returns, Sound, pure-Sound, lift-Keeps, bind-Sound, then-Sound,
}
use grants_stack_indexer_v.Changesets.{
  Changeset, round_changeset, application_changeset, donation_changeset, insert_donation,
  insert_application_payout, increment_round_donation_stats, increment_round_total_distributed,
  increment_application_donation_stats,
}
use grants_stack_indexer_v.Events.{AnyEvent}
use grants_stack_indexer_v.Handlers.Rows.{Donation, ApplicationPayout, rows}
use grants_stack_indexer_v.Handlers.Params.{Params}
use grants_stack_indexer_v.Handlers.Services.{Services, Token}
use grants_stack_indexer_v.Handlers.Helpers.{
  get_donation_id, get_token_or_throw, get_token_amount_in_usd,
}
use grants_stack_indexer_v.Handlers.Strategies.Common.{parsed_or_throw}
use grants_stack_indexer_v.Handlers.Strategies.Allocations.{
  allocated, amounts_of, payout_amounts, allocated_with_token, direct_allocated,
}

module _ {ℓ} {Json : Type 0} {S P B : Type ℓ} (services : Services Json S P B)
    (event : AnyEvent Params) where
  open services use {
    chain_id, viem, schemas, numbers, pricing_provider, round_repository, project_repository,
    application_repository,
  }

  -- What is written down once is what is added up, at the round and at the application.
  pub data Booked : List (Changeset (rows Json)) → Type 0 where
    donated :
        (donation : Donation) (application_id : String)
        → donation.id ≡ get_donation_id viem event.block_number event.log_index
        → donation.amount ≡ event.params.amount
        → donation.application_id ≡ some application_id
        → Booked (
            donation_changeset (insert_donation donation)
            ∷ round_changeset
                (increment_round_donation_stats chain_id donation.round_id donation.amount_in_usd)
            ∷ application_changeset (
                increment_application_donation_stats chain_id donation.round_id application_id
                  donation.amount_in_usd)
            ∷ [])
    donated_directly :
        (donation : Donation)
        → donation.id ≡ get_donation_id viem event.block_number event.log_index
        → donation.amount ≡ event.params.amount
        → donation.application_id ≡ none
        → Booked (
            donation_changeset (insert_donation donation)
            ∷ round_changeset
                (increment_round_donation_stats chain_id donation.round_id donation.amount_in_usd)
            ∷ [])
    paid :
        (payout : ApplicationPayout)
        → payout.amount ≡ event.params.amount
        → (event.params.amount ≡ 0
            → (payout.amount_in_usd ≡ "0") × (payout.amount_in_round_match_token ≡ 0))
        → Booked (
            insert_application_payout payout
            ∷ round_changeset (
                increment_round_total_distributed chain_id payout.round_id
                  payout.amount_in_round_match_token)
            ∷ [])

  allocated-Sound : Sound Anywhere Booked (allocated services event)
  unfolding allocated
  allocated-Sound = then-Sound (lift-Keeps (viem.get_address event.src_address)) (λ address.
      then-Sound (ends-Keeps (round_repository.get_round_by_strategy_address_or_throw _ _))
        (λ round.
          then-Sound (lift-Keeps (viem.get_address event.params.recipient_id)) (λ recipient_id.
            then-Sound
              (ends-Keeps (application_repository.get_application_by_anchor_address_or_throw _ _ _))
              (λ application.
                then-Sound (lift-Keeps (get_token_or_throw services event.params.token)) (λ token.
                  then-Sound (lift-Keeps (get_token_or_throw services round.match_token_address))
                    (λ match_token.
                      then-Sound
                        (ends-Keeps (
                          amounts_of services token match_token event.params.amount
                            event.block_timestamp))
                        (λ amounts.
                          then-Sound
                            (lift-Keeps (
                              parsed_or_throw services
                                (schemas.application_metadata application.metadata)))
                            (λ recipient.
                              then-Sound (lift-Keeps (viem.get_address event.params.origin))
                                (λ donor.
                                  then-Sound (lift-Keeps (viem.get_address recipient))
                                    (λ recipient_address.
                                      pure-Sound (donated _ application.id refl refl refl)))))))))))

  direct_allocated-Sound : Sound Anywhere Booked (direct_allocated services event)
  unfolding direct_allocated
  direct_allocated-Sound = then-Sound (lift-Keeps (viem.get_address event.src_address)) (λ address.
      then-Sound (ends-Keeps (round_repository.get_round_by_strategy_address_or_throw _ _))
        (λ round.
          then-Sound (ends-Keeps (project_repository.get_project_by_id_or_throw _ _)) (λ project.
            then-Sound (lift-Keeps (get_token_or_throw services event.params.token)) (λ token.
              then-Sound (lift-Keeps (viem.get_address event.params.sender)) (λ sender.
                then-Sound
                  (ends-Keeps (
                    get_token_amount_in_usd numbers pricing_provider token event.params.amount
                      event.block_timestamp none))
                  (λ price.
                    then-Sound (lift-Keeps (viem.get_address event.params.profile_owner))
                      (λ recipient_address. pure-Sound (donated_directly _ refl refl refl))))))))

  -- nothing is worth nothing
  abbrev OfNothing : String × ℕ → Type 0
  OfNothing amounts = event.params.amount ≡ 0 → (amounts.0 ≡ "0") × (amounts.1 ≡ 0)

  payout_amounts-Sound :
      (token match_token : Token)
      → Sound Anywhere OfNothing
          (payout_amounts services token match_token event.params.amount event.block_timestamp)
  unfolding payout_amounts
  payout_amounts-Sound token match_token = elim (Bool-cases (ltb 0 event.params.amount)) [
    | inl positive ↦ rw positive (
        any-Sound (amounts_of services token match_token event.params.amount event.block_timestamp)
          (λ amounts zero. absurd (omega (arith, ltb→lt 0 event.params.amount positive, zero))))
    | inr nothing ↦ rw nothing (pure-Sound (λ zero. (refl, refl)))
  ]

  allocated_with_token-Sound : Sound Anywhere Booked (allocated_with_token services event)
  unfolding allocated_with_token
  allocated_with_token-Sound =
      then-Sound (lift-Keeps (viem.get_address event.src_address)) (λ address.
        then-Sound (ends-Keeps (round_repository.get_round_by_strategy_address_or_throw _ _))
          (λ round.
            then-Sound (lift-Keeps (viem.get_address event.params.recipient_id)) (λ recipient_id.
              then-Sound (lift-Keeps (viem.get_address event.params.token)) (λ token_address.
                then-Sound
                  (ends-Keeps
                    (application_repository.get_application_by_anchor_address_or_throw _ _ _))
                  (λ application.
                    then-Sound (lift-Keeps (get_token_or_throw services token_address)) (λ token.
                      then-Sound
                        (lift-Keeps (get_token_or_throw services round.match_token_address))
                        (λ match_token.
                          bind-Sound (payout_amounts-Sound token match_token) (λ amounts of_nothing.
                            then-Sound (lift-Keeps (viem.get_address event.params.sender))
                              (λ sender. pure-Sound (paid _ refl of_nothing))))))))))

  -- In every world the three handlers of allocations return, if they do, one donation or payout of the
  -- amount of the event, with the id of the event, and the increments of its round and application by the
  -- very amount that it has itself; a payout of nothing is worth nothing in both currencies.
  pub allocations-Booked :
      (s : S)
      → Returns Booked (allocated services event s).0
        × Returns Booked (direct_allocated services event s).0
        × Returns Booked (allocated_with_token services event s).0
  allocations-Booked s = (
    (allocated-Sound.holds s tt).1,
    (direct_allocated-Sound.holds s tt).1,
    (allocated_with_token-Sound.holds s tt).1,
  )
