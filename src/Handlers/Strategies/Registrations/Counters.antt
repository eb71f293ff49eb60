-- ===== src/Handlers/Strategies/Registrations/Counters.antt =====
-- The ids that RegisteredWithSender gives to applications.
use grants_stack_indexer_v.Prelude.{ℕ, suc, ◌<◌, ◌≡◌, refl, ◌∙◌, ap, String, some, List, [], ◌∷◌}
use grants_stack_indexer_v.Prelude.Numerals.{to_string, big_int, big_int-to_string}
use grants_stack_indexer_v.Effects.{Outcome, ok, err}
use grants_stack_indexer_v.Effects.Triples.{
  Returns, Sound, Anywhere, ends-Keeps, pure-Sound, lift-Sound, lift-Keeps, bind-Sound, then-Sound,
}
use grants_stack_indexer_v.Changesets.{Changeset, application_changeset, insert_application}
use grants_stack_indexer_v.Events.{AnyEvent}
use grants_stack_indexer_v.Handlers.Rows.{rows, Application}
use grants_stack_indexer_v.Handlers.Params.{Params}
use grants_stack_indexer_v.Handlers.Services.{Services}
use grants_stack_indexer_v.Handlers.Helpers.{
  DecodedApplication, decode_dvmd_application_data, decode_dvmd_extended_application_data,
  with_counter,
}
use grants_stack_indexer_v.Handlers.Strategies.Registrations.{
  id_of_counter, registered, registered_by, new_application, decode_with_counter, counted,
}

id_of_counter-to_string : (n : ℕ) → id_of_counter (to_string (suc n)) ≡ to_string n
unfolding id_of_counter
id_of_counter-to_string n = rw (big_int-to_string) refl

module _ {ℓ} {Json : Type 0} {S P B : Type ℓ} (services : Services Json S P B)
    (event : AnyEvent Params) where
  open services use {viem, project_repository, round_repository}

  -- one application is inserted, and its id reads as the number
  abbrev pub InsertsNumber : ℕ → List (Changeset (rows Json)) → Type 0
  InsertsNumber n changes =
      (application : Application Json) × (changes
        ≡ application_changeset (insert_application application) ∷ [])
      × (big_int application.id ≡ some n)

  decoded :
      (bytes : String) (n : ℕ)
      → viem.decode_dvmd_event_data event.params.encoded_data ≡ ok (bytes, suc n)
      → Returns (λ values. big_int values.0 ≡ some n) (decode_with_counter services event)
  unfolding decode_dvmd_extended_application_data
  decoded bytes n reads =
      rw (Returns, reads) (by_application (decode_dvmd_application_data viem bytes))
    where
      by_application :
          (o : Outcome DecodedApplication)
          → Returns (λ values. big_int values.0 ≡ some n) (counted (with_counter (suc n) o))
      by_application (err e) = tt
      by_application (ok application) = ap big_int (id_of_counter-to_string n) ∙ big_int-to_string n

  -- An application that is registered with the counter n + 1, where n is less than 2^53, is inserted, alone,
  -- with an id that reads as the number n, whenever the handler returns.
  pub registered-id :
      (bytes : String) (n : ℕ)
      → viem.decode_dvmd_event_data event.params.encoded_data ≡ ok (bytes, suc n)
      → n < 9007199254740992
      → (s : S) → Returns (InsertsNumber n) (registered services event s).0
  unfolding registered registered_by
  registered-id bytes n reads exact s = (by_steps.holds s tt).1
    where
      by_steps : Sound Anywhere (InsertsNumber n) (registered services event)
      by_steps = then-Sound (lift-Keeps (viem.get_address event.params.recipient_id)) (λ anchor.
          then-Sound (ends-Keeps (project_repository.get_project_by_anchor_or_throw _ _))
            (λ project.
              then-Sound (lift-Keeps (viem.get_address event.src_address)) (λ strategy_address.
                then-Sound
                  (ends-Keeps (round_repository.get_round_by_strategy_address_or_throw _ _))
                  (λ round.
                    bind-Sound {R = λ values. big_int values.0 ≡ some n}
                      (lift-Sound {o = decode_with_counter services event} (decoded bytes n reads))
                      (λ (id, pointer) same.
                        then-Sound (ends-Keeps (services.get_metadata pointer)) (λ metadata.
                          then-Sound (lift-Keeps (viem.get_address event.params.sender)) (λ sender.
                            pure-Sound (
                              new_application services event id project round anchor pointer
                                  metadata sender,
                              refl,
                              same,
                            ))))))))
