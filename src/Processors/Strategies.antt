-- ===== src/Processors/Strategies.antt =====
-- mapping.ts and strategyHandler.factory.ts: the test for a handler and the choice of one agree.
use Prim.Native.Char.{Char, code}
use Prim.Native.String.{◌∷◌ as ◌∷ₛ◌, [] as empty_text}
use grants_stack_indexer_v.Prelude.{
  ℕ, ◌≡◌, refl, ◌∙◌, ap, ap₂, subst, String, true, false, Option, none, some, List, [], ◌∷◌, ◌==◌,
  Bool-cases, ◌⊎◌, inl, inr,
}
use grants_stack_indexer_v.Prelude.Maps.{number_keys, text_keys, map_get}
use grants_stack_indexer_v.Events.{AnyEvent, to_lower_case, small_letters, lower_char}
use grants_stack_indexer_v.Processors.{
  StrategyHandlerClass, strategy_id_to_handler, get_handler, exists_handler, create_handler,
  is_defined, process_strategy, Handler, text_or_empty,
}
use grants_stack_indexer_v.Effects.{unsupported_strategy, throw}
use grants_stack_indexer_v.Changesets.{Entities}

-- no small letter of the table is a capital one
abbrev Small : Char → Type 0
Small c = map_get (code c) small_letters ≡ none

data AllSmall : List (ℕ × Char) → Type 0 where
  no_letters : AllSmall []
  letter : {n : ℕ} {c : Char} {m : List (ℕ × Char)} → Small c → AllSmall m → AllSmall ((n, c) ∷ m)

same_letter : (c d : Char) → some c ≡ some d → c ≡ d
same_letter c d e = cc (e)

found-Small : (m : List (ℕ × Char)) (n : ℕ) (d : Char) → AllSmall m → map_get n m ≡ some d → Small d
unfolding map_get
found-Small [] n d h e = cc (e)
found-Small ((j, c) ∷ m) n d (letter small h) e = elim (Bool-cases (j == n)) [
  | inl same ↦ subst Small (same_letter c d (rw same at e)) small
  | inr other ↦ found-Small m n d h (rw other at e)
]

letters_small : AllSmall small_letters
unfolding map_get
letters_small = letter refl (
    letter refl (
      letter refl (
        letter refl (
          letter refl (
            letter refl (
              letter refl (
                letter refl (
                  letter refl (
                    letter refl (
                      letter refl (
                        letter refl (
                          letter refl (
                            letter refl (
                              letter refl (
                                letter refl (
                                  letter refl (
                                    letter refl (
                                      letter refl (
                                        letter refl (
                                          letter refl (
                                            letter refl (
                                              letter refl (
                                                letter refl (
                                                  letter refl
                                                    (letter refl no_letters)))))))))))))))))))))))))

lower_char_idem :
    (c : Char) (o : Option Char)
    → map_get (code c) small_letters ≡ o
    → lower_char (map_get (code (lower_char o c)) small_letters) (lower_char o c) ≡ lower_char o c
lower_char_idem c none e = rw (e) refl
lower_char_idem c (some d) e = rw (found-Small small_letters (code c) d letters_small e) refl

to_lower_case_idem : (s : String) → to_lower_case (to_lower_case s) ≡ to_lower_case s
unfolding to_lower_case
to_lower_case_idem empty_text = refl
to_lower_case_idem (c ∷ₛ s) =
    ap₂ (λ d t. d ∷ₛ t) (lower_char_idem c (map_get (code c) small_letters) refl)
      (to_lower_case_idem s)

-- The factory lowers an id twice, the test for a handler once; they find the same class.
create_handler-eq :
    (id : String) → create_handler id ≡ map_get (to_lower_case id) strategy_id_to_handler
unfolding create_handler get_handler
create_handler-eq id = ap (λ t. map_get t strategy_id_to_handler) (to_lower_case_idem id)

module _ {ℓ κ} {E : Entities} {P : Type ℓ} {S : Type κ}
    (h : StrategyHandlerClass → Handler E P S) where
  -- an event with the strategy's id goes to a handler, or is refused
  Chosen : AnyEvent P → String → Type κ
  Chosen event id =
      ((c : StrategyHandlerClass) × (exists_handler id ≡ true)
        × (process_strategy h event ≡ h c event))
      ⊎ ((exists_handler id ≡ false) × (process_strategy h event ≡ throw unsupported_strategy))

  by_class :
      (event : AnyEvent P) (id : String) (o : Option StrategyHandlerClass)
      → map_get (to_lower_case id) strategy_id_to_handler ≡ o
      → create_handler (text_or_empty event.strategy_id) ≡ o
      → Chosen event id
  unfolding exists_handler Chosen process_strategy
  by_class event id none e chosen = inr (ap is_defined e, rw (chosen, process_strategy) refl)
  by_class event id (some c) e chosen = inl (c, ap is_defined e, rw (chosen, process_strategy) refl)

  -- `existsHandler` tells exactly whether the strategy processor has a handler for an event with that
  -- strategy id, in whatever mix of small and capital letters: if so it gets the event, and else
  -- `UnsupportedStrategy` is thrown.
  pub process_strategy-exists_handler :
      (event : AnyEvent P) (id : String)
      → event.strategy_id ≡ some id
      → ((c : StrategyHandlerClass) × (exists_handler id ≡ true)
          × (process_strategy h event ≡ h c event))
        ⊎ ((exists_handler id ≡ false) × (process_strategy h event ≡ throw unsupported_strategy))
  unfolding Chosen
  process_strategy-exists_handler event id known =
      by_class event id (map_get (to_lower_case id) strategy_id_to_handler) refl
        (ap (λ o. create_handler (text_or_empty o)) known ∙ create_handler-eq id)
