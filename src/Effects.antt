-- ===== src/Effects.antt =====
-- What an async method can do: read and change the world, and return or throw. The classes of the
-- errors that the indexer tells apart (packages/*/src/exceptions) are the constructors of `Error`.
pub mod Keeps
pub mod Triples
use grants_stack_indexer_v.Prelude.{ℕ, String, Option, List}

pub data Error : Type 0 where
  -- `RetriableError` and its subclasses, with `metadata?.retryAfterInMs`
  retriable : Option ℕ → Error
  unsupported_strategy invalid_event unsupported_event : Error
  round_not_found round_not_found_for_id : Error
  no_close_price_found : Error
  -- with the types of the changesets that have no handler
  invalid_changeset : List String → Error
  -- any other instance of `Error`, with its message
  native_error : String → Error
  -- a thrown value that is no `Error`
  other_value : Error

pub data Outcome {ℓ} (A : Type ℓ) : Type ℓ where
  ok : A → Outcome A
  err : Error → Outcome A

-- The world that is left stands beside the outcome, also when a method throws.
abbrev pub Action {ℓ κ} : Type ℓ → Type κ → Type (ℓ ⊔ κ)
Action S A = S → Outcome A × S

module _ {ℓ κ} {S : Type ℓ} {A : Type κ} where
  abbrev pub pure : A → Action S A
  pure a s = (ok a, s)

  abbrev pub throw : Error → Action S A
  throw e s = (err e, s)

module _ {ℓ κ μ} {S : Type ℓ} {A : Type κ} {B : Type μ} where
  abbrev pub continue_with : (A → Action S B) → Outcome A × S → Outcome B × S
  continue_with f (ok a, s) = f a s
  continue_with f (err e, s) = (err e, s)

  infixl 5 ◌>>=◌
  abbrev pub ◌>>=◌ : Action S A → (A → Action S B) → Action S B
  ◌>>=◌ m f s = continue_with f (m s)

  infixl 5 ◌>>◌
  abbrev pub ◌>>◌ : Action S A → Action S B → Action S B
  m >> k = m >>= λ _. k
