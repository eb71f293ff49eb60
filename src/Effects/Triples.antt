-- ===== src/Effects/Triples.antt =====
-- What an action keeps and what it returns, as rules for actions put one after the other.
use grants_stack_indexer_v.Prelude.{Bool, true, false, ◌≡◌, refl, ap, if◌then◌else◌}
use grants_stack_indexer_v.Effects.{
  Error, Outcome, ok, err, Action, pure, throw, continue_with, ◌>>=◌,
}

abbrev pub Returns {κ μ} : {A : Type κ} → (A → Type μ) → Outcome A → Type μ
Returns Q (ok a) = Q a
Returns Q (err e) = Unit

-- The action keeps `I`, and what it returns satisfies `Q`.
pub record Sound {ℓ κ μ ν} {S : Type ℓ} {A : Type κ} (I : S → Type μ) (Q : A → Type ν)
    (m : Action S A) : Type (ℓ ⊔ μ ⊔ ν) where
  pub holds : (s : S) → I s → I (m s).1 × Returns Q (m s).0

abbrev pub Any {κ} : {A : Type κ} → A → Type 0
Any _ = Unit

-- The action keeps `I`, whatever it returns.
abbrev pub Keeps {ℓ κ μ} : {S : Type ℓ} {A : Type κ} → (S → Type μ) → Action S A → Type (ℓ ⊔ μ)
Keeps I m = Sound I Any m

module _ {ℓ κ μ ν} {S : Type ℓ} {A : Type κ} {I : S → Type μ} {Q : A → Type ν} where
  pub pure-Sound : {a : A} → Q a → Sound I Q (pure a)
  pure-Sound q = record { holds = λ s i. (i, q) }

  pub throw-Sound : {e : Error} → Sound I Q (throw e)
  throw-Sound = record { holds = λ s i. (i, tt) }

  pub if-Sound :
      (b : Bool) {m n : Action S A} → Sound I Q m → Sound I Q n → Sound I Q (if b then m else n)
  if-Sound true p q = p
  if-Sound false p q = q

  pub lift-Sound : {o : Outcome A} → Returns Q o → Sound I Q (λ s. (o, s))
  lift-Sound r = record { holds = λ s i. (i, r) }

module _ {ℓ κ μ} {S : Type ℓ} {A : Type κ} {I : S → Type μ} where
  pub lift-Keeps : (o : Outcome A) → Keeps I (λ s. (o, s))
  lift-Keeps (ok a) = record { holds = λ s i. (i, tt) }
  lift-Keeps (err e) = record { holds = λ s i. (i, tt) }

abbrev pub Anywhere {ℓ} : {S : Type ℓ} → S → Type 0
Anywhere _ = Unit

-- an action of which nothing is known
module _ {ℓ κ μ} {S : Type ℓ} {A : Type κ} {Q : A → Type μ} where
  pub any-Sound : (m : Action S A) → ((a : A) → Q a) → Sound Anywhere Q m
  any-Sound m q = record { holds = λ s i. by_outcome (m s) }
    where
      by_outcome : (o : Outcome A × S) → Unit {0} × Returns Q o.0
      by_outcome (ok a, t) = (tt, q a)
      by_outcome (err e, t) = (tt, tt)

pub ends-Keeps {ℓ κ} : {S : Type ℓ} {A : Type κ} (m : Action S A) → Keeps Anywhere m
ends-Keeps m = any-Sound m (λ a. tt)

module _ {ℓ κ ξ μ ν υ} {S : Type ℓ} {A : Type κ} {B : Type ξ} {I : S → Type μ} {R : A → Type υ}
    {Q : B → Type ν} {m : Action S A} {k : A → Action S B} where
  pub bind-Sound : Sound I R m → ((a : A) → R a → Sound I Q (k a)) → Sound I Q (m >>= k)
  bind-Sound p q = record { holds = λ s i. by_outcome (m s) (p.holds s i) }
    where
      by_outcome :
          (o : Outcome A × S)
          → I o.1 × Returns R o.0
          → I (continue_with k o).1 × Returns Q (continue_with k o).0
      by_outcome (ok a, t) (j, r) = (q a r).holds t j
      by_outcome (err e, t) (j, r) = (j, tt)

module _ {ℓ κ ξ μ ν} {S : Type ℓ} {A : Type κ} {B : Type ξ} {I : S → Type μ} {Q : B → Type ν}
    {m : Action S A} {k : A → Action S B} where
  -- where nothing is asked of what the first action returns
  pub then-Sound : Keeps I m → ((a : A) → Sound I Q (k a)) → Sound I Q (m >>= k)
  then-Sound p q = bind-Sound p (λ a _. q a)

-- What the first action returned, when both did.
module _ {ℓ κ ξ} {S : Type ℓ} {A : Type κ} {B : Type ξ} (m : Action S A) (k : A → Action S B) where
  pub bind-eq-ok :
      {s t : S} {b : B}
      → (m >>= k) s ≡ (ok b, t)
      → (a : A) × (u : S) × (m s ≡ (ok a, u)) × (k a u ≡ (ok b, t))
  bind-eq-ok {s} {t} {b} h = by_outcome (m s) refl h
    where
      by_outcome :
          (o : Outcome A × S)
          → m s ≡ o
          → continue_with k o ≡ (ok b, t)
          → (a : A) × (u : S) × (m s ≡ (ok a, u)) × (k a u ≡ (ok b, t))
      by_outcome (ok a, u) e h = (a, u, e, h)
      by_outcome (err e, u) _ h = cc (ap (λ r. r.0) h)
