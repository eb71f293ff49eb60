-- ===== src/Effects/Keeps.antt =====
-- Invariants of actions put one after the other.
use grants_stack_indexer_v.Prelude.{◌≡◌}
use grants_stack_indexer_v.Effects.{Outcome, ok, err, Action, continue_with, ◌>>=◌}

module _ {ℓ κ μ ν} {S : Type ℓ} {A : Type κ} {B : Type μ} (I : S → Type ν) (m : Action S A)
    (k : A → Action S B) where
  -- What both actions keep, the two together keep.
  pub bind_keeps :
      ((s : S) → I s → I (m s).1)
      → ((a : A) (s : S) → I s → I (k a s).1)
      → (s : S) → I s
      → I ((m >>= k) s).1
  bind_keeps m_keeps k_keeps s i = by_outcome (m s) (m_keeps s i)
    where
      by_outcome : (o : Outcome A × S) → I o.1 → I (continue_with k o).1
      by_outcome (ok a, t) j = k_keeps a t j
      by_outcome (err e, t) j = j

  -- What the second gives when it returns, the two together give.
  pub bind_gives {υ} :
      (Q : B → S → Type υ)
      → ((s : S) → I s → I (m s).1)
      → ((a : A) (s : S) (b : B) → I s → (k a s).0 ≡ ok b → Q b (k a s).1)
      → (s : S) (b : B) → I s
      → ((m >>= k) s).0 ≡ ok b
      → Q b ((m >>= k) s).1
  bind_gives Q m_keeps k_gives s b i = by_outcome (m s) (m_keeps s i)
    where
      by_outcome :
          (o : Outcome A × S) → I o.1 → (continue_with k o).0 ≡ ok b → Q b (continue_with k o).1
      by_outcome (ok a, t) j h = k_gives a t b j h
      by_outcome (err e, t) j h = cc (h)
