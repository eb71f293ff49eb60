-- ===== src/Prelude/Listed.antt =====
-- Where an item stands in a list, as data.
use mathlib.Core.Path.{◌≡◌, refl, sym, subst}
use mathlib.Core.Logic.{◌⊎◌, inl, inr}
use mathlib.Core.List.{List, [], ◌∷◌, ◌++◌, map}

pub data Listed {ℓ} {A : Type ℓ} (a : A) : List A → Type ℓ where
  here : {xs : List A} → Listed a (a ∷ xs)
  there : {x : A} {xs : List A} → Listed a xs → Listed a (x ∷ xs)

module _ {ℓ} {A : Type ℓ} {a : A} where
  pub Listed-left : {xs : List A} (ys : List A) → Listed a xs → Listed a (xs ++ ys)
  Listed-left ys here = here
  Listed-left ys (there l) = there (Listed-left ys l)

  pub Listed-right : (xs : List A) {ys : List A} → Listed a ys → Listed a (xs ++ ys)
  Listed-right [] l = l
  Listed-right (x ∷ xs) l = there (Listed-right xs l)

  pub Listed-append : (xs : List A) {ys : List A} → Listed a (xs ++ ys) → Listed a xs ⊎ Listed a ys
  Listed-append [] l = inr l
  Listed-append (x ∷ xs) here = inl here
  Listed-append (x ∷ xs) (there l) = elim (Listed-append xs l) [
    | inl k ↦ inl (there k)
    | inr k ↦ inr k
  ]

  pub Listed-cons : {x : A} {xs : List A} → Listed a (x ∷ xs) → (x ≡ a) ⊎ Listed a xs
  Listed-cons here = inl refl
  Listed-cons (there l) = inr l

  pub Listed-of_eq : {x : A} (xs : List A) → x ≡ a → Listed a (x ∷ xs)
  Listed-of_eq xs e = subst (λ y. Listed a (y ∷ xs)) (sym e) here

module _ {ℓ κ} {A : Type ℓ} {B : Type κ} (f : A → B) where
  pub Listed-map : {a : A} {xs : List A} → Listed a xs → Listed (f a) (map f xs)
  Listed-map here = here
  Listed-map (there l) = there (Listed-map l)

  pub of_Listed-map :
      {b : B} (xs : List A) → Listed b (map f xs) → (a : A) × (Listed a xs) × (f a ≡ b)
  of_Listed-map [] l = elim l [ ]
  of_Listed-map (x ∷ xs) l = elim (Listed-cons l) [
    | inl e ↦ (x, here, e)
    | inr k ↦ let (a, j, e) = of_Listed-map xs k in (a, there j, e)
  ]
