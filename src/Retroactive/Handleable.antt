-- ===== src/Retroactive/Handleable.antt =====
-- `findNewHandleableStrategies` of retroactiveProcessor.ts: which addresses are found for an id.
use grants_stack_indexer_v.Prelude.{
  ◌≡◌, refl, sym, subst, String, Bool, true, false, ◌||◌, Bool-cases, ◌⊎◌, ◌↔◌, inl, inr, some,
  List, [], ◌∷◌, ◌++◌, if◌then◌else◌, right_true,
}
use grants_stack_indexer_v.Prelude.Maps.{text_keys, map_get, map_set, map_get-set}
use grants_stack_indexer_v.Registries.Strategies.{Strategy}
use grants_stack_indexer_v.Events.{equals}
use grants_stack_indexer_v.Processors.{exists_handler}
use grants_stack_indexer_v.Retroactive.{
  RetroactiveDependencies, set_has, set_add, or_empty_set, add_handleable,
  find_new_handleable_strategies,
}
use grants_stack_indexer_v.Changesets.{Entities}
use grants_stack_indexer_v.Effects.{ok}

-- a strategy of the list has the id, which has a handler, and the address
pub data Listed (id address : String) : List Strategy → Type 0 where
  this_one :
      {s : Strategy} {strategies : List Strategy}
      → exists_handler id ≡ true
      → s.id ≡ id
      → s.address ≡ address
      → Listed id address (s ∷ strategies)
  later_one :
      {s : Strategy} {strategies : List Strategy}
      → Listed id address strategies
      → Listed id address (s ∷ strategies)

set_has-append :
    (a b : String) (set : List String) → set_has a (set ++ (b ∷ [])) ≡ (set_has a set || equals b a)
unfolding set_has
set_has-append a b [] = or_false (equals b a)
  where
    or_false : (x : Bool) → (x || false) ≡ x
    or_false true = refl
    or_false false = refl
set_has-append a b (c ∷ set) = rw (set_has-append a b set) (or_assoc (equals c a))
  where
    or_assoc :
        (x : Bool) → (x || (set_has a set || equals b a)) ≡ ((x || set_has a set) || equals b a)
    or_assoc true = refl
    or_assoc false = refl

either : (x y : Bool) → (x || y) ≡ true → (x ≡ true) ⊎ (y ≡ true)
either true y h = inl refl
either false y h = inr h

-- A set has, after an address is added, the address and what it had.
set_has-set_add :
    (a b : String) (set : List String)
    → (set_has a (set_add b set) ≡ true) ↔ ((set_has a set ≡ true) ⊎ (b ≡ a))
unfolding set_add
set_has-set_add a b set = elim (Bool-cases (set_has b set)) [
  | inl there ↦ rw (there) (
    λ h. inl h,
    λ h. elim h [ inl old ↦ old | inr same ↦ subst (λ c. set_has c set ≡ true) same there ],
  )
  | inr absent ↦
      rw (absent, set_has-append a b set)
        (
          λ h. elim (either _ _ h) [
            | inl old ↦ inl old
            | inr same ↦ inr ((text_keys.same_iff b a).0 same)
          ],
          λ h. elim h [
            | inl old ↦ rw (old) refl
            | inr same ↦ right_true _ _ ((text_keys.same_iff b a).1 same)
          ],
        )
]

-- the address is found for the id
abbrev pub Found : String → String → List (String × List String) → Type 0
Found id address found = set_has address (or_empty_set (map_get id found)) ≡ true

abbrev Matches : String → String → Strategy → Type 0
Matches id address s = (exists_handler id ≡ true) × (s.id ≡ id) × (s.address ≡ address)

put_iff :
    (id address : String) (s : Strategy) (found : List (String × List String))
    → exists_handler s.id ≡ true
    → Found id address (map_set s.id (set_add s.address (or_empty_set (map_get s.id found))) found)
      ↔ (Found id address found ⊎ Matches id address s)
put_iff id address s found handled =
    rw (map_get-set s.id id (set_add s.address (or_empty_set (map_get s.id found))) found)
      (elim (Bool-cases (text_keys.same s.id id)) [
        | inl same ↦ rw (same) (at_id ((text_keys.same_iff s.id id).0 same))
        | inr other ↦ rw (other) (
          λ h. inl h,
          λ h. elim h [
            | inl old ↦ old
            | inr (_, same, _) ↦ cc (other, (text_keys.same_iff s.id id).1 same)
          ],
        )
      ])
  where
    at_id :
        s.id ≡ id
        → (set_has address (set_add s.address (or_empty_set (map_get s.id found))) ≡ true)
          ↔ (Found id address found ⊎ Matches id address s)
    at_id e = (
      λ h. elim ((set_has-set_add address s.address _).0 h) [
        | inl old ↦ inl (subst (λ k. Found k address found) e old)
        | inr same ↦ inr (subst (λ k. exists_handler k ≡ true) e handled, e, same)
      ],
      λ h. (set_has-set_add address s.address _).1 (elim h [
        | inl old ↦ inl (subst (λ k. Found k address found) (sym e) old)
        | inr (_, _, same) ↦ inr same
      ]),
    )

one_iff :
    (id address : String) (s : Strategy) (found : List (String × List String))
    → Found id address (
        if exists_handler s.id
        then map_set s.id (set_add s.address (or_empty_set (map_get s.id found))) found
        else found)
      ↔ (Found id address found ⊎ Matches id address s)
one_iff id address s found = elim (Bool-cases (exists_handler s.id)) [
  | inl handled ↦ rw (handled) (put_iff id address s found handled)
  | inr unhandled ↦ rw (unhandled) (
    λ h. inl h,
    λ h. elim h [
      | inl old ↦ old
      | inr (handled, same, _) ↦
          cc (unhandled, subst (λ k. exists_handler k ≡ true) (sym same) handled)
    ],
  )
]

-- The strategies found are exactly those of the list whose id has a handler, by id and address, beside what
-- the map held.
pub add_handleable_iff :
    (id address : String) (strategies : List Strategy) (found : List (String × List String))
    → Found id address (add_handleable found strategies)
      ↔ (Found id address found ⊎ Listed id address strategies)
unfolding add_handleable
add_handleable_iff id address [] found =
    (λ h. inl h, λ h. elim h [ inl old ↦ old | inr found_none ↦ elim found_none [ ] ])
add_handleable_iff id address (s ∷ strategies) found =
    let (to_step, from_step) = one_iff id address s found in
    let (to_rest, from_rest) = add_handleable_iff id address strategies _ in
    (
      λ h. elim (to_rest h) [
        | inl here ↦ elim (to_step here) [
          | inl old ↦ inl old
          | inr (handled, same_id, same_address) ↦ inr (this_one handled same_id same_address)
        ]
        | inr later ↦ inr (later_one later)
      ],
      λ h. elim h [
        | inl old ↦ from_rest (inl (from_step (inl old)))
        | inr handleable ↦ elim handleable [
          | this_one handled same_id same_address ↦
              from_rest (inl (from_step (inr (handled, same_id, same_address))))
          | later_one later ↦ from_rest (inr later)
        ]
      ],
    )

module _ {ℓ} {E : Entities} {P S Tx : Type ℓ} (d : RetroactiveDependencies E P S Tx) where
  -- If the registry returns the strategies that are not handled, `findNewHandleableStrategies` returns for
  -- each id the addresses of those among them whose id has a handler, and no others.
  pub find_new_handleable_iff :
      (strategies : List Strategy) (s t : S)
      → d.strategy_registry.get_strategies
          (record { handled = some false; chain_id = some d.chain_id })
          s
        ≡ (ok strategies, t)
      → (found : List (String × List String)) × (find_new_handleable_strategies d s ≡ (ok found, t))
        × ((id address : String) → Found id address found ↔ Listed id address strategies)
  unfolding find_new_handleable_strategies set_has map_get
  find_new_handleable_iff strategies s t read = (
    add_handleable [] strategies,
    rw (read) refl,
    λ id address.
        let (to, from) = add_handleable_iff id address strategies [] in
        (
          λ h. elim (to h) [ inl old ↦ nothing_found id address old | inr handleable ↦ handleable ],
          λ h. from (inr h),
        ),
  )
    where
      nothing_found : (id address : String) → Found id address [] → Listed id address strategies
      nothing_found id address old = cc (old)
