-- ===== src/IndexerClient/WholeBlocks.antt =====
-- `getEventsAfterBlockNumberAndLogIndex` where a part of a block is not allowed.
use grants_stack_indexer_v.Prelude.{
  ℕ, suc, ◌+◌, ◌≤◌, ◌<◌, ◌≡◌, refl, ap, ◌∙◌, subst, Bool, true, false, Option, none, some, List, [],
  ◌∷◌, ◌++◌, map, ltb, inl, inr, Bool-cases, arith, if◌then◌else◌,
}
use mathlib.Core.List.{append_assoc}
use grants_stack_indexer_v.Effects.{ok, Action}
use grants_stack_indexer_v.Events.{AnyEvent}
use grants_stack_indexer_v.IndexerClient.{
  Place, GraphQlClient, of_chain, after, in_milliseconds, last_block, count_of_block, before_block,
  default_limit, handled, get_total_events_in_block, without_partial_block, get_events_after,
}
use grants_stack_indexer_v.IndexerClient.Blocks.{
  take, take-append, events_after, Ascending, AllFrom, AllBefore, events_after-Ascending,
  Ascending-AllFrom, Ascending-left, AllFrom-append, AllFrom-left, AllBefore-left,
  count_of_block-append, count_of_block-events_after, before_block-append, last_block-bounds,
  none_of_block, last_block-map, count_of_block-map, before_block-map, last_block-same,
  before_block-AllFrom,
}

module _ {ℓ} {S P : Type ℓ} (place : Place) (stored : List (AnyEvent P)) (s : S) where
  -- the events before a block are returned, and those from it on are left for later
  abbrev pub Whole : Action S (List (AnyEvent P)) → Type ℓ
  Whole action =
      (result rest : List (AnyEvent P)) × (n : ℕ) × (action s
        ≡ (ok (map in_milliseconds result), s))
      × (events_after place stored ≡ result ++ rest)
      × AllBefore n result
      × AllFrom n rest

module _ {ℓ} {S P : Type ℓ} (client : GraphQlClient S P) (chain_id : ℕ) (place : Place)
    (stored : List (AnyEvent P)) (s : S)
    (counts : (n : ℕ)
      → client.count_in_block chain_id n s ≡ (ok (count_of_block n stored), s)) where
  get_total_events_in_block_lem :
      (n : ℕ) → get_total_events_in_block client chain_id n s ≡ (ok (count_of_block n stored), s)
  unfolding get_total_events_in_block handled
  get_total_events_in_block_lem n = rw (counts n) refl

  without_partial_block_lem :
      (e : AnyEvent P) (es : List (AnyEvent P)) (b : Bool)
      → ltb
          (count_of_block (last_block e.block_number es) (e ∷ es))
          (count_of_block (last_block e.block_number es) stored)
        ≡ b
      → without_partial_block client chain_id (map in_milliseconds (e ∷ es)) s ≡ (
        ok (
            map in_milliseconds
              (if b then before_block (last_block e.block_number es) (e ∷ es) else e ∷ es)),
        s,
      )
  unfolding without_partial_block
  without_partial_block_lem e es true h =
      rw
        (
          last_block-map e.block_number es,
          get_total_events_in_block_lem (last_block e.block_number es),
          count_of_block-map (last_block e.block_number es) (e ∷ es),
          h,
        )
        (ap (λ l. (ok l, s)) (before_block-map (last_block e.block_number es) (e ∷ es)))
  without_partial_block_lem e es false h =
      rw
        (
          last_block-map e.block_number es,
          get_total_events_in_block_lem (last_block e.block_number es),
          count_of_block-map (last_block e.block_number es) (e ∷ es),
          h,
        )
        refl

  -- all events of the block were fetched
  none_left :
      (n : ℕ) (fetched rest : List (AnyEvent P))
      → events_after place stored ≡ fetched ++ rest
      → ltb (count_of_block n fetched) (count_of_block n stored) ≡ false
      → count_of_block n rest ≤ 0
  none_left n fetched rest same all =
      let whole : count_of_block n (events_after place stored)
          ≡ count_of_block n fetched + count_of_block n rest =
        ap (count_of_block n) same ∙ count_of_block-append n fetched rest in
      let le = count_of_block-events_after n place stored in ground (arith, whole, le, all)

  without_partial_block-Whole :
      (fetched rest : List (AnyEvent P))
      → Ascending 0 stored
      → events_after place stored ≡ fetched ++ rest
      → Whole place stored s (without_partial_block client chain_id (map in_milliseconds fetched))
  unfolding without_partial_block
  without_partial_block-Whole [] rest ascending same = (
    [],
    rest,
    0,
    refl,
    same,
    tt,
    subst (λ (l : List (AnyEvent P)). AllFrom 0 l) same
        (Ascending-AllFrom 0 0 (events_after place stored) (omega arith)
          (events_after-Ascending place 0 stored ascending)),
  )
  without_partial_block-Whole (e ∷ es) rest ascending same =
      let last = last_block e.block_number es in
      let in_order : Ascending 0 (e ∷ es ++ rest) =
        subst (λ (l : List (AnyEvent P)). Ascending 0 l) same
          (events_after-Ascending place 0 stored ascending) in
      let (before, from, le) = last_block-bounds 0 es rest e in_order in
      elim (Bool-cases (ltb (count_of_block last (e ∷ es)) (count_of_block last stored))) [
        | inl partial ↦
            let (left_out, split, earlier, later) =
              before_block-append last 0 (e ∷ es) (Ascending-left 0 (e ∷ es) rest in_order) in
            (
              before_block last (e ∷ es),
              left_out ++ rest,
              last,
              without_partial_block_lem e es true partial,
              same
                  ∙ ap (λ l. l ++ rest) split
                  ∙ append_assoc (before_block last (e ∷ es)) left_out rest,
              earlier,
              AllFrom-append last left_out rest later from,
            )
        | inr all ↦ (
          e ∷ es,
          rest,
          suc last,
          without_partial_block_lem e es false all,
          same,
          before,
          none_of_block last rest (none_left last (e ∷ es) rest same all) from,
        )
      ]

  of_one_block :
      (n : ℕ) (fetched rest : List (AnyEvent P))
      → events_after place stored ≡ fetched ++ rest
      → AllFrom n (events_after place stored)
      → AllBefore (suc n) (events_after place stored)
      → count_of_block n (events_after place stored) < count_of_block n stored
      → without_partial_block client chain_id (map in_milliseconds fetched) s ≡ (ok [], s)
  unfolding without_partial_block
  of_one_block n [] rest same from before more = refl
  of_one_block n (e ∷ es) rest same from before more =
      let from_here : AllFrom n (e ∷ es) =
        AllFrom-left n (e ∷ es) rest (subst (λ (l : List (AnyEvent P)). AllFrom n l) same from) in
      let before_next : AllBefore (suc n) (e ∷ es) =
        AllBefore-left (suc n) (e ∷ es) rest
          (subst (λ (l : List (AnyEvent P)). AllBefore (suc n) l) same before) in
      let last : last_block e.block_number es ≡ n =
        last_block-same n n (e ∷ es) refl from_here before_next in
      let fewer : ltb (count_of_block n (e ∷ es)) (count_of_block n stored) ≡ true =
        ground (arith, more, ap (count_of_block n) same ∙ count_of_block-append n (e ∷ es) rest) in
      let nothing : before_block (last_block e.block_number es) (e ∷ es) ≡ [] =
        rw last (before_block-AllFrom n (e ∷ es) from_here) in
      without_partial_block_lem e es true (rw last fewer)
      ∙ ap (λ (l : List (AnyEvent P)). (ok (map in_milliseconds l), s)) nothing

module _ {ℓ} {S P : Type ℓ} (client : GraphQlClient S P) where
  -- If the events that are stored are in the order of their blocks, the client answers with the first of
  -- those after a place, up to the limit, and counts the events of a block among those stored, then without
  -- a partial last block getEventsAfterBlockNumberAndLogIndex returns exactly the events after the place
  -- whose block is before some number, with their times in milliseconds: no block is cut in two.
  pub get_events_after-Whole :
      (chain_id : ℕ) (place : Place) (limit : Option ℕ) (stored : List (AnyEvent P)) (s : S)
      → ((n : ℕ) → client.count_in_block chain_id n s ≡ (ok (count_of_block n stored), s))
      → Ascending 0 stored
      → client.raw_events
          (record {
            conditions = of_chain chain_id ∷ after place ∷ [];
            event_name = none;
            limit = default_limit limit;
          })
          s
        ≡ (ok (some (take (default_limit limit) (events_after place stored))), s)
      → Whole place stored s (get_events_after client chain_id place limit false)
  unfolding get_events_after handled
  get_events_after-Whole chain_id place limit stored s counts ascending reads =
      let fetched = take (default_limit limit) (events_after place stored) in
      let (rest, same) = take-append (default_limit limit) (events_after place stored) in
      let (result, left, n, e, split, before, from) =
        without_partial_block-Whole client chain_id place stored s counts fetched rest ascending
          same in
      (result, left, n, rw (reads, e) refl, split, before, from)

  -- If the events after a place all are of one block, of which more events are stored than these, those up to
  -- the place among them, then without a partial last block the client, which answers as documented, returns
  -- nothing, though events are left and whatever the limit is.
  pub get_events_after_stuck :
      (chain_id : ℕ) (place : Place) (limit : Option ℕ) (stored : List (AnyEvent P)) (s : S) (n : ℕ)
      → ((n : ℕ) → client.count_in_block chain_id n s ≡ (ok (count_of_block n stored), s))
      → AllFrom n (events_after place stored)
      → AllBefore (suc n) (events_after place stored)
      → count_of_block n (events_after place stored) < count_of_block n stored
      → client.raw_events
          (record {
            conditions = of_chain chain_id ∷ after place ∷ [];
            event_name = none;
            limit = default_limit limit;
          })
          s
        ≡ (ok (some (take (default_limit limit) (events_after place stored))), s)
      → get_events_after client chain_id place limit false s ≡ (ok [], s)
  unfolding get_events_after handled
  get_events_after_stuck chain_id place limit stored s n counts from before more reads =
      let (rest, same) = take-append (default_limit limit) (events_after place stored) in
      rw
        (
          reads,
          of_one_block client chain_id place stored s counts n
              (take (default_limit limit) (events_after place stored)) rest same from before more,
        )
        refl
