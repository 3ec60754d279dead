-- ===== src/Engine/Queue/Laws.antt =====
-- What the queue of src/dm_afs_engine.c does, read as a list of requests in the order of their blocks.
use artifice.Base.{
  ℕ, zero, suc, ◌*◌, ◌/◌, ◌%◌, ◌^◌, ◌≡◌, ◌<◌, refl, ap, arith, true, false, if◌then◌else◌, ltb,
  ◌==◌, ◌∷◌, ◌++◌, none, some, Bool-cases, Option-cases, inl, inr, ◌⊎◌, ◌∙◌, sym, length,
  length-append, pending, done,
}
use artifice.Target.Request.{MapRequest, request_for}
use artifice.Engine.Queue.{
  Tree, empty, node, in_order, Rising, Balance, link_from, with_left, with_right, find_block,
  balanced, afs_eq_add, afs_eq_req_exist,
}
use artifice.Engine.Queue.Order.{
  lookup, put, Rising-split, lookup_left, lookup_right, lookup_middle, put_left, put_right,
  put-Rising, lookup-put,
}

-- The order of two blocks, with the tests of the loops.
Compared : ℕ → ℕ → Type 0
Compared a b =
    (a < b) × (ltb a b ≡ true)
    ⊎ ((b < a) × (ltb a b ≡ false) × (ltb b a ≡ true)
        ⊎ (a ≡ b) × (ltb a b ≡ false) × (ltb b a ≡ false))

compared : (a b : ℕ) → Compared a b
unfolding Compared
compared a b = elim (Bool-cases (ltb a b)) [
  | inl less ↦ inl (ground arith, less)
  | inr more ↦ elim (Bool-cases (ltb b a)) [
    | inl greater ↦ inr (inl (ground arith, more, greater))
    | inr same ↦ inr (inr (ground arith, more, same))
  ]
]

-- In a tree whose blocks rise the search finds what the list has.
pub find_block_lem :
    (b low high : ℕ) (t : Tree)
    → Rising low high (in_order t)
    → find_block b t ≡ lookup b (in_order t)
unfolding find_block in_order lookup Compared
find_block_lem b low high empty rise = refl
find_block_lem b low high (node left this right) rise =
    let (on_left, above, below, on_right) =
      Rising-split low high (in_order left) this (in_order right) rise in
    elim (compared b this.block) [
      | inl (less, t) ↦ rw t (
          find_block_lem b low this.block left on_left
          ∙ sym (lookup_left b (in_order left) this high (in_order right) less on_right))
      | inr (inl (more, f, t)) ↦ rw f (
          rw t (
            find_block_lem b (suc this.block) high right on_right
            ∙ sym (lookup_right low b (in_order left) this (in_order right) on_left more)))
      | inr (inr (same, f, g)) ↦
          rw f
            (rw g (rw same (sym (lookup_middle low (in_order left) this (in_order right) on_left))))
    ]

-- A request for a block that is not in the tree is linked in order.
link_from_absent :
    (fuel low high : ℕ) (e : MapRequest) (t : Tree)
    → Rising low high (in_order t)
    → lookup e.block (in_order t) ≡ none
    → length (in_order t) < fuel
    → (t' : Tree) × (link_from fuel e t ≡ done t') × (in_order t' ≡ put e (in_order t))
unfolding link_from in_order put with_left with_right Compared
link_from_absent zero low high e t rise absent h = absurd (omega arith)
link_from_absent (suc fuel) low high e empty rise absent h = (_, refl, refl)
link_from_absent (suc fuel) low high e (node left this right) rise absent h =
    let (on_left, above, below, on_right) =
      Rising-split low high (in_order left) this (in_order right) rise in
    let size = length-append (in_order left) (this ∷ in_order right) in
    elim (compared e.block this.block) [
      | inl (less, t) ↦
          let (left', e1, e2) =
            link_from_absent fuel low this.block e left on_left
              (sym (lookup_left e.block (in_order left) this high (in_order right) less on_right)
                ∙ absent)
              (omega arith) in
          (
            node left' this right,
            rw t (rw e1 refl),
            rw e2 (sym (put_left e (in_order left) this (in_order right) less)),
          )
      | inr (inl (more, f, t)) ↦
          let (right', e1, e2) =
            link_from_absent fuel (suc this.block) high e right on_right
              (sym (lookup_right low e.block (in_order left) this (in_order right) on_left more)
                ∙ absent)
              (omega arith) in
          (
            node left this right',
            rw f (rw t (rw e1 refl)),
            rw e2 (sym (put_right low e (in_order left) this (in_order right) on_left more)),
          )
      | inr (inr (same, f, g)) ↦ absurd (
          let found = lookup_middle low (in_order left) this (in_order right) on_left in
          let absent' =
            ap (λ b. lookup b (in_order left ++ (this ∷ in_order right))) (sym same) ∙ absent in
          cc)
    ]

-- A request for a block that is in the tree makes the loop run for ever.
link_from_present :
    (fuel low high : ℕ) (e r : MapRequest) (t : Tree)
    → Rising low high (in_order t)
    → lookup e.block (in_order t) ≡ some r
    → link_from fuel e t ≡ pending
unfolding link_from in_order lookup with_left with_right Compared
link_from_present zero low high e r t rise present = refl
link_from_present (suc fuel) low high e r empty rise present = absurd cc
link_from_present (suc fuel) low high e r (node left this right) rise present =
    let (on_left, above, below, on_right) =
      Rising-split low high (in_order left) this (in_order right) rise in
    elim (compared e.block this.block) [
      | inl (less, t) ↦ rw t (
          ap (λ o. with_left o this right)
            (link_from_present fuel low this.block e r left on_left (
              sym (lookup_left e.block (in_order left) this high (in_order right) less on_right)
              ∙ present)))
      | inr (inl (more, f, t)) ↦ rw f (
          rw t (
            ap (with_right left this) (
              link_from_present fuel (suc this.block) high e r right on_right (
                sym (lookup_right low e.block (in_order left) this (in_order right) on_left more)
                ∙ present))))
      | inr (inr (same, f, g)) ↦
          rw f (rw g (link_from_present fuel low high e r (node left this right) rise present))
    ]

block_of_sector :
    (s n : ℕ) → s < 2 ^ 55 → s * 512 % 2 ^ 64 / 4096 % 2 ^ 32 ≡ (request_for s n).block
unfolding request_for
block_of_sector s n h = omega arith

module _ (balance : Balance) where
  open balance use {rb_insert_color, rb_erase, in_order-rb_insert_color, in_order-rb_erase}

  add_absent :
      (fuel : ℕ) (e : MapRequest) (t : Tree)
      → Rising 0 (2 ^ 32) (in_order t)
      → lookup e.block (in_order t) ≡ none
      → length (in_order t) < fuel
      → (t' : Tree) × (afs_eq_add balance fuel e t ≡ done t') × (in_order t' ≡ put e (in_order t))
  unfolding afs_eq_add balanced
  add_absent fuel e t rise absent h =
      let (t', e1, e2) = link_from_absent fuel 0 (2 ^ 32) e t rise absent h in
      (rb_insert_color e t', ap (balanced balance e) e1, in_order-rb_insert_color e t' ∙ e2)

  -- For a queue whose blocks rise: either a request for the same block is in it, and afs_eq_add never
  -- ends, or afs_eq_add ends in at most one step more than the queue has requests, the blocks still
  -- rise, and a search by the first sector of a bio finds the new request for the sectors of its block
  -- and what it found before for all others.
  pub afs_eq_add_lem :
      (fuel : ℕ) (e : MapRequest) (t : Tree)
      → Rising 0 (2 ^ 32) (in_order t)
      → e.block < 2 ^ 32
      → length (in_order t) < fuel
      → ((r : MapRequest) × (find_block e.block t ≡ some r)
          × ((n : ℕ) → afs_eq_add balance n e t ≡ pending))
        ⊎ ((t' : Tree) × (afs_eq_add balance fuel e t ≡ done t')
            × (Rising 0 (2 ^ 32) (in_order t'))
            × ((s n : ℕ)
                → s < 2 ^ 55
                → afs_eq_req_exist t' s
                  ≡ (if (request_for s n).block == e.block then some e else afs_eq_req_exist t s)))
  unfolding afs_eq_add balanced afs_eq_req_exist
  afs_eq_add_lem fuel e t rise k h = elim (Option-cases (lookup e.block (in_order t))) [
    | inl absent ↦
        let (t', e1, e2) = add_absent fuel e t rise absent h in
        let rise' : Rising 0 (2 ^ 32) (in_order t') =
          rw e2 (put-Rising 0 (2 ^ 32) e (in_order t) rise (omega arith) k absent) in
        inr (
          t',
          e1,
          rise',
          λ s n l. rw (block_of_sector s n l) (
              find_block_lem (request_for s n).block 0 (2 ^ 32) t' rise'
              ∙ ap (lookup (request_for s n).block) e2
              ∙ lookup-put (request_for s n).block e (in_order t) absent
              ∙ ap (λ o. if (request_for s n).block == e.block then some e else o)
                  (sym (find_block_lem (request_for s n).block 0 (2 ^ 32) t rise))),
        )
    | inr (r, present) ↦ inl (
      r,
      find_block_lem e.block 0 (2 ^ 32) t rise ∙ present,
      λ n. ap (balanced balance e) (link_from_present n 0 (2 ^ 32) e r t rise present),
    )
  ]
