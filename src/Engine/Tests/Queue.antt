-- ===== src/Engine/Tests/Queue.antt =====
-- A queue of three requests for src/dm_afs_engine.c, and a balancing that the laws describe.
use artifice.Base.{
  ℕ, ◌≡◌, ◌<◌, ◌^◌, ◌⊎◌, refl, ap, arith, sym, ◌∙◌, if◌then◌else◌, ◌==◌, List, [], ◌∷◌, ◌++◌, none,
  some, pending, done, length,
}
use artifice.Target.Request.{MapRequest, request_for}
use artifice.Engine.Queue.{
  Tree, empty, node, in_order, Rising, Balance, find_block, link_from, afs_eq_add, afs_eq_remove,
  afs_eq_req_exist,
}
use artifice.Engine.Queue.Order.{Rising-split}
use artifice.Engine.Queue.Without.{without, without-append}
use artifice.Engine.Queue.Laws.{afs_eq_add_lem}
use artifice.Engine.Queue.Removal.{afs_eq_remove_lem}

spine : List MapRequest → Tree
spine [] = empty
spine (r ∷ rs) = node empty r (spine rs)

in_order-spine : (rs : List MapRequest) → in_order (spine rs) ≡ rs
unfolding in_order spine
in_order-spine [] = refl
in_order-spine (r ∷ rs) = ap (λ k. r ∷ k) (in_order-spine rs)

in_order-erase :
    (r : MapRequest) (t : Tree) (before after : List MapRequest)
    → in_order t ≡ before ++ (r ∷ after)
    → Rising 0 (2 ^ 32) (in_order t)
    → in_order (spine (without r.block (in_order t))) ≡ before ++ after
in_order-erase r t before after e rise =
    let rise' : Rising 0 (2 ^ 32) (before ++ (r ∷ after)) = rw (sym e) rise in
    let (left, _, _, _) = Rising-split 0 (2 ^ 32) before r after rise' in
    in_order-spine (without r.block (in_order t))
    ∙ ap (without r.block) e
    ∙ without-append 0 before r after left

abbrev unbalanced : Balance
unbalanced = record {
  rb_insert_color = λ r t. t;
  rb_erase = λ r t. spine (without r.block (in_order t));
  in_order-rb_insert_color = λ r t. refl;
  in_order-rb_erase = in_order-erase;
}

abbrev request : ℕ → MapRequest
request b = record { block = b; sector_offset = 0; request_size = 4096 }

abbrev queue : Tree
queue = node (node empty (request 3) empty) (request 5) (node empty (request 9) empty)

queue-Rising : Rising 0 (2 ^ 32) (in_order queue)
unfolding Rising in_order
queue-Rising =
    (omega arith, omega arith, (omega arith, omega arith, (omega arith, omega arith, omega arith)))

queue_length : length (in_order queue) < 4
unfolding in_order
queue_length = omega arith

queue_find : find_block 5 queue ≡ some (request 5)
unfolding find_block
queue_find = refl

afs_eq_add_lem_example :
    ((r : MapRequest) × (find_block 7 queue ≡ some r)
      × ((n : ℕ) → afs_eq_add unbalanced n (request 7) queue ≡ pending))
    ⊎ ((t' : Tree) × (afs_eq_add unbalanced 4 (request 7) queue ≡ done t')
        × (Rising 0 (2 ^ 32) (in_order t'))
        × ((s n : ℕ)
            → s < 2 ^ 55
            → afs_eq_req_exist t' s ≡ (
                if (request_for s n).block == 7
                then some (request 7)
                else afs_eq_req_exist queue s)))
afs_eq_add_lem_example =
    afs_eq_add_lem unbalanced 4 (request 7) queue queue-Rising (omega arith) queue_length

afs_eq_remove_lem_example :
    (Rising 0 (2 ^ 32) (in_order (afs_eq_remove unbalanced (request 5) queue)))
    × ((b : ℕ)
        → find_block b (afs_eq_remove unbalanced (request 5) queue)
          ≡ (if b == 5 then none else find_block b queue))
afs_eq_remove_lem_example = afs_eq_remove_lem unbalanced (request 5) queue queue-Rising queue_find

-- A second request for block 5.
link_from_again : link_from 7 (request 5) queue ≡ pending
unfolding link_from
link_from_again = refl

link_from_end :
    link_from 4 (request 7) queue
    ≡ done (
        node
          (node empty (request 3) empty)
          (request 5)
          (node (node empty (request 7) empty) (request 9) empty))
unfolding link_from
link_from_end = refl
