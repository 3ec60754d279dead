-- ===== src/Engine/Queue.antt =====
-- `afs_eq_init`, `afs_eq_add`, `afs_eq_empty`, `afs_eq_remove` and `afs_eq_req_exist` of
-- src/dm_afs_engine.c: the red-black tree of requests, by their block numbers. The lock is held around
-- each operation, so that an operation is one step. A null pointer in the tree is `empty`.
pub mod Order
pub mod Without
pub mod Laws
pub mod Removal
use artifice.Base.{
  ℕ, zero, suc, ◌*◌, ◌/◌, ◌^◌, ◌%◌, ◌≡◌, ◌≤◌, ◌<◌, Bool, true, false, if◌then◌else◌, ltb, List, [],
  ◌∷◌, ◌++◌, Option, none, some, Outcome, pending, done,
}
use artifice.Format.{block_size, sector_size}
use artifice.Target.Request.{MapRequest}

-- `struct rb_node` inside `struct afs_map_request`, with the children; the colours are the kernel's.
pub data Tree : Type 0 where
  empty : Tree
  node : Tree → MapRequest → Tree → Tree

-- The requests from left to right.
unfoldable pub in_order : Tree → List MapRequest
in_order empty = []
in_order (node left this right) = in_order left ++ (this ∷ in_order right)

-- The blocks of the requests rise, from `low` on and below `high`.
unfoldable pub Rising : ℕ → ℕ → List MapRequest → Type 0
Rising low high [] = low ≤ high
Rising low high (r ∷ rs) = (low ≤ r.block) × (r.block < high) × Rising (suc r.block) high rs

-- What <linux/rbtree.h> does to the shape of the tree: recolouring and rotations keep the order from
-- left to right, and a node that is erased is missing from it.
pub record Balance : Type 0 where
  pub rb_insert_color : MapRequest → Tree → Tree
  pub rb_erase : MapRequest → Tree → Tree
  pub in_order-rb_insert_color :
      (r : MapRequest) (t : Tree) → in_order (rb_insert_color r t) ≡ in_order t
  pub in_order-rb_erase :
      (r : MapRequest) (t : Tree) (before after : List MapRequest)
      → in_order t ≡ before ++ (r ∷ after)
      → Rising 0 (2 ^ 32) (in_order t)
      → in_order (rb_erase r t) ≡ before ++ after

-- `afs_eq_init`
unfoldable pub afs_eq_init : Tree
afs_eq_init = empty

-- A child that was replaced by the loop.
unfoldable pub with_left : Outcome Tree → MapRequest → Tree → Outcome Tree
with_left (done left) this right = done (node left this right)
with_left other this right = other

unfoldable pub with_right : Tree → MapRequest → Outcome Tree → Outcome Tree
with_right left this (done right) = done (node left this right)
with_right left this other = other

-- The `while` loop of `afs_eq_add` and `rb_link_node`: the tree with the new leaf. A request for the same
-- block only prints a message, so that the same node is met again.
unfoldable pub link_from : ℕ → MapRequest → Tree → Outcome Tree
unfolding with_left with_right
link_from zero element t = pending
link_from (suc fuel) element empty = done (node empty element empty)
link_from (suc fuel) element (node left this right) =
    let on_left = link_from fuel element left in
    let on_right = link_from fuel element right in
    let again = link_from fuel element (node left this right) in
    if ltb element.block this.block
    then with_left on_left this right
    else if ltb this.block element.block
    then with_right left this on_right
    else again

-- `afs_eq_empty_unsafe`, and `afs_eq_empty` under the lock
unfoldable pub afs_eq_empty : Tree → Bool
afs_eq_empty empty = true
afs_eq_empty (node left this right) = false

-- The `while` loop of `afs_eq_req_exist`
unfoldable pub find_block : ℕ → Tree → Option MapRequest
find_block block_num empty = none
find_block block_num (node left this right) =
    if ltb block_num this.block
    then find_block block_num left
    else if ltb this.block block_num
    then find_block block_num right
    else some this

-- `afs_eq_req_exist`, by the first sector of the bio, a number of 64 bits
unfoldable pub afs_eq_req_exist : Tree → ℕ → Option MapRequest
afs_eq_req_exist t bi_sector = find_block (bi_sector * sector_size % 2 ^ 64 / block_size % 2 ^ 32) t

module _ (balance : Balance) where
  open balance use {rb_insert_color, rb_erase}

  unfoldable pub balanced : MapRequest → Outcome Tree → Outcome Tree
  balanced element (done t) = done (rb_insert_color element t)
  balanced element other = other

  -- `afs_eq_add`
  unfoldable pub afs_eq_add : ℕ → MapRequest → Tree → Outcome Tree
  unfolding balanced
  afs_eq_add fuel element t = balanced element (link_from fuel element t)

  -- `afs_eq_remove`
  unfoldable pub afs_eq_remove : MapRequest → Tree → Tree
  afs_eq_remove req t = if afs_eq_empty t then t else rb_erase req t
