-- ===== src/Engine/Queue/Removal.antt =====
-- What `afs_eq_remove` of src/dm_afs_engine.c does to the queue.
use artifice.Base.{ℕ, ◌^◌, ◌≡◌, ap, if◌then◌else◌, ◌==◌, ◌∷◌, ◌++◌, none, some, ◌∙◌, sym}
use artifice.Target.Request.{MapRequest}
use artifice.Engine.Queue.{
  Tree, empty, node, in_order, Rising, Balance, find_block, afs_eq_empty, afs_eq_remove,
}
use artifice.Engine.Queue.Order.{lookup, Rising-split}
use artifice.Engine.Queue.Without.{
  without, without-append, lookup-split, without-Rising, lookup-without,
}
use artifice.Engine.Queue.Laws.{find_block_lem}

module _ (balance : Balance) where
  open balance use {rb_erase, in_order-rb_erase}

  remove_in_order :
      (r : MapRequest) (t : Tree)
      → Rising 0 (2 ^ 32) (in_order t)
      → lookup r.block (in_order t) ≡ some r
      → in_order (afs_eq_remove balance r t) ≡ without r.block (in_order t)
  unfolding afs_eq_remove afs_eq_empty in_order lookup
  remove_in_order r empty rise found = absurd cc
  remove_in_order r (node left this right) rise found =
      let t = node left this right in
      let (before, after, e, _) = lookup-split r.block (in_order t) r found in
      let rise' : Rising 0 (2 ^ 32) (before ++ (r ∷ after)) = rw (sym e) rise in
      let (rise_before, _, _, _) = Rising-split 0 (2 ^ 32) before r after rise' in
      in_order-rb_erase r t before after e rise
      ∙ sym (without-append 0 before r after rise_before)
      ∙ ap (without r.block) (sym e)

  -- Removing a request that is in a queue whose blocks rise keeps the order; its block is not found
  -- any more, and all others are found as before.
  pub afs_eq_remove_lem :
      (r : MapRequest) (t : Tree)
      → Rising 0 (2 ^ 32) (in_order t)
      → find_block r.block t ≡ some r
      → (Rising 0 (2 ^ 32) (in_order (afs_eq_remove balance r t)))
        × ((b : ℕ)
            → find_block b (afs_eq_remove balance r t)
              ≡ (if b == r.block then none else find_block b t))
  afs_eq_remove_lem r t rise found =
      let found' = sym (find_block_lem r.block 0 (2 ^ 32) t rise) ∙ found in
      let e = remove_in_order r t rise found' in
      let rise' : Rising 0 (2 ^ 32) (in_order (afs_eq_remove balance r t)) =
        rw e (without-Rising 0 (2 ^ 32) r.block (in_order t) rise) in
      (
        rise',
        λ b.
            find_block_lem b 0 (2 ^ 32) (afs_eq_remove balance r t) rise'
            ∙ ap (lookup b) e
            ∙ lookup-without 0 (2 ^ 32) r.block b (in_order t) rise
            ∙ ap (λ o. if b == r.block then none else o) (sym (find_block_lem b 0 (2 ^ 32) t rise)),
      )
