-- ===== src/Allocation/Acquire.antt =====
-- `acquire_block` of src/dm_afs_allocation.c: what it may return, and when it returns.
use native.Mathlib.Nat.{mod-lt}
use artifice.Base.{
  ℕ, ◌≤◌, ◌<◌, ◌≡◌, refl, true, false, some, arith, ◌==◌, if◌then◌else◌, inl, inr, ◌⊎◌, Bool-cases,
  List, [], ◌∷◌, ◌∙◌, pending, get_elem?, get_or, get_elem?-eq-get_or, length, Outcome, done,
}
use artifice.Kernel.{BitOps}
use artifice.Allocation.{
  AllocationVector, PassiveFs, invalid_block, random_block_index, allocation_set, picked,
  acquire_from, acquire_block,
}
use artifice.Allocation.Laws.{in_use, Ready, allocation_set_taken, allocation_set_free}

-- A free list that the detection modules hand over: not empty, as long as it says, and within the
-- `n` positions of the allocation vector.
pub record IsUsable (n : ℕ) (fs : PassiveFs) : Type 0 where
  pub some_block : 0 < fs.list_len
  pub listed : fs.list_len ≤ length fs.block_list
  pub mapped : fs.list_len ≤ n

pub random_block_index-lt :
    {n : ℕ} (fs : PassiveFs) (r : ℕ) → IsUsable n fs → random_block_index fs r < fs.list_len
unfolding random_block_index
random_block_index-lt fs r u = mod-lt r u.some_block

module _ (ops : BitOps) where
  open ops use {Memory}

  -- Position `i` of the free list, free before, is in use now; it names the block `b`, and no other
  -- position changed.
  pub record Took (n : ℕ) (fs : PassiveFs) (a : AllocationVector Memory) (b : ℕ)
      (a' : AllocationVector Memory) : Type 0 where
    pub position : ℕ
    pub inside : position < fs.list_len
    pub names : get_elem? fs.block_list position ≡ some b
    pub was_free : in_use ops a position ≡ false
    pub now : (j : ℕ) → in_use ops a' j ≡ (if position == j then true else in_use ops a j)
    pub ready : Ready ops n a'

  module _ {n : ℕ} {fs : PassiveFs} (u : IsUsable n fs) (a : AllocationVector Memory)
      (ready : Ready ops n a) where
    picked-free :
        (i : ℕ) (draws : List ℕ)
        → i < fs.list_len
        → in_use ops a i ≡ false
        → picked ops fs i (allocation_set ops a i).1 draws
          ≡ done (get_or fs.block_list i 0, (allocation_set ops a i).1, draws)
    unfolding picked
    picked-free i draws h f = rw (get_elem?-eq-get_or fs.block_list i 0 (omega arith), picked) refl

    took :
        (i : ℕ)
        → i < fs.list_len
        → in_use ops a i ≡ false
        → Took n fs a (get_or fs.block_list i 0) (allocation_set ops a i).1
    took i h f =
        let (s, k, b) = allocation_set_free ops n i (omega arith) a ready f in
        record {
          position = i;
          inside = h;
          names = get_elem?-eq-get_or fs.block_list i 0 (omega arith);
          was_free = f;
          now = b;
          ready = k;
        }

    -- How one round goes at a free position, and at one in use.
    acquire_from-free :
        (cur i : ℕ) (draws : List ℕ)
        → i < fs.list_len
        → in_use ops a i ≡ false
        → acquire_from ops fs cur a i draws
          ≡ done (get_or fs.block_list i 0, (allocation_set ops a i).1, draws)
    unfolding acquire_from
    acquire_from-free cur i [] h f =
        rw ((allocation_set_free ops n i (omega arith) a ready f).0) (picked-free i [] h f)
    acquire_from-free cur i (r ∷ draws) h f =
        rw ((allocation_set_free ops n i (omega arith) a ready f).0) (picked-free i (r ∷ draws) h f)

    acquire_from-taken :
        (cur i r : ℕ) (draws : List ℕ)
        → i < fs.list_len
        → in_use ops a i ≡ true
        → acquire_from ops fs cur a i (r ∷ draws) ≡ (
            if random_block_index fs r == cur
            then done (invalid_block, a, draws)
            else acquire_from ops fs cur a (random_block_index fs r) draws)
    unfolding acquire_from
    acquire_from-taken cur i r draws h f =
        rw (allocation_set_taken ops n i (omega arith) a ready f) refl

    acquire_from-stuck :
        (cur i : ℕ)
        → i < fs.list_len
        → in_use ops a i ≡ true
        → acquire_from ops fs cur a i [] ≡ Outcome.pending
    unfolding acquire_from
    acquire_from-stuck cur i h f = rw (allocation_set_taken ops n i (omega arith) a ready f) refl

    -- What `acquire_block` returns is a block just taken, or the invalid block with nothing changed.
    abbrev pub Acquired : ℕ × AllocationVector Memory × List ℕ → Type 0
    Acquired r = Took n fs a r.0 r.1 ⊎ (r.0 ≡ invalid_block) × (r.1 ≡ a)

    -- The draws let the loop end: they reach a free position, or the first choice again.
    abbrev pub Ends : ℕ → ℕ → List ℕ → Type 0
    Ends cur i [] = in_use ops a i ≡ false
    Ends cur i (r ∷ draws) =
        (in_use ops a i ≡ false)
        ⊎ (random_block_index fs r ≡ cur)
        ⊎ Ends cur (random_block_index fs r) draws

    -- Either the draws do not let the loop end, or it ends as said.
    acquire_from_lem :
        (cur : ℕ) (draws : List ℕ) (i : ℕ)
        → i < fs.list_len
        → (acquire_from ops fs cur a i draws ≡ pending) × (¬ (Ends cur i draws))
          ⊎ (r : ℕ × AllocationVector Memory × List ℕ) × (acquire_from ops fs cur a i draws
              ≡ done r)
            × Acquired r
    acquire_from_lem cur [] i h = elim (Bool-cases (in_use ops a i)) [
      | inl t ↦ inl (acquire_from-stuck cur i h t, λ e. cc)
      | inr f ↦ inr (_, acquire_from-free cur i [] h f, inl (took i h f))
    ]
    acquire_from_lem cur (r ∷ draws) i h = elim (Bool-cases (in_use ops a i)) [
      | inr f ↦ inr (_, acquire_from-free cur i (r ∷ draws) h f, inl (took i h f))
      | inl t ↦ elim (Bool-cases (random_block_index fs r == cur)) [
        | inl same ↦ inr (
          (invalid_block, a, draws),
          acquire_from-taken cur i r draws h t ∙ rw same refl,
          inr (refl, refl),
        )
        | inr other ↦
            again t other
              (acquire_from_lem cur draws (random_block_index fs r) (random_block_index-lt fs r u))
      ]
    ]
      where
        again :
            in_use ops a i ≡ true
            → (random_block_index fs r == cur) ≡ false
            → (acquire_from ops fs cur a (random_block_index fs r) draws ≡ pending)
                × (¬ (Ends cur (random_block_index fs r) draws))
              ⊎ (q : ℕ × AllocationVector Memory × List ℕ) × (acquire_from ops fs cur a
                    (random_block_index fs r)
                    draws
                  ≡ done q)
                × Acquired q
            → (acquire_from ops fs cur a i (r ∷ draws) ≡ pending) × (¬ (Ends cur i (r ∷ draws)))
              ⊎ (q : ℕ × AllocationVector Memory × List ℕ) × (acquire_from ops fs cur a i
                    (r ∷ draws)
                  ≡ done q)
                × Acquired q
        again t other (inl (p, stuck)) = inl (
          acquire_from-taken cur i r draws h t ∙ rw other p,
          elim [ inl f ↦ cc | inr (inl s) ↦ absurd (ground arith) | inr (inr e) ↦ stuck e ],
        )
        again t other (inr (q, e, k)) =
            inr (q, acquire_from-taken cur i r draws h t ∙ rw other e, k)

  module _ {n : ℕ} {fs : PassiveFs} (u : IsUsable n fs) (a : AllocationVector Memory)
      (ready : Ready ops n a) where
    -- The draws let `acquire_block` end.
    abbrev pub Suffice : List ℕ → Type 0
    Suffice [] = ⊥
    Suffice (r ∷ draws) = Ends u a ready (random_block_index fs r) (random_block_index fs r) draws

    -- With a usable free list `acquire_block` never faults, and it ends if the draws reach a free
    -- position or the first choice again. What it then returns is a block of the free list whose
    -- position was free and is in use now, no other position changing, or the invalid block with
    -- nothing changed.
    pub acquire_block_lem :
        (draws : List ℕ)
        → (acquire_block ops fs a draws ≡ pending) × (¬ (Suffice draws))
          ⊎ (r : ℕ × AllocationVector Memory × List ℕ) × (acquire_block ops fs a draws ≡ done r)
            × Acquired u a ready r
    unfolding acquire_block
    acquire_block_lem [] = inl (refl, λ e. e)
    acquire_block_lem (r ∷ draws) =
        let e : (fs.list_len == 0) ≡ false = ground arith in
        rw e (
          acquire_from_lem u a ready (random_block_index fs r) draws (random_block_index fs r)
            (random_block_index-lt fs r u))
