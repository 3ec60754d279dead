-- ===== src/Allocation/Laws.antt =====
-- The positions in use, as src/dm_afs_allocation.c sees them through the bit vector.
use artifice.Base.{ℕ, ◌≤◌, ◌≡◌, refl, Bool, true, false, ◌==◌, if◌then◌else◌, inl, inr, Bool-cases}
use artifice.Kernel.{BitOps}
use artifice.BitVector.Laws.{bit, Covers, set_lem, clear_lem, get_lem}
use artifice.Allocation.{
  AllocationVector, allocation_get, allocation_set, allocation_free, valid_state, succeeded,
}

module _ (ops : BitOps) where
  open ops use {Memory}

  -- Whether a position is in use.
  abbrev pub in_use : AllocationVector Memory → ℕ → Bool
  in_use a i = bit ops a.vector i

  -- The vector can record the positions up to `n`.
  abbrev pub Ready : ℕ → AllocationVector Memory → Type 0
  Ready n a = Covers ops a.vector n

  module _ (n i : ℕ) (within : i ≤ n) (a : AllocationVector Memory) (ready : Ready n a) where
    pub allocation_get_lem : allocation_get ops a i ≡ (if in_use a i then 1 else 0)
    unfolding allocation_get valid_state
    allocation_get_lem = elim (Bool-cases (in_use a i)) [
      | inl u ↦ rw (get_lem ops a.vector n i ready within, u) refl
      | inr u ↦ rw (get_lem ops a.vector n i ready within, u) refl
    ]

    -- A position in use is refused, and nothing changes.
    pub allocation_set_taken : in_use a i ≡ true → allocation_set ops a i ≡ (false, a)
    unfolding allocation_set succeeded
    allocation_set_taken u = rw (allocation_get_lem, u) refl

    -- A free position is taken, and no other position changes.
    pub allocation_set_free :
        in_use a i ≡ false
        → ((allocation_set ops a i).0 ≡ true)
          × Ready n (allocation_set ops a i).1
          × ((j : ℕ) → in_use (allocation_set ops a i).1 j ≡ (if i == j then true else in_use a j))
    unfolding allocation_set succeeded
    allocation_set_free u =
        let (s, k, b) = set_lem ops a.vector n i ready within in
        rw (allocation_get_lem, u, s) (refl, k, b)

    pub allocation_free_lem :
        Ready n (allocation_free ops a i)
        × ((j : ℕ) → in_use (allocation_free ops a i) j ≡ (if i == j then false else in_use a j))
    unfolding allocation_free
    allocation_free_lem = let (s, k, b) = clear_lem ops a.vector n i ready within in (k, b)
