-- ===== src/BitVector/Laws.antt =====
-- src/lib/bit_vector.c: its indices, and the vector as a function from positions to bits.
use artifice.Base.{
  ℕ, ◌+◌, ◌*◌, ◌/◌, ◌≤◌, ◌<◌, ◌≡◌, refl, Bool, true, false, Option, none, some, arith, ltb, ◌==◌,
  if◌then◌else◌, ok, err, einval, inl, inr, Bool-cases,
}
use artifice.Kernel.{BitOps}
use artifice.BitVector.{BitVector, bits_to_bytes, create, set, clear, get}

module _ (ops : BitOps) where
  open ops use {Memory, size, test_bit}

  -- The bit at a position, and none of a missing vector.
  abbrev pub bit : Option (BitVector Memory) → ℕ → Bool
  bit none i = false
  bit (some v) i = test_bit i v.array

  -- The vector is there, for positions up to `n` (the source lets `n` itself through), and its array
  -- holds them.
  abbrev pub Covers : Option (BitVector Memory) → ℕ → Type 0
  Covers none n = ⊥
  Covers (some v) n = (v.length ≡ n) × (n < 8 * size v.array)

  pub create-Covers :
      (n : ℕ)
      → Covers (create ops true true n) n
        × ((i : ℕ) → i ≤ n → bit (create ops true true n) i ≡ false)
  unfolding create bits_to_bytes
  create-Covers n = (
    (refl, rw ops.size-zeroed (omega arith)),
    λ i h. ops.test_bit-zeroed i (n / 8 + 1) (omega arith),
  )

  pub set_lem :
      (v : Option (BitVector Memory)) (n i : ℕ)
      → Covers v n
      → i ≤ n
      → ((set ops v i).0 ≡ ok tt)
        × Covers (set ops v i).1 n
        × ((j : ℕ) → bit (set ops v i).1 j ≡ (if i == j then true else bit v j))
  unfolding set
  set_lem none n i c h = absurd c
  set_lem (some v) n i c h =
      let e : ltb v.length i ≡ false = ground arith in
      rw e
        (refl, (c.0, rw ops.size-set_bit c.1), λ j. ops.test_bit-set_bit i j v.array (omega arith))

  pub clear_lem :
      (v : Option (BitVector Memory)) (n i : ℕ)
      → Covers v n
      → i ≤ n
      → ((clear ops v i).0 ≡ ok tt)
        × Covers (clear ops v i).1 n
        × ((j : ℕ) → bit (clear ops v i).1 j ≡ (if i == j then false else bit v j))
  unfolding clear
  clear_lem none n i c h = absurd c
  clear_lem (some v) n i c h =
      let e : ltb v.length i ≡ false = ground arith in
      rw e (
        refl,
        (c.0, rw ops.size-clear_bit c.1),
        λ j. ops.test_bit-clear_bit i j v.array (omega arith),
      )

  pub get_lem :
      (v : Option (BitVector Memory)) (n i : ℕ)
      → Covers v n
      → i ≤ n
      → get ops v i ≡ (if bit v i then ok 1 else ok 0)
  unfolding get
  get_lem none n i c h = absurd c
  get_lem (some v) n i c h = let e : ltb v.length i ≡ false = ground arith in rw e refl

  -- A refused index changes nothing.
  pub out_of_range :
      (v : Option (BitVector Memory)) (n i : ℕ)
      → Covers v n
      → n < i
      → (set ops v i ≡ (err einval, v))
        × (clear ops v i ≡ (err einval, v))
        × (get ops v i ≡ err einval)
  unfolding set clear get
  out_of_range none n i c h = absurd c
  out_of_range (some v) n i c h =
      let e : ltb v.length i ≡ true = ground arith in rw e (refl, refl, refl)

  -- Every index that `bit_vector_set` accepts for a vector that `bit_vector_create` made lies inside its
  -- array, also the one that equals the length.
  pub set_in_bounds :
      (n i : ℕ) (v : BitVector Memory) (w : Option (BitVector Memory))
      → create ops true true n ≡ some v
      → set ops (some v) i ≡ (ok tt, w)
      → i < 8 * size v.array
  unfolding set
  set_in_bounds n i v w made h =
      let c : Covers (some v) n = rw made at (create-Covers n).0 in
      elim (Bool-cases (ltb v.length i)) [ inl t ↦ let e = rw t at h in cc | inr t ↦ ground arith ]
