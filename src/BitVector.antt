-- ===== src/BitVector.antt =====
-- src/lib/bit_vector.c and include/lib/bit_vector.h: a vector of bits over kernel memory. A pointer
-- is an Option (`NULL` is `none`), and `-EINVAL` is `err einval`. The lock is taken by no function
-- here (its calls are commented out), so it is not part of the state.
pub mod Laws
pub mod Refine
mod Tests
use artifice.Base.{
  ℕ, ◌+◌, ◌/◌, Bool, true, false, Option, none, some, ltb, if◌then◌else◌, Result, ok, err, einval,
}
use artifice.Kernel.{BitOps}

-- `bit_vector_t`.
pub record BitVector (Memory : Type 0) : Type 0 where
  pub array : Memory
  pub length : ℕ

-- `BIT_VECTOR_BITS_TO_BYTES(b)`
unfoldable pub bits_to_bytes : ℕ → ℕ
bits_to_bytes b = b / 8 + 1

module _ (ops : BitOps) where
  open ops use {Memory, zeroed, set_bit, clear_bit, test_bit}

  -- `bit_vector_create`; the flags say whether `kmalloc` and `vmalloc` give memory.
  unfoldable pub create : Bool → Bool → ℕ → Option (BitVector Memory)
  create has_vector has_array length =
      if has_vector
      then if has_array
        then some (record { array = zeroed (bits_to_bytes length); length = length })
        else none
      else none

  -- `bit_vector_set`: the status, and the vector afterwards.
  unfoldable pub set : Option (BitVector Memory) → ℕ → Result (Unit {0}) × Option (BitVector Memory)
  set none index = (err einval, none)
  set (some v) index =
      if ltb v.length index
      then (err einval, some v)
      else (ok tt, some (record v { array = set_bit index v.array }))

  -- `bit_vector_clear`
  unfoldable pub clear :
      Option (BitVector Memory) → ℕ → Result (Unit {0}) × Option (BitVector Memory)
  clear none index = (err einval, none)
  clear (some v) index =
      if ltb v.length index
      then (err einval, some v)
      else (ok tt, some (record v { array = clear_bit index v.array }))

  -- `bit_vector_get`: `!!return_bits` is 1 or 0.
  unfoldable pub get : Option (BitVector Memory) → ℕ → Result ℕ
  get none index = err einval
  get (some v) index =
      if ltb v.length index then err einval else if test_bit index v.array then ok 1 else ok 0
