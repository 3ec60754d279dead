-- ===== src/Aont.antt =====
-- src/lib/aont.c: the all-or-nothing package of a block, and its inverse. Memory is counted in words of 64
-- bits, as the casts of the code have it. `sha3_256` may be any function to four words, and
-- `get_random_bytes` is the kernel's, its result an argument. `cauchy_rs_encode` and `cauchy_rs_decode`
-- belong to a library whose copy lies in src/lib/cauchy_rs.c. A `kmalloc` that fails makes both return -1.
pub mod Package
pub mod Laws
mod Tests
use artifice.Base.{
  ℕ, suc, ◌+◌, ◌*◌, ◌≤◌, ◌≡◌, ◌==◌, Bool, true, false, if◌then◌else◌, List, [], ◌∷◌, length,
}

-- Whether a number is in the list.
unfoldable pub among : ℕ → List ℕ → Bool
among i [] = false
among i (x ∷ xs) = if i == x then true else among i xs

-- The blocks `got`, from number `i` on, are those of `sent` but for the erased numbers.
unfoldable pub AgreeOff : List ℕ → ℕ → List (List ℕ) → List (List ℕ) → Type 0
AgreeOff erasures i [] [] = Unit {0}
AgreeOff erasures i [] (y ∷ ys) = ⊥
AgreeOff erasures i (x ∷ xs) [] = ⊥
AgreeOff erasures i (x ∷ xs) (y ∷ ys) =
    (among i erasures ≡ false → x ≡ y) × AgreeOff erasures (suc i) xs ys

-- The erasure code for `data_blocks` blocks and `parity_blocks` more, as its header documents it: the
-- blocks of the data follow from the blocks that are left, where at most as many are erased as there are
-- parity blocks.
pub record ErasureCode (data_blocks parity_blocks : ℕ) : Type 0 where
  pub parity : List (List ℕ) → List (List ℕ)
  pub recover : List (List ℕ) → List (List ℕ) → List ℕ → List (List ℕ)
  pub recover-parity :
      (blocks got_data got_parity : List (List ℕ)) (erasures : List ℕ)
      → length blocks ≡ data_blocks
      → length erasures ≤ parity_blocks
      → AgreeOff erasures 0 got_data blocks
      → AgreeOff erasures data_blocks got_parity (parity blocks)
      → recover got_data got_parity erasures ≡ blocks
