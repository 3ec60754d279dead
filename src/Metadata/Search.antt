-- ===== src/Metadata/Search.antt =====
-- `binary_search` of src/dm_afs_metadata.c, which looks a block number up in the free list. `-1` is
-- `none`. The variable `last` is an `int` that goes down to -1: `hi` here is `last + 1`. A read outside
-- the array and the overflow of the `int` sum are faults.
pub mod Laws
use artifice.Base.{
  ℕ, zero, suc, ◌+◌, ◌-◌, ◌/◌, ◌^◌, Option, none, some, ltb, leb, ◌==◌, if◌then◌else◌, Outcome,
  fault, pending, done, List, get_elem?,
}

-- The `while` loop on fuel: `middle` is `(first + last) / 2` at each test of the loop.
unfoldable pub search_between : ℕ → List ℕ → ℕ → ℕ → ℕ → Outcome (Option ℕ)
search_between zero array value first hi = pending
search_between (suc fuel) array value first hi =
    let middle = (first + hi - 1) / 2 in
    let right = search_between fuel array value (middle + 1) hi in
    let left = search_between fuel array value first middle in
    if leb hi first
    then done none
    else if leb (2 ^ 31) (first + hi - 1)
    then fault
    else elim (get_elem? array middle) [
      | none ↦ fault
      | some found ↦
          if ltb found value then right else if found == value then done (some middle) else left
    ]

-- A length above 2 ^ 31 makes `last` negative, so that the loop does not start.
unfoldable pub binary_search : List ℕ → ℕ → ℕ → Outcome (Option ℕ)
unfolding search_between
binary_search array value length =
    let hi = if ltb (2 ^ 31) length then 0 else length in
    search_between (length + 1) array value 0 hi
