-- ===== src/Metadata/Pointers/Chain.antt =====
-- `write_ptr_blocks` of src/dm_afs_metadata.c behind the map blocks, and `rebuild_ptr_blocks`: the
-- pointer blocks, as their pages, each with the number of the next one in its last field. `hash_sha1`
-- calls the kernel and is an argument.
use artifice.Base.{
  ℕ, zero, suc, ◌+◌, ◌^◌, ◌%◌, false, ◌==◌, if◌then◌else◌, Bool, List, [], ◌∷◌, ◌++◌, map, take,
  drop, replicate, memcpy, le32_at, le32_bytes, Result, ok, err, enospc, Outcome, fault, pending,
  done,
}
use artifice.Allocation.{PassiveFs, invalid_block}
use artifice.Format.{block_size}
use artifice.Io.{read_page}
use artifice.Kernel.{BitOps, Device}
use artifice.Metadata.Pointers.{Progress, choose, write_block, write_map_blocks}

-- `SHA128_SZ`, where `map_block_ptrs` starts, and the offset of `next_ptr_block` behind its 1019 pointers
abbrev pub sha128_size : ℕ
sha128_size = 16

abbrev pub next_offset : ℕ
next_offset = 4092

-- `struct afs_ptr_block` with these pointers, the rest as `memset` cleared it.
unfoldable pub fields_of : List ℕ → List ℕ
fields_of [] = []
fields_of (pointer ∷ pointers) = le32_bytes pointer ++ fields_of pointers

unfoldable pub ptr_block_of : List ℕ → List ℕ
unfolding fields_of
ptr_block_of pointers = memcpy (replicate block_size 0) sha128_size (fields_of pointers)

-- The next pointer is set, and then the hash of all behind it.
unfoldable pub seal_block : (List ℕ → List ℕ) → List ℕ → ℕ → List ℕ
seal_block hash_sha1 page next =
    let linked = memcpy page next_offset (le32_bytes next) in
    memcpy linked 0 (take sha128_size (hash_sha1 (drop sha128_size linked)))

module _ (ops : BitOps) (device : Device) (fs : PassiveFs) (has_bio : ℕ → Bool) where
  open ops use {Memory}
  open device use {Disk}

  -- The status, the number of the first block, the pages, and the state.
  abbrev pub Chained : Type 0
  Chained = Result (Unit {0}) × ℕ × List (List ℕ) × Progress Memory Disk

  -- How a round ends after the write.
  unfoldable pub chained :
      ℕ → List (List ℕ) → Result (Unit {0}) × Progress Memory Disk → Outcome Chained
  chained block_num pages (err e, s) = done (err e, invalid_block, pages, s)
  chained block_num pages (ok _, s) =
      done (ok tt, block_num, pages, record s { blocks_written = s.blocks_written + 1 })

  -- A round with the page sealed: the acquired block and the write.
  unfoldable pub link : List ℕ → List (List ℕ) → Progress Memory Disk → Outcome Chained
  unfolding chained
  link page pages s = elim (choose ops device fs has_bio false 0 s) [
    | fault ↦ fault
    | pending ↦ pending
    | done chosen ↦
        let (block_num, vector, draws) = chosen in
        if block_num == invalid_block
        then done
            (err enospc, invalid_block, page ∷ pages, record s { vector = vector; draws = draws })
        else chained block_num (page ∷ pages)
            (write_block ops device fs has_bio page block_num vector draws s)
  ]

  module _ (hash_sha1 : List ℕ → List ℕ) where
    -- A round behind those for the blocks that follow, since the loop runs from the last one to the first.
    unfoldable pub before_rest : List ℕ → Outcome Chained → Outcome Chained
    unfolding link
    before_rest page fault = fault
    before_rest page pending = pending
    before_rest page (done (err e, first, pages, s)) = done (err e, first, page ∷ pages, s)
    before_rest page (done (ok _, first, pages, s)) = link (seal_block hash_sha1 page first) pages s

    -- The loop of `write_ptr_blocks`; the last block has an invalid pointer to the next.
    unfoldable pub write_chain : List (List ℕ) → Progress Memory Disk → Outcome Chained
    unfolding before_rest
    write_chain [] s = done (ok tt, invalid_block, [], s)
    write_chain (page ∷ pages) s = before_rest page (write_chain pages s)

    -- The chain of the pointer blocks once the map blocks are written, with the pointers of the super block.
    unfoldable pub chain_behind :
        Outcome (Result (Unit {0}) × List (List ℕ) × List (List ℕ) × Progress Memory Disk)
        → Outcome (List ℕ × Chained)
    chain_behind fault = fault
    chain_behind pending = pending
    chain_behind (done (ok _, [], left, s)) = fault
    chain_behind (done (err e, [], left, s)) = done ([], (err e, invalid_block, [], s))
    chain_behind (done (err e, sb ∷ arrays, left, s)) =
        done (sb, (err e, invalid_block, map ptr_block_of arrays, s))
    chain_behind (done (ok _, sb ∷ arrays, left, s)) =
        elim (write_chain (map ptr_block_of arrays) s) as (λ _. Outcome (List ℕ × Chained)) [
          | fault ↦ fault
          | pending ↦ pending
          | done r ↦ done (sb, r)
        ]

    -- `write_ptr_blocks`: the pointers of the super block, and what the loop gives.
    unfoldable pub write_ptr_blocks :
        List ℕ → List (List ℕ) → List (List ℕ) → Progress Memory Disk → Outcome (List ℕ × Chained)
    unfolding chain_behind
    write_ptr_blocks map_block_ptrs ptr_blocks map_blocks s =
        chain_behind
          (write_map_blocks ops device fs has_bio false map_block_ptrs ptr_blocks map_blocks s)

  -- The blocks of a chain as `afs_fill_map` goes from one to the next, `n` of them.
  unfoldable pub behind_page :
      List ℕ → Result (Unit {0}) × List (List ℕ) → Result (Unit {0}) × List (List ℕ)
  behind_page page (ret, pages) = (ret, page ∷ pages)

  unfoldable pub chain_on :
      Result (Unit {0}) × List ℕ
      → (ℕ → Result (Unit {0}) × List (List ℕ))
      → Result (Unit {0}) × List (List ℕ)
  unfolding behind_page
  chain_on (err e, page) rest = (err e, [])
  chain_on (ok _, page) rest = behind_page page (rest (le32_at page next_offset))

  unfoldable pub read_chain : ℕ → ℕ → Disk → Result (Unit {0}) × List (List ℕ)
  unfolding chain_on
  read_chain zero next_block disk = (ok tt, [])
  read_chain (suc n) next_block disk =
      chain_on (read_page device (has_bio n) [] next_block (fs.data_start_off % 2 ^ 32) disk)
        (λ next. read_chain n next disk)

  -- `rebuild_ptr_blocks` over the memory that `kmalloc` gave: each next pointer is taken from the block
  -- that is about to be read.
  unfoldable pub rebuild_from : ℕ → List (List ℕ) → Disk → Result (Unit {0}) × List (List ℕ)
  unfolding behind_page
  rebuild_from i [] disk = (ok tt, [])
  rebuild_from i (memory ∷ blocks) disk =
      let (ret, page) =
        read_page device (has_bio i) memory (le32_at memory next_offset)
          (fs.data_start_off % 2 ^ 32) disk in
      let rest = rebuild_from (suc i) blocks disk in
      elim ret as (λ _. Result (Unit {0}) × List (List ℕ)) [
        | err e ↦ (err e, page ∷ blocks)
        | ok _ ↦ behind_page page rest
      ]

  unfoldable pub rebuild_ptr_blocks : ℕ → List (List ℕ) → Disk → Result (Unit {0}) × List (List ℕ)
  unfolding rebuild_from
  rebuild_ptr_blocks first [] disk = (ok tt, [])
  rebuild_ptr_blocks first (memory ∷ blocks) disk =
      let (ret, page) =
        read_page device (has_bio 0) memory first (fs.data_start_off % 2 ^ 32) disk in
      elim ret as (λ _. Result (Unit {0}) × List (List ℕ)) [
        | err e ↦ (err e, page ∷ blocks)
        | ok _ ↦ behind_page page (rebuild_from 1 blocks disk)
      ]
