-- ===== src/Target/Request.antt =====
-- `afs_map` of src/dm_afs.c: the part of a bio that is taken, and the request for it. The rest of a bio
-- that is too long for a block is left to the device mapper, which hands it in again. `bi_sector` has 64
-- bits, the counts and the block number have 32. Whether there is memory for the request is an argument;
-- `__clone_bio` returns the bio itself, since its `override` is 1.
use artifice.Base.{
  ℕ, ◌+◌, ◌-◌, ◌*◌, ◌/◌, ◌^◌, ◌%◌, ◌≤◌, ◌<◌, ◌≡◌, ◌⊎◌, refl, arith, inl, inr, Bool, true,
  Bool-cases, if◌then◌else◌, ltb,
}
use artifice.Format.{block_size, sector_size, sectors_per_block}

-- `bio_op(bio)`
pub data Op : Type 0 where
  op_read op_write op_flush op_other : Op

-- What `afs_map` fills in of `struct afs_map_request`.
pub record MapRequest : Type 0 where
  pub block : ℕ
  pub sector_offset : ℕ
  pub request_size : ℕ

-- What becomes of the bio: a request that is queued, a flush that waits and ends, or `DM_MAPIO_KILL`.
pub data Mapped : Type 0 where
  queued : MapRequest → Mapped
  flushed killed : Mapped

-- The number of sectors of the bio after `dm_accept_partial_bio`.
unfoldable pub accepted_sectors : ℕ → ℕ → ℕ
accepted_sectors bi_sector bio_sectors =
    let max_sector_count = sectors_per_block - bi_sector % sectors_per_block in
    if ltb max_sector_count bio_sectors then max_sector_count else bio_sectors

-- The request for a bio of that many sectors.
unfoldable pub request_for : ℕ → ℕ → MapRequest
request_for bi_sector bio_sectors = record {
  block = bi_sector / sectors_per_block % 2 ^ 32;
  sector_offset = bi_sector % (block_size / sector_size);
  request_size = bio_sectors * sector_size % 2 ^ 32;
}

-- The `switch` over the operation.
unfoldable pub dispatch : Op → MapRequest → Mapped
dispatch op_read request = queued request
dispatch op_write request = queued request
dispatch op_flush request = flushed
dispatch op_other request = killed

-- `afs_map`: the sectors of the bio that are accepted, and what becomes of it.
unfoldable pub afs_map : Bool → Op → ℕ → ℕ → ℕ × Mapped
afs_map has_request op bi_sector bio_sectors =
    let accepted = accepted_sectors bi_sector bio_sectors in
    (accepted, if has_request then dispatch op (request_for bi_sector accepted) else killed)

-- The request is for the sectors from `sector` on, `count` of them, within one block.
pub record Covers (request : MapRequest) (sector count : ℕ) : Type 0 where
  pub start : 8 * request.block + request.sector_offset ≡ sector
  pub size : request.request_size ≡ 512 * count
  pub within : 512 * request.sector_offset + request.request_size ≤ 4096

accepted_sectors_lem :
    (s n : ℕ)
    → 0 < n
    → (0 < accepted_sectors s n)
      × (accepted_sectors s n + s % 8 ≤ 8)
      × ((accepted_sectors s n ≡ n)
          ⊎ (accepted_sectors s n < n) × ((s + accepted_sectors s n) % 8 ≡ 0))
unfolding accepted_sectors
accepted_sectors_lem s n k = elim (Bool-cases (ltb (8 - s % 8) n)) [
  | inl long ↦ rw long (omega arith, omega arith, inr (ground arith, omega arith))
  | inr short ↦ rw short (k, ground arith, inl refl)
]

-- A bio below 16 TiB with at least a sector: at least one sector is accepted and at most all, the bio is
-- cut only at the end of a block, and the request for a read or a write covers exactly the accepted
-- sectors within one block.
pub afs_map-Covers :
    (bi_sector bio_sectors : ℕ)
    → bi_sector < 2 ^ 35
    → 0 < bio_sectors
    → (request : MapRequest) × (afs_map true op_read bi_sector bio_sectors
        ≡ (accepted_sectors bi_sector bio_sectors, queued request))
      × (afs_map true op_write bi_sector bio_sectors
          ≡ (accepted_sectors bi_sector bio_sectors, queued request))
      × (0 < accepted_sectors bi_sector bio_sectors)
      × Covers request bi_sector (accepted_sectors bi_sector bio_sectors)
      × ((accepted_sectors bi_sector bio_sectors ≡ bio_sectors)
          ⊎ (accepted_sectors bi_sector bio_sectors < bio_sectors)
            × ((bi_sector + accepted_sectors bi_sector bio_sectors) % 8 ≡ 0))
unfolding afs_map dispatch request_for
afs_map-Covers bi_sector bio_sectors h k =
    let (some_sector, room, cut) = accepted_sectors_lem bi_sector bio_sectors k in
    (
      _,
      refl,
      refl,
      some_sector,
      record { start = omega arith; size = omega arith; within = omega arith },
      cut,
    )
