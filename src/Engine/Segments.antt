-- ===== src/Engine/Segments.antt =====
-- The two loops over the segments of a bio in src/dm_afs_engine.c, which `afs_write_request`,
-- `afs_read_request` and `afs_read_decode` share: between the pages of the bio and the data block of the
-- request. A segment is the list of its bytes. Lengths and offsets have 32 bits. A copy beyond the end of
-- the data block is a fault.
pub mod Laws
pub mod RoundTrip
use artifice.Base.{
  ℕ, ◌+◌, ◌-◌, ◌*◌, ◌^◌, ◌%◌, if◌then◌else◌, leb, List, [], ◌∷◌, ◌++◌, length, take, drop, Outcome,
  fault, done, memcpy, slice,
}
use artifice.Format.{sector_size}
use artifice.Target.Request.{MapRequest}

-- `req->request_size - segment_offset`
unfoldable pub remaining : ℕ → ℕ → ℕ
remaining request_size segment_offset = (request_size + 2 ^ 32 - segment_offset) % 2 ^ 32

-- `(req->sector_offset * AFS_SECTOR_SIZE) + segment_offset`
unfoldable pub block_offset : MapRequest → ℕ → ℕ
block_offset req segment_offset = (req.sector_offset * sector_size + segment_offset) % 2 ^ 32

-- `memcpy` into `data_block`.
unfoldable pub store_at : List ℕ → ℕ → List ℕ → Outcome (List ℕ)
store_at data_block off bytes =
    if leb (off + length bytes) (length data_block)
    then done (memcpy data_block off bytes)
    else fault

-- `memcpy` of the first bytes of a segment from `data_block`.
unfoldable pub load_at : List ℕ → ℕ → ℕ → List ℕ → Outcome (List ℕ)
load_at data_block off len segment =
    if leb (off + len) (length data_block)
    then done (slice data_block off len ++ drop len segment)
    else fault

module _ (req : MapRequest) where
  -- The loop of `afs_write_request`: the data block afterwards.
  unfoldable pub copy_in : Outcome (List ℕ) → ℕ → List (List ℕ) → Outcome (List ℕ)
  unfolding remaining block_offset store_at
  copy_in (done data_block) segment_offset [] = done data_block
  copy_in (done data_block) segment_offset (bv ∷ segments) =
      let left = remaining req.request_size segment_offset in
      let off = block_offset req segment_offset in
      let rest =
        copy_in (store_at data_block off bv) ((segment_offset + length bv) % 2 ^ 32) segments in
      if leb (length bv) left then rest else store_at data_block off (take left bv)
  copy_in other segment_offset segments = other

  -- One more segment in front of what the loop made of the rest.
  unfoldable pub then_segments :
      Outcome (List ℕ) → Outcome (List (List ℕ)) → Outcome (List (List ℕ))
  then_segments (done bv) (done segments) = done (bv ∷ segments)
  then_segments _ _ = fault

  -- The loop of `afs_read_request` and of `afs_read_decode`: the segments afterwards.
  unfoldable pub copy_out : List ℕ → ℕ → List (List ℕ) → Outcome (List (List ℕ))
  unfolding remaining block_offset load_at then_segments
  copy_out data_block segment_offset [] = done []
  copy_out data_block segment_offset (bv ∷ segments) =
      let left = remaining req.request_size segment_offset in
      let off = block_offset req segment_offset in
      let rest = copy_out data_block ((segment_offset + length bv) % 2 ^ 32) segments in
      if leb (length bv) left
      then then_segments (load_at data_block off (length bv) bv) rest
      else then_segments (load_at data_block off left bv) (done segments)
