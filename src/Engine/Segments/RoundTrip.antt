-- ===== src/Engine/Segments/RoundTrip.antt =====
-- The copies of src/dm_afs_engine.c between a bio and a data block, one after the other.
use artifice.Base.{
  ℕ, ◌+◌, ◌-◌, ◌*◌, ◌≡◌, ◌≤◌, ap, arith, List, ◌++◌, ◌∙◌, sym, length, take, drop, done, memcpy,
  slice, length-memcpy, min, length-take, slice-memcpy_same, take-append, drop-append, drop-memcpy,
}
use artifice.Target.Request.{MapRequest}
use artifice.Engine.Segments.{copy_in, copy_out}
use artifice.Engine.Segments.Laws.{IsWithin, bytes_of, copy_in_lem, copy_out_lem}

take_before :
    (block : List ℕ) (off : ℕ) (bytes : List ℕ)
    → off ≤ length block
    → take off (memcpy block off bytes) ≡ take off block
unfolding memcpy
take_before block off bytes h =
    take-append off (take off block) (bytes ++ drop (off + length bytes) block)
      (omega (arith, length-take off block))

module _ (req : MapRequest) (within : IsWithin req) where
  -- A write of a request followed by a read of the same request from the data block: both copies stay
  -- inside the block, the read delivers the first bytes written, as many as the request is for, and
  -- all other bytes of the block and of the bio that is read into are kept.
  pub copy_out-copy_in :
      (block : List ℕ) (segments into : List (List ℕ))
      → length block ≡ 4096
      → req.request_size ≤ length (bytes_of segments)
      → req.request_size ≤ length (bytes_of into)
      → (block' : List ℕ) × (after : List (List ℕ)) × (copy_in req (done block) 0 segments
          ≡ done block')
        × (copy_out req block' 0 into ≡ done after)
        × (take req.request_size (bytes_of after) ≡ take req.request_size (bytes_of segments))
        × (drop req.request_size (bytes_of after) ≡ drop req.request_size (bytes_of into))
        × (take (512 * req.sector_offset) block' ≡ take (512 * req.sector_offset) block)
        × (drop (512 * req.sector_offset + req.request_size) block'
            ≡ drop (512 * req.sector_offset + req.request_size) block)
        × (length block' ≡ 4096)
  unfolding IsWithin
  copy_out-copy_in block segments into l h k =
      let base = 512 * req.sector_offset in
      let n = req.request_size in
      let bytes = take n (bytes_of segments) in
      let size : length bytes ≡ n = omega (arith, length-take n (bytes_of segments)) in
      let zeros : 512 * req.sector_offset + 0 ≡ base = omega arith in
      let whole : n - 0 ≡ n = omega arith in
      let count : min n (length (bytes_of into)) ≡ n = omega arith in
      let block' = memcpy block base bytes in
      let l' = length-memcpy block base bytes (omega arith) ∙ l in
      let (after, e1, e2, e3) = copy_out_lem req within block' 0 into l' (omega arith) in
      let wrote : copy_in req (done block) 0 segments ≡ done block' =
        copy_in_lem req within block 0 segments l (omega arith) ∙ λ i.
        done (memcpy block (zeros i) (take (whole i) (bytes_of segments))) in
      let got : bytes_of after ≡ bytes ++ drop n (bytes_of into) =
        e3
        ∙ (λ i.
            slice block' (zeros i) (min (whole i) (length (bytes_of into)))
            ++ drop (whole i) (bytes_of into))
        ∙ (λ i. slice block' base ((count ∙ sym size) i) ++ drop n (bytes_of into))
        ∙ ap (λ b. b ++ drop n (bytes_of into))
            (slice-memcpy_same block base bytes (omega arith)) in
      (
        block',
        after,
        wrote,
        e1,
        ap (take n) got ∙ take-append n bytes (drop n (bytes_of into)) size,
        ap (drop n) got ∙ drop-append n bytes (drop n (bytes_of into)) size,
        take_before block base bytes (omega arith),
        drop-memcpy block base bytes (base + n) (omega arith) (omega arith),
        l',
      )
