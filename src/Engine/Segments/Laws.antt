-- ===== src/Engine/Segments/Laws.antt =====
-- What the copies between a bio and a data block in src/dm_afs_engine.c leave behind.
use artifice.Base.{
  ℕ, ◌+◌, ◌-◌, ◌*◌, ◌%◌, ◌^◌, ◌≡◌, ◌≤◌, refl, ap, arith, true, false, leb, List, [], ◌∷◌, ◌++◌,
  Bool-cases, inl, inr, ◌∙◌, sym, length, length-append, take, drop, done, memcpy, slice,
  length-memcpy, memcpy-memcpy_next, memcpy_nothing, slice-add, take-append_short, take-append_long,
  drop-append_short, drop-append_long, min, length-take, length-drop, map, length-slice, take_all,
  drop_all,
}
use mathlib.Core.List.{append-nil, append_assoc}
use artifice.Target.Request.{MapRequest}
use artifice.Engine.Segments.{copy_in, copy_out, remaining, block_offset, store_at, then_segments}

-- The bytes of a bio.
unfoldable pub bytes_of : List (List ℕ) → List ℕ
bytes_of [] = []
bytes_of (bv ∷ segments) = bv ++ bytes_of segments

-- The request is for a range inside one block.
unfoldable pub IsWithin : MapRequest → Type 0
IsWithin req = 512 * req.sector_offset + req.request_size ≤ 4096

remaining_lem : (n off : ℕ) → n ≤ 4096 → off ≤ n → remaining n off ≡ n - off
unfolding remaining
remaining_lem n off h k = omega arith

block_offset_lem :
    (req : MapRequest) (off : ℕ)
    → 512 * req.sector_offset + off ≤ 4096
    → block_offset req off ≡ 512 * req.sector_offset + off
unfolding block_offset
block_offset_lem req off h = omega arith

store_at_lem :
    (block : List ℕ) (off : ℕ) (bytes : List ℕ)
    → off + length bytes ≤ length block
    → store_at block off bytes ≡ done (memcpy block off bytes)
unfolding store_at
store_at_lem block off bytes h =
    let t : leb (off + length bytes) (length block) ≡ true = ground arith in rw t refl

abbrev no_bytes : List ℕ
no_bytes = []

take_nothing : (n : ℕ) → take n no_bytes ≡ no_bytes
take_nothing n = take_all n no_bytes (omega arith)

drop_nothing : (n : ℕ) → drop n no_bytes ≡ no_bytes
drop_nothing n = drop_all n no_bytes (omega arith)

nothing : (block : List ℕ) (off : ℕ) → [] ≡ slice block off 0 ++ []
unfolding slice
nothing block off = refl

behind : (xs bv : List ℕ) (n : ℕ) → length bv ≤ n → xs ++ drop n bv ≡ xs
behind xs bv n h = rw (drop_all n bv h) (append-nil xs)

module _ (req : MapRequest) (within : IsWithin req) where
  -- The loop over the segments of a write is one copy of the bytes that the request is for.
  pub copy_in_lem :
      (block : List ℕ) (off : ℕ) (segments : List (List ℕ))
      → length block ≡ 4096
      → off ≤ req.request_size
      → copy_in req (done block) off segments
        ≡ done (
            memcpy block
              (512 * req.sector_offset + off)
              (take (req.request_size - off) (bytes_of segments)))
  unfolding copy_in bytes_of IsWithin
  copy_in_lem block off [] l h =
      let e = take_nothing (req.request_size - off) in rw e (ap done (sym (memcpy_nothing block _)))
  copy_in_lem block off (bv ∷ segments) l h =
      let base = 512 * req.sector_offset + off in
      let r = remaining_lem req.request_size off (omega arith) h in
      let o = block_offset_lem req off (omega arith) in
      elim (Bool-cases (leb (length bv) (req.request_size - off))) [
        | inl fits ↦
            let k : length bv ≤ req.request_size - off = ground arith in
            let wrap : (off + length bv) % 2 ^ 32 ≡ off + length bv = omega arith in
            let split : req.request_size - off
                ≡ length bv + (req.request_size - (off + length bv)) =
              omega arith in
            let next : 512 * req.sector_offset + (off + length bv) ≡ base + length bv =
              omega arith in
            let block' = memcpy block base bv in
            let same = length-memcpy block base bv (omega arith) in
            let rest = copy_in_lem block' (off + length bv) segments (same ∙ l) (omega arith) in
            rw (r, fits, o, wrap)
              (ap (λ b. copy_in req b (off + length bv) segments)
                  (store_at_lem block base bv (omega arith))
                ∙ rest
                ∙ ap done (
                    ap
                      (λ n.
                        memcpy block' n
                          (take (req.request_size - (off + length bv)) (bytes_of segments)))
                      next
                    ∙ memcpy-memcpy_next block base bv _ (omega arith)
                    ∙ ap (memcpy block base) (
                        sym (
                          take-append_long (req.request_size - (off + length bv)) bv
                            (bytes_of segments))
                        ∙ ap (λ n. take n (bv ++ bytes_of segments)) (sym split))))
        | inr more ↦
            let k : req.request_size - off ≤ length bv = ground arith in
            let t = length-take (req.request_size - off) bv in
            rw (r, more, o)
              (store_at_lem block base (take (req.request_size - off) bv) (omega arith)
                ∙ ap (λ b. done (memcpy block base b))
                    (sym (take-append_short (req.request_size - off) bv (bytes_of segments) k)))
      ]

  -- What a read of a data block makes of the segments from `off` on.
  abbrev pub CopiedOut : List ℕ → ℕ → List (List ℕ) → Type 0
  CopiedOut block off segments =
      (after : List (List ℕ)) × (copy_out req block off segments ≡ done after)
      × (map length after ≡ map length segments)
      × (bytes_of after
          ≡ slice block (512 * req.sector_offset + off)
              (min (req.request_size - off) (length (bytes_of segments)))
            ++ drop (req.request_size - off) (bytes_of segments))

  copy_out_fits :
      (block : List ℕ) (off : ℕ) (bv : List ℕ) (segments : List (List ℕ))
      → length block ≡ 4096
      → off ≤ req.request_size
      → length bv ≤ req.request_size - off
      → CopiedOut block (off + length bv) segments
      → CopiedOut block off (bv ∷ segments)
  unfolding copy_out bytes_of IsWithin then_segments
  copy_out_fits block off bv segments l h k (after, e1, e2, e3) =
      let base = 512 * req.sector_offset + off in
      let r = remaining_lem req.request_size off (omega arith) h in
      let o = block_offset_lem req off (omega arith) in
      let total = length-append bv (bytes_of segments) in
      let fits : leb (length bv) (req.request_size - off) ≡ true = ground arith in
      let wrap : (off + length bv) % 2 ^ 32 ≡ off + length bv = omega arith in
      let next : 512 * req.sector_offset + (off + length bv) ≡ base + length bv = omega arith in
      let n = min (req.request_size - (off + length bv)) (length (bytes_of segments)) in
      let count : min (req.request_size - off) (length (bv ++ bytes_of segments)) ≡ length bv + n =
        omega arith in
      let split : req.request_size - off ≡ length bv + (req.request_size - (off + length bv)) =
        omega arith in
      let size = length-slice block base (length bv) (omega arith) in
      let inside : leb (base + length bv) (length block) ≡ true = ground arith in
      let left = drop (req.request_size - (off + length bv)) (bytes_of segments) in
      (
        slice block base (length bv) ∷ after,
        rw (r, fits, o, wrap)
            (rw inside (
                ap (λ s. then_segments req (done s) (copy_out req block (off + length bv) segments))
                  (behind (slice block base (length bv)) bv (length bv) (omega arith)))
              ∙ ap (then_segments req (done (slice block base (length bv)))) e1),
        λ i. size i ∷ e2 i,
        ap (λ k. slice block base (length bv) ++ k) e3
            ∙ ap (λ k. slice block base (length bv) ++ (slice block k n ++ left)) next
            ∙ sym (
                append_assoc (slice block base (length bv)) (slice block (base + length bv) n) left)
            ∙ ap (λ k. k ++ left) (sym (slice-add block base (length bv) n))
            ∙ ap (λ k. slice block base (length bv + n) ++ k)
                (sym
                  (drop-append_long (req.request_size - (off + length bv)) bv (bytes_of segments)))
            ∙ λ i. slice block base (sym count i) ++ drop (sym split i) (bv ++ bytes_of segments),
      )

  copy_out_last :
      (block : List ℕ) (off : ℕ) (bv : List ℕ) (segments : List (List ℕ))
      → length block ≡ 4096
      → off ≤ req.request_size
      → leb (length bv) (req.request_size - off) ≡ false
      → CopiedOut block off (bv ∷ segments)
  unfolding copy_out bytes_of IsWithin then_segments
  copy_out_last block off bv segments l h more =
      let base = 512 * req.sector_offset + off in
      let n = req.request_size - off in
      let k : n ≤ length bv = ground arith in
      let r = remaining_lem req.request_size off (omega arith) h in
      let o = block_offset_lem req off (omega arith) in
      let total = length-append bv (bytes_of segments) in
      let count : min n (length (bv ++ bytes_of segments)) ≡ n = omega arith in
      let inside : leb (base + n) (length block) ≡ true = ground arith in
      let copied = slice block base n in
      let size : length (copied ++ drop n bv) ≡ length bv = omega (
        arith,
        length-append copied (drop n bv),
        length-drop n bv,
        length-slice block base n (omega arith),
      ) in
      (
        (copied ++ drop n bv) ∷ segments,
        rw (r, more, o, inside) refl,
        λ i. size i ∷ map length segments,
        append_assoc copied (drop n bv) (bytes_of segments)
            ∙ ap (λ k. copied ++ k) (sym (drop-append_short n bv (bytes_of segments) k))
            ∙ λ i. slice block base (sym count i) ++ drop n (bv ++ bytes_of segments),
      )

  -- The loop over the segments of a read changes the bytes that the request is for, and keeps the
  -- lengths of the segments.
  pub copy_out_lem :
      (block : List ℕ) (off : ℕ) (segments : List (List ℕ))
      → length block ≡ 4096
      → off ≤ req.request_size
      → CopiedOut block off segments
  unfolding copy_out bytes_of
  copy_out_lem block off [] l h =
      let e = drop_nothing (req.request_size - off) in
      let m : min (req.request_size - off) 0 ≡ 0 = omega arith in
      ([], refl, refl, rw (e, m) (nothing block (512 * req.sector_offset + off)))
  copy_out_lem block off (bv ∷ segments) l h =
      elim (Bool-cases (leb (length bv) (req.request_size - off))) [
        | inl fits ↦
            let k : length bv ≤ req.request_size - off = ground arith in
            copy_out_fits block off bv segments l h k
              (copy_out_lem block (off + length bv) segments l (omega arith))
        | inr more ↦ copy_out_last block off bv segments l h more
      ]
