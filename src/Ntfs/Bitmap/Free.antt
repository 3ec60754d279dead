-- ===== src/Ntfs/Bitmap/Free.antt =====
-- Which blocks stand in the free list that src/modules/dm_afs_ntfs.c makes of a bitmap.
use artifice.Base.{
  ℕ, zero, suc, ◌+◌, ◌*◌, ◌%◌, ◌^◌, ◌≤◌, ◌<◌, ◌≡◌, refl, ap, sym, ◌∙◌, arith, inl, inr, true, false,
  ◌==◌, Bool-cases, List, [], ◌∷◌, length, get_or, some, Among, Among-append, Among-append_left,
  Among-append_right,
}
use native.Mathlib.Decide.{dec_lt}
use native.Mathlib.Nat.{zero-mul}
use artifice.Ntfs.Bitmap.{FreeBlocks, bit_at, count_unused, handed_over, extract_bitmap}
use artifice.Ntfs.Bitmap.Laws.{
  cluster_blocks, byte_blocks, bitmap_blocks, zeros, all_zeros, scan_bytes_lem,
}

-- Block `x` is block `offset` of the cluster of bit `bpos` of byte `i`.
abbrev IsBlockOf : ℕ → ℕ → ℕ → ℕ → ℕ → Type 0
IsBlockOf bpc i bpos offset x = (offset < bpc) × (x ≡ ((i * 8 + bpos) * bpc + offset) % 2 ^ 32)

-- A block of a cluster that the bitmap, whose first byte is byte `start`, says is not in use.
pub record IsFree (bpc start : ℕ) (bitmap : List ℕ) (x : ℕ) : Type 0 where
  pub index : ℕ
  pub bpos : ℕ
  pub offset : ℕ
  pub inside : index < length bitmap
  pub in_byte : bpos < 8
  pub unused : bit_at (get_or bitmap index 0) bpos ≡ 0
  pub block : IsBlockOf bpc (start + index) bpos offset x

module _ (bpc : ℕ) where
  cluster_blocks_sound :
      (k c b x : ℕ)
      → Among x (cluster_blocks bpc k c b)
      → (j : ℕ) × (j < b + k) × (x ≡ (c * bpc + j) % 2 ^ 32)
  unfolding cluster_blocks
  cluster_blocks_sound zero c b x a = absurd a
  cluster_blocks_sound (suc k) c b x (inl e) = (b, omega arith, e)
  cluster_blocks_sound (suc k) c b x (inr a) =
      let (j, h, e) = cluster_blocks_sound k c (suc b) x a in (j, omega arith, e)

  cluster_blocks_complete :
      (k c b j : ℕ) → b ≤ j → j < b + k → Among ((c * bpc + j) % 2 ^ 32) (cluster_blocks bpc k c b)
  unfolding cluster_blocks
  cluster_blocks_complete zero c b j h l = absurd (omega arith)
  cluster_blocks_complete (suc k) c b j h l = elim (dec_lt b j) [
    | yes p ↦ inr (cluster_blocks_complete k c (suc b) j (omega arith) (omega arith))
    | no p ↦ inl (let e : j ≡ b = omega arith in ap (λ n. (c * bpc + n) % 2 ^ 32) e)
  ]

  byte_blocks_sound :
      (k i byte b x : ℕ)
      → Among x (byte_blocks bpc k i byte b)
      → (bpos : ℕ) × (j : ℕ) × (bpos < b + k) × (bit_at byte bpos ≡ 0) × IsBlockOf bpc i bpos j x
  unfolding byte_blocks
  byte_blocks_sound zero i byte b x a = absurd a
  byte_blocks_sound (suc k) i byte b x a = elim (Bool-cases (bit_at byte b == 0)) [
    | inl unused ↦
        elim (Among-append x (cluster_blocks bpc bpc (i * 8 + b) 0)
          (byte_blocks bpc k i byte (suc b)) (rw unused at a)) [
            | inl here ↦
                let (j, h, e) = cluster_blocks_sound bpc (i * 8 + b) 0 x here in
                (b, j, omega arith, ground arith, (omega arith, e))
            | inr later ↦
                let (bpos, j, h, u, e) = byte_blocks_sound k i byte (suc b) x later in
                (bpos, j, omega arith, u, e)
          ]
    | inr used ↦
        let (bpos, j, h, u, e) = byte_blocks_sound k i byte (suc b) x (rw used at a) in
        (bpos, j, omega arith, u, e)
  ]

  byte_blocks_complete :
      (k i byte b bpos j x : ℕ)
      → b ≤ bpos
      → bpos < b + k
      → bit_at byte bpos ≡ 0
      → IsBlockOf bpc i bpos j x
      → Among x (byte_blocks bpc k i byte b)
  unfolding byte_blocks
  byte_blocks_complete zero i byte b bpos j x h l u e = absurd (omega arith)
  byte_blocks_complete (suc k) i byte b bpos j x h l u (m, e) = elim (dec_lt b bpos) [
    | yes p ↦
        let rest =
          byte_blocks_complete k i byte (suc b) bpos j x (omega arith) (omega arith) u (m, e) in
        elim (Bool-cases (bit_at byte b == 0)) [
          | inl unused ↦ rw unused (
              Among-append_right x (cluster_blocks bpc bpc (i * 8 + b) 0)
                (byte_blocks bpc k i byte (suc b)) rest)
          | inr used ↦ rw used rest
        ]
    | no p ↦
        let same : bpos ≡ b = omega arith in
        let unused : (bit_at byte b == 0) ≡ true =
          let z = ap (bit_at byte) (sym same) ∙ u in ground (arith, z) in
        let e' = e ∙ ap (λ n. ((i * 8 + n) * bpc + j) % 2 ^ 32) same in
        rw unused (
          Among-append_left x (cluster_blocks bpc bpc (i * 8 + b) 0)
            (byte_blocks bpc k i byte (suc b))
            (rw e' (cluster_blocks_complete bpc (i * 8 + b) 0 j (omega arith) (omega arith))))
  ]

  bitmap_blocks_sound :
      (i : ℕ) (bitmap : List ℕ) (x : ℕ)
      → Among x (bitmap_blocks bpc i bitmap)
      → IsFree bpc i bitmap x
  unfolding bitmap_blocks
  bitmap_blocks_sound i [] x a = absurd a
  bitmap_blocks_sound i (byte ∷ bitmap) x a =
      elim (Among-append x (byte_blocks bpc 8 i byte 0) (bitmap_blocks bpc (suc i) bitmap) a) [
        | inl here ↦
            let (bpos, j, h, u, (m, e)) = byte_blocks_sound 8 i byte 0 x here in
            let z : i ≡ i + 0 = omega arith in
            record {
              index = 0;
              bpos = bpos;
              offset = j;
              inside = omega arith;
              in_byte = omega arith;
              unused = u;
              block = (m, e ∙ ap (λ n. ((n * 8 + bpos) * bpc + j) % 2 ^ 32) z);
            }
        | inr later ↦
            let f = bitmap_blocks_sound (suc i) bitmap x later in
            let z : suc i + f.index ≡ i + suc f.index = omega arith in
            let (m, e) = f.block in
            record {
              index = suc f.index;
              bpos = f.bpos;
              offset = f.offset;
              inside = omega (arith, f.inside);
              in_byte = f.in_byte;
              unused = f.unused;
              block = (m, e ∙ ap (λ n. ((n * 8 + f.bpos) * bpc + f.offset) % 2 ^ 32) z);
            }
      ]

  bitmap_blocks_complete :
      (i : ℕ) (bitmap : List ℕ) (x index bpos offset : ℕ)
      → index < length bitmap
      → bpos < 8
      → bit_at (get_or bitmap index 0) bpos ≡ 0
      → IsBlockOf bpc (i + index) bpos offset x
      → Among x (bitmap_blocks bpc i bitmap)
  unfolding bitmap_blocks
  bitmap_blocks_complete i [] x index bpos offset h k u b = absurd (omega arith)
  bitmap_blocks_complete i (byte ∷ bitmap) x zero bpos offset h k u (m, e) =
      let z : i + 0 ≡ i = omega arith in
      Among-append_left x (byte_blocks bpc 8 i byte 0) (bitmap_blocks bpc (suc i) bitmap) (
        byte_blocks_complete 8 i byte 0 bpos offset x (omega arith) (omega arith) u
          (m, e ∙ ap (λ n. ((n * 8 + bpos) * bpc + offset) % 2 ^ 32) z))
  bitmap_blocks_complete i (byte ∷ bitmap) x (suc index) bpos offset h k u (m, e) =
      let z : i + suc index ≡ suc i + index = omega arith in
      Among-append_right x (byte_blocks bpc 8 i byte 0) (bitmap_blocks bpc (suc i) bitmap) (
        bitmap_blocks_complete (suc i) bitmap x index bpos offset (omega arith) k u
          (m, e ∙ ap (λ n. ((n * 8 + bpos) * bpc + offset) % 2 ^ 32) z))

abbrev pub AreBytes : List ℕ → Type 0
AreBytes [] = Unit {0}
AreBytes (b ∷ bs) = (b < 2 ^ 8) × AreBytes bs

-- `hweight8` counts the bits of a byte that are set.
abbrev pub Counts : (ℕ → ℕ) → Type 0
Counts hweight8 = (byte : ℕ) → byte < 2 ^ 8 → hweight8 byte + zeros 8 byte 0 ≡ 8

count_unused_lem :
    (hweight8 : ℕ → ℕ) (bitmap : List ℕ)
    → Counts hweight8
    → AreBytes bitmap
    → count_unused hweight8 bitmap ≡ all_zeros bitmap
unfolding count_unused all_zeros
count_unused_lem hweight8 [] counts bytes = refl
count_unused_lem hweight8 (byte ∷ bitmap) counts (b, bytes) =
    omega (arith, counts byte b, count_unused_lem hweight8 bitmap counts bytes)

-- Where the bitmap leaves a cluster free, clusters have a block, and `hweight8` counts, the loops never
-- overrun the list, and the list holds exactly the blocks of the clusters that the bitmap says are not in
-- use. Its length is the number of these clusters times the blocks of a cluster, but only the number of
-- clusters is handed over, so that for clusters of several blocks the rest of the list is never used.
pub extract_bitmap_lem :
    (hweight8 : ℕ → ℕ) (bpc : ℕ) (bitmap : List ℕ)
    → Counts hweight8
    → AreBytes bitmap
    → 0 < count_unused hweight8 bitmap * bpc
    → (r : FreeBlocks) × (extract_bitmap true hweight8 bpc bitmap ≡ some r)
      × ((x : ℕ) → Among x r.empty_blocks → IsFree bpc 0 bitmap x)
      × ((x : ℕ) → IsFree bpc 0 bitmap x → Among x r.empty_blocks)
      × (length r.empty_blocks ≡ count_unused hweight8 bitmap * bpc)
      × (r.num_empty_afs_blocks ≡ count_unused hweight8 bitmap % 2 ^ 32)
unfolding extract_bitmap handed_over count_unused
extract_bitmap_lem hweight8 bpc [] counts bytes room = let z = zero-mul bpc in absurd (omega arith)
extract_bitmap_lem hweight8 bpc (byte ∷ bitmap) counts bytes room =
    let total = count_unused hweight8 (byte ∷ bitmap) in
    let e = count_unused_lem hweight8 (byte ∷ bitmap) counts bytes in
    let limit = total * bpc in
    let f : (limit == 0) ≡ false = ground arith in
    let same : all_zeros (byte ∷ bitmap) * bpc ≡ limit = ap (λ n. n * bpc) (sym e) in
    let (found, size) = scan_bytes_lem bpc limit 0 0 (byte ∷ bitmap) (omega arith) in
    (
      record {
        empty_blocks = bitmap_blocks bpc 0 (byte ∷ bitmap);
        num_empty_afs_blocks = total % 2 ^ 32;
      },
      rw f (ap (handed_over total) found),
      bitmap_blocks_sound bpc 0 (byte ∷ bitmap),
      λ x r.
          bitmap_blocks_complete bpc 0 (byte ∷ bitmap) x r.index r.bpos r.offset r.inside r.in_byte
            r.unused r.block,
      size ∙ same,
      refl,
    )
