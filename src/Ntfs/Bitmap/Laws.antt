-- ===== src/Ntfs/Bitmap/Laws.antt =====
-- The free list that src/modules/dm_afs_ntfs.c makes of a bitmap.
use artifice.Base.{
  ℕ, zero, suc, ◌+◌, ◌*◌, ◌%◌, ◌^◌, ◌≤◌, ◌≡◌, refl, ap, sym, arith, inl, inr, false, if◌then◌else◌,
  leb, ◌==◌, Bool-cases, List, [], ◌∷◌, ◌++◌, length, length-append, some,
}
use native.Mathlib.Nat.{zero-mul, suc-mul, add-mul}
use artifice.Ntfs.Bitmap.{bit_at, added, then_blocks, add_cluster, scan_bits, scan_bytes}

module _ (blocks_per_cluster : ℕ) where
  -- The blocks of a cluster from `block_num` on, `k` of them.
  unfoldable pub cluster_blocks : ℕ → ℕ → ℕ → List ℕ
  cluster_blocks zero cluster block_num = []
  cluster_blocks (suc k) cluster block_num =
      (cluster * blocks_per_cluster + block_num) % 2 ^ 32 ∷ cluster_blocks k cluster (suc block_num)

  -- Those of the clusters that are not in use, by byte `i` from bit `bpos` on, and by the bytes from
  -- byte `i` on.
  unfoldable pub byte_blocks : ℕ → ℕ → ℕ → ℕ → List ℕ
  unfolding cluster_blocks
  byte_blocks zero i byte bpos = []
  byte_blocks (suc k) i byte bpos =
      let rest = byte_blocks k i byte (suc bpos) in
      if bit_at byte bpos == 0
      then cluster_blocks blocks_per_cluster (i * 8 + bpos) 0 ++ rest
      else rest

  unfoldable pub bitmap_blocks : ℕ → List ℕ → List ℕ
  unfolding byte_blocks
  bitmap_blocks i [] = []
  bitmap_blocks i (byte ∷ bitmap) = byte_blocks 8 i byte 0 ++ bitmap_blocks (suc i) bitmap

-- The number of bits that are 0, from `bpos` on.
unfoldable pub zeros : ℕ → ℕ → ℕ → ℕ
zeros zero byte bpos = 0
zeros (suc k) byte bpos =
    let rest = zeros k byte (suc bpos) in if bit_at byte bpos == 0 then suc rest else rest

unfoldable pub all_zeros : List ℕ → ℕ
unfolding zeros
all_zeros [] = 0
all_zeros (byte ∷ bitmap) = zeros 8 byte 0 + all_zeros bitmap

module _ (bpc limit : ℕ) where
  length-cluster_blocks : (k cluster b : ℕ) → length (cluster_blocks bpc k cluster b) ≡ k
  unfolding cluster_blocks
  length-cluster_blocks zero cluster b = refl
  length-cluster_blocks (suc k) cluster b = ap suc (length-cluster_blocks k cluster (suc b))

  add_cluster_lem :
      (k cluster b idx : ℕ)
      → idx + k ≤ limit
      → add_cluster bpc limit k cluster b idx ≡ some (cluster_blocks bpc k cluster b)
  unfolding add_cluster cluster_blocks added
  add_cluster_lem zero cluster b idx h = refl
  add_cluster_lem (suc k) cluster b idx h =
      let f : leb limit idx ≡ false = ground arith in
      let rest = add_cluster_lem k cluster (suc b) (suc idx) (omega arith) in rw f (rw rest refl)

  scan_bits_lem :
      (k i byte bpos idx : ℕ)
      → idx + zeros k byte bpos * bpc ≤ limit
      → (scan_bits bpc limit k i byte bpos idx ≡ some (byte_blocks bpc k i byte bpos))
        × (length (byte_blocks bpc k i byte bpos) ≡ zeros k byte bpos * bpc)
  unfolding scan_bits byte_blocks zeros then_blocks added
  scan_bits_lem zero i byte bpos idx h = (refl, sym (zero-mul bpc))
  scan_bits_lem (suc k) i byte bpos idx h = elim (Bool-cases (bit_at byte bpos == 0)) [
    | inl unused ↦
        let blocks = cluster_blocks bpc bpc (i * 8 + bpos) 0 in
        let room : idx + suc (zeros k byte (suc bpos)) * bpc ≤ limit = rw unused at h in
        let more = suc-mul (zeros k byte (suc bpos)) bpc in
        let size = length-cluster_blocks bpc (i * 8 + bpos) 0 in
        let here = add_cluster_lem bpc (i * 8 + bpos) 0 idx (omega arith) in
        let (e, l) = scan_bits_lem k i byte (suc bpos) (idx + length blocks) (omega arith) in
        let both = length-append blocks (byte_blocks bpc k i byte (suc bpos)) in
        rw unused (rw (here, e) refl, omega arith)
    | inr used ↦
        let room : idx + zeros k byte (suc bpos) * bpc ≤ limit = rw used at h in
        rw used (scan_bits_lem k i byte (suc bpos) idx room)
  ]

  pub scan_bytes_lem :
      (i idx : ℕ) (bitmap : List ℕ)
      → idx + all_zeros bitmap * bpc ≤ limit
      → (scan_bytes bpc limit i bitmap idx ≡ some (bitmap_blocks bpc i bitmap))
        × (length (bitmap_blocks bpc i bitmap) ≡ all_zeros bitmap * bpc)
  unfolding scan_bytes bitmap_blocks all_zeros then_blocks added
  scan_bytes_lem i idx [] h = (refl, sym (zero-mul bpc))
  scan_bytes_lem i idx (byte ∷ bitmap) h =
      let split = add-mul (zeros 8 byte 0) (all_zeros bitmap) bpc in
      let (e, l) = scan_bits_lem 8 i byte 0 idx (omega arith) in
      let (e', l') =
        scan_bytes_lem (suc i) (idx + length (byte_blocks bpc 8 i byte 0)) bitmap (omega arith) in
      let both = length-append (byte_blocks bpc 8 i byte 0) (bitmap_blocks bpc (suc i) bitmap) in
      (rw (e, e') refl, omega arith)
