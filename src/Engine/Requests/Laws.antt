-- ===== src/Engine/Requests/Laws.antt =====
-- The checksums of the carriers in a map entry of src/dm_afs_engine.c, as `afs_write_endio` stores them and
-- `afs_read_decode` compares with them.
use native.Mathlib.Nat.{mod-lt}
use artifice.Base.{
  ℕ, suc, ◌+◌, ◌*◌, ◌^◌, ◌%◌, ◌≡◌, ◌≢◌, ◌≤◌, ◌<◌, inl, inr, arith, refl, ap, sym, ◌∙◌, true, false,
  not, ◌||◌, ◌==◌, List, [], ◌∷◌, length, slice, length-memcpy, le16_bytes, le16_at, le32_at,
  le32_at-slice, le16_at-slice, le16_at-le16_bytes, Bool-cases, ltb,
}
use artifice.Engine.Entry.{tuple_at, carrier_block_ptr, checksum_of, set_checksum}
use artifice.Engine.Entry.Laws.{Apart, slice-memcpy-Apart}
use artifice.Engine.Requests.{store_checksums, corrupted}

module _ (e : ℕ) (bytes : List ℕ) (i v : ℕ) (room : e + 6 * suc i ≤ length bytes) where
  length-set_checksum : length (set_checksum bytes e i v) ≡ length bytes
  unfolding set_checksum tuple_at le16_bytes
  length-set_checksum = length-memcpy bytes (e + 6 * i + 4) (le16_bytes v) (omega arith)

  slice-set_checksum :
      (a n : ℕ)
      → Apart (e + 6 * i + 4) 2 a n
      → slice (set_checksum bytes e i v) a n ≡ slice bytes a n
  unfolding set_checksum tuple_at le16_bytes
  slice-set_checksum a n p =
      slice-memcpy-Apart bytes (e + 6 * i + 4) (le16_bytes v) a n (omega arith) p

  checksum_place : (j : ℕ) → Apart (e + 6 * i + 4) 2 (e + 6 * j) 4
  checksum_place j = elim (Bool-cases (ltb i j)) [
    | inl less ↦ let k : i < j = ground arith in inl (omega arith)
    | inr more ↦ let k : j ≤ i = ground arith in inr (omega arith)
  ]

  checksum_other : (j : ℕ) → i ≢ j → Apart (e + 6 * i + 4) 2 (e + 6 * j + 4) 2
  checksum_other j ne = elim (Bool-cases (ltb i j)) [
    | inl less ↦ let k : i < j = ground arith in inl (omega arith)
    | inr more ↦ let k : j < i = ground arith in inr (omega arith)
  ]

  ptr-set_checksum :
      (j : ℕ) → carrier_block_ptr (set_checksum bytes e i v) e j ≡ carrier_block_ptr bytes e j
  unfolding carrier_block_ptr tuple_at
  ptr-set_checksum j =
      le32_at-slice (set_checksum bytes e i v) (e + 6 * j)
      ∙ ap (λ s. le32_at s 0) (slice-set_checksum (e + 6 * j) 4 (checksum_place j))
      ∙ sym (le32_at-slice bytes (e + 6 * j))

  checksum-set_checksum_other :
      (j : ℕ) → i ≢ j → checksum_of (set_checksum bytes e i v) e j ≡ checksum_of bytes e j
  unfolding checksum_of tuple_at
  checksum-set_checksum_other j ne =
      le16_at-slice (set_checksum bytes e i v) (e + 6 * j + 4)
      ∙ ap (λ s. le16_at s 0) (slice-set_checksum (e + 6 * j + 4) 2 (checksum_other j ne))
      ∙ sym (le16_at-slice bytes (e + 6 * j + 4))

  checksum-set_checksum : v < 2 ^ 16 → checksum_of (set_checksum bytes e i v) e i ≡ v
  unfolding checksum_of set_checksum tuple_at
  checksum-set_checksum h = le16_at-le16_bytes bytes (e + 6 * i + 4) v (omega arith) h

module _ (hash16 : List ℕ → ℕ) (e : ℕ) where
  -- After the checksums are stored, the pointers are as before, and no page that was hashed counts as
  -- corrupted.
  pub store_checksums_lem :
      (i : ℕ) (pages : List (List ℕ)) (bytes : List ℕ)
      → e + 6 * (i + length pages) ≤ length bytes
      → (length (store_checksums hash16 e i pages bytes) ≡ length bytes)
        × ((j : ℕ)
            → carrier_block_ptr (store_checksums hash16 e i pages bytes) e j
              ≡ carrier_block_ptr bytes e j)
        × ((j : ℕ)
            → j < i
            → checksum_of (store_checksums hash16 e i pages bytes) e j ≡ checksum_of bytes e j)
        × (corrupted hash16 e i pages (store_checksums hash16 e i pages bytes) ≡ false)
  unfolding store_checksums corrupted
  store_checksums_lem i [] bytes h = (refl, λ j. refl, λ j l. refl, refl)
  store_checksums_lem i (page ∷ pages) bytes h =
      let v = hash16 page % 2 ^ 16 in
      let bytes' = set_checksum bytes e i v in
      let l = length-set_checksum e bytes i v (omega arith) in
      let (same, ptrs, sums, clean) = store_checksums_lem (suc i) pages bytes' (omega arith) in
      let here =
        sums i (omega arith)
        ∙ checksum-set_checksum e bytes i v (omega arith) (mod-lt (hash16 page) (omega arith)) in
      let found : (checksum_of (store_checksums hash16 e (suc i) pages bytes') e i == v) ≡ true =
        ground (arith, here) in
      (
        same ∙ l,
        λ j. ptrs j ∙ ptr-set_checksum e bytes i v (omega arith) j,
        λ j k.
            sums j (omega arith)
            ∙ checksum-set_checksum_other e bytes i v (omega arith) j
                (λ q. absurd (omega (arith, q))),
        ap
              (λ b.
                not b
                || corrupted hash16 e (suc i) pages (store_checksums hash16 e (suc i) pages bytes'))
              found
            ∙ clean,
      )
