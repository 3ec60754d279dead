-- ===== src/Ext4/Bits.antt =====
-- What the vector of src/modules/dm_afs_ext4.c holds when a bitmap is read, bit by bit.
use artifice.Base.{
  ℕ, zero, suc, ◌+◌, ◌/◌, ◌≤◌, ◌<◌, ◌≡◌, refl, ap, ◌∙◌, arith, inl, inr, Bool, true, false, ◌&&◌,
  ◌||◌, if◌then◌else◌, leb, ltb, ◌==◌, Bool-cases, List, length, Option, done,
}
use native.Mathlib.Decide.{dec_lt}
use artifice.BitVector.{BitVector, set}
use artifice.BitVector.Laws.{bit, Covers, set_lem, out_of_range}
use artifice.Ext4.{Ext4Disk}
use artifice.Ext4.Bitmap.{
  is_used, has_backups, descriptor_blocks, mark_used, set_range, mark_backups, bitmap_page,
  read_bitmap,
}
use artifice.Kernel.{BitOps, Device}

-- Position `x` is one of the `n` from `j` on.
abbrev pub within : ℕ → ℕ → ℕ → Bool
within j n x = leb j x && ltb x (j + n)

within_step :
    (j n x : ℕ) (b : Bool)
    → (within (suc j) n x || (if j == x then true else b)) ≡ (within j (suc n) x || b)
within_step j n x true = ground arith
within_step j n x false = ground arith

module _ (p : ℕ → Bool) (i k x : ℕ) where
  used_step :
      (b : Bool)
      → p i ≡ true
      → (within (suc i) k x && p x || (if i == x then true else b))
        ≡ (within i (suc k) x && p x || b)
  used_step b h = elim (Bool-cases (i == x)) [
    | inl same ↦
        let e : i ≡ x = ground arith in
        let q : p x ≡ true = rw e at h in
        let f : within i (suc k) x ≡ true = ground arith in
        let g : within (suc i) k x ≡ false = ground arith in rw (same, q, f, g) refl
    | inr other ↦
        let f : within i (suc k) x ≡ within (suc i) k x = ground arith in rw (other, f) refl
  ]

  unused_step :
      (b : Bool) → p i ≡ false → (within (suc i) k x && p x || b) ≡ (within i (suc k) x && p x || b)
  unused_step b h = elim (Bool-cases (i == x)) [
    | inl same ↦
        let e : i ≡ x = ground arith in
        let q : p x ≡ false = rw e at h in
        let f : within i (suc k) x ≡ true = ground arith in
        let g : within (suc i) k x ≡ false = ground arith in rw (q, f, g) refl
    | inr other ↦ let f : within i (suc k) x ≡ within (suc i) k x = ground arith in rw f refl
  ]

or_false : (p : Bool) → (p || false) ≡ p
or_false true = refl
or_false false = refl

inside_step : (n x : ℕ) (p b : Bool) → x < n → b ≡ false → (within 0 n x && p || b) ≡ p
inside_step n x p b h e = let f : within 0 n x ≡ true = ground arith in rw (f, e) (or_false p)

not_ltb : (a b : ℕ) → b ≤ a → ltb a b ≡ false
not_ltb a b h = ground arith

backups_step :
    (m r x : ℕ) (b : Bool)
    → (within (1 + m) r x || (within 1 m x || (if 0 == x then true else b)))
      ≡ (ltb x (1 + m + r) || b)
backups_step m r x true = ground arith
backups_step m r x false = ground arith

-- A block of a group is in use: by the bitmap, or for a backup.
unfoldable pub is_taken : Ext4Disk → List ℕ → ℕ → ℕ → Bool
is_taken d page i j =
    d.is_sparse_super && has_backups i && ltb j (1 + descriptor_blocks d + d.reserved_gdt_blocks)
    || is_used page j

module _ (ops : BitOps) (n : ℕ) where
  open ops use {Memory}

  -- One call, also where it is refused.
  set_any :
      (v : Option (BitVector Memory)) (j : ℕ)
      → Covers ops v n
      → Covers ops (set ops v j).1 n
        × ((x : ℕ) → x ≤ n → bit ops (set ops v j).1 x ≡ (if j == x then true else bit ops v x))
  set_any v j c = elim (dec_lt n j) [
    | yes p ↦
        let e = (out_of_range ops v n j c p).0 in
        (rw e c, λ x h. let f : (j == x) ≡ false = ground arith in rw (e, f) refl)
    | no p ↦ let (s, k, b) = set_lem ops v n j c (omega arith) in (k, λ x h. b x)
  ]

  set_range_lem :
      (k j : ℕ) (v : Option (BitVector Memory))
      → Covers ops v n
      → Covers ops (set_range ops k j v) n
        × ((x : ℕ) → x ≤ n → bit ops (set_range ops k j v) x ≡ (within j k x || bit ops v x))
  unfolding set_range
  set_range_lem zero j v c = (c, λ x h. let f : within j 0 x ≡ false = ground arith in rw f refl)
  set_range_lem (suc k) j v c =
      let (c', b) = set_any v j c in
      let (c'', b') = set_range_lem k (suc j) (set ops v j).1 c' in
      (
        c'',
        λ x h. b' x h ∙ ap (λ y. within (suc j) k x || y) (b x h) ∙ within_step j k x (bit ops v x),
      )

  mark_used_lem :
      (buf : List ℕ) (k i : ℕ) (v : Option (BitVector Memory))
      → Covers ops v n
      → i + k ≤ 32768
      → i + k ≤ n
      → (w : Option (BitVector Memory)) × (mark_used ops buf k i v ≡ done w)
        × Covers ops w n
        × ((x : ℕ) → bit ops w x ≡ (within i k x && is_used buf x || bit ops v x))
  unfolding mark_used
  mark_used_lem buf zero i v c small h =
      (v, refl, c, λ x. let f : within i 0 x ≡ false = ground arith in rw f refl)
  mark_used_lem buf (suc k) i v c small h =
      let f : leb 4096 (i / 8) ≡ false = ground arith in
      elim (Bool-cases (is_used buf i)) [
        | inl used ↦
            let (s, c', b) = set_lem ops v n i c (omega arith) in
            let (w, e, c'', b') =
              mark_used_lem buf k (suc i) (set ops v i).1 c' (omega arith) (omega arith) in
            (
              w,
              rw (f, used) e,
              c'',
              λ x.
                  b' x
                  ∙ ap (λ y. within (suc i) k x && is_used buf x || y) (b x)
                  ∙ used_step (is_used buf) i k x (bit ops v x) used,
            )
        | inr unused ↦
            let (w, e, c'', b') = mark_used_lem buf k (suc i) v c (omega arith) (omega arith) in
            (
              w,
              rw (f, unused) e,
              c'',
              λ x. b' x ∙ unused_step (is_used buf) i k x (bit ops v x) unused,
            )
      ]

  mark_backups_lem :
      (d : Ext4Disk) (i : ℕ) (v : Option (BitVector Memory))
      → Covers ops v n
      → Covers ops (mark_backups ops d i v) n
        × ((x : ℕ)
            → x ≤ n
            → bit ops (mark_backups ops d i v) x ≡ (
                d.is_sparse_super
                  && has_backups i
                  && ltb x (1 + descriptor_blocks d + d.reserved_gdt_blocks)
                || bit ops v x))
  unfolding mark_backups
  mark_backups_lem d i v c = elim (Bool-cases (d.is_sparse_super && has_backups i)) [
    | inl backups ↦
        let (c', b) = set_any v 0 c in
        let (c'', b') = set_range_lem (descriptor_blocks d) 1 (set ops v 0).1 c' in
        let m = descriptor_blocks d in
        let r = d.reserved_gdt_blocks in
        let w = set_range ops (descriptor_blocks d) 1 (set ops v 0).1 in
        let (c3, b3) = set_range_lem d.reserved_gdt_blocks (1 + descriptor_blocks d) w c'' in
        rw backups (
          c3,
          λ x h.
              b3 x h
              ∙ ap (λ y. within (1 + m) r x || y) (b' x h)
              ∙ ap (λ y. within (1 + m) r x || (within 1 m x || y)) (b x h)
              ∙ backups_step m r x (bit ops v x),
        )
    | inr plain ↦ rw plain (c, λ x h. refl)
  ]

module _ (ops : BitOps) (device : Device) (has_bio : ℕ → Bool) where
  -- A group that starts with a clear vector: the bits are those of the blocks that are in use.
  pub read_bitmap_lem :
      (is_64bit : Bool) (d : Ext4Disk) (gd : List ℕ) (i : ℕ) (v : Option (BitVector (ops.Memory)))
      (disk : device.Disk)
      → (if is_64bit then 36 else 4) ≤ length gd
      → d.blks_per_grp ≤ 32768
      → Covers ops v d.blks_per_grp
      → ((x : ℕ) → x < d.blks_per_grp → bit ops v x ≡ false)
      → (w : Option (BitVector (ops.Memory))) × (read_bitmap ops device has_bio is_64bit d gd i v
            disk
          ≡ done w)
        × Covers ops w d.blks_per_grp
        × ((x : ℕ)
            → x < d.blks_per_grp
            → bit ops w x ≡ is_taken d (bitmap_page device has_bio is_64bit gd i disk) i x)
  unfolding read_bitmap is_taken
  read_bitmap_lem is_64bit d gd i v disk enough small c unset =
      let page = bitmap_page device has_bio is_64bit gd i disk in
      let f : ltb (length gd) (if is_64bit then 36 else 4) ≡ false = not_ltb _ _ enough in
      let (w, e, c', b) =
        mark_used_lem ops d.blks_per_grp page d.blks_per_grp 0 v c (omega arith) (omega arith) in
      let (c'', b') = mark_backups_lem ops d.blks_per_grp d i w c' in
      (
        mark_backups ops d i w,
        rw (f, e) refl,
        c'',
        λ x h.
            b' x (omega arith)
            ∙ ap
                (λ y.
                  d.is_sparse_super
                    && has_backups i
                    && ltb x (1 + descriptor_blocks d + d.reserved_gdt_blocks)
                  || y)
                (b x ∙ inside_step d.blks_per_grp x (is_used page x) (bit ops v x) h (unset x h)),
      )
