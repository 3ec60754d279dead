-- ===== src/Ext4/Free.antt =====
-- Which blocks stand in the free list that src/modules/dm_afs_ext4.c makes of the bitmaps.
use artifice.Base.{
  ℕ, zero, suc, ◌+◌, ◌%◌, ◌^◌, ◌≤◌, ◌<◌, ◌≡◌, refl, sym, ap, ◌∙◌, arith, inl, inr, Bool, true,
  false, not, if◌then◌else◌, leb, ltb, ◌==◌, Bool-cases, List, [], ◌∷◌, ◌++◌, length, get_or,
  get_elem?-eq-get_or, Option, Outcome, fault, done,
}
use mathlib.Core.Path.{fun_ext}
use artifice.Allocation.{PassiveFs}
use artifice.BitVector.{BitVector, create, clear, get}
use artifice.BitVector.Laws.{bit, Covers, create-Covers, clear_lem, get_lem}
use artifice.Ext4.{Ext4Disk}
use artifice.Ext4.Bitmap.{bitmap_page}
use artifice.Ext4.Bits.{is_taken, read_bitmap_lem}
use artifice.Ext4.Descriptors.{in_front}
use artifice.Ext4.Groups.{
  total_offset, is_zero, store_offset, scan_group, scan_groups, hand_over, read_bitmaps,
}
use artifice.Kernel.{BitOps, Device}

-- The blocks of group `i` that `taken` does not hold of, `n` from block `j` on, in their order.
unfoldable pub group_blocks : Ext4Disk → (ℕ → Bool) → ℕ → ℕ → ℕ → List ℕ
group_blocks d taken i zero j = []
group_blocks d taken i (suc n) j =
    let rest = group_blocks d taken i n (suc j) in
    if taken j
    then rest
    else if ltb (total_offset d i j) (2 ^ 32)
    then total_offset d i j ∷ rest
    else rest

group_blocks_congr :
    (d : Ext4Disk) (f g : ℕ → Bool) (i n j : ℕ)
    → ((x : ℕ) → j ≤ x → x < j + n → f x ≡ g x)
    → group_blocks d f i n j ≡ group_blocks d g i n j
unfolding group_blocks
group_blocks_congr d f g i zero j h = refl
group_blocks_congr d f g i (suc n) j h =
    let rest = group_blocks_congr d f g i n (suc j) (λ x l m. h x (omega arith) (omega arith)) in
    rw (h j (omega arith) (omega arith), rest) refl

-- Writing blocks into a list with room for `capacity`, from index `k` on.
unfoldable push : ℕ → ℕ → List ℕ → (ℕ → Outcome (List ℕ)) → Outcome (List ℕ)
push capacity k [] next = next k
push capacity k (x ∷ xs) next =
    if ltb k capacity then in_front (x ∷ []) (push capacity (suc k) xs next) else fault

push-append :
    (capacity k : ℕ) (xs ys : List ℕ) (next : ℕ → Outcome (List ℕ))
    → push capacity k (xs ++ ys) next ≡ push capacity k xs (λ k'. push capacity k' ys next)
unfolding push
push-append capacity k [] ys next = refl
push-append capacity k (x ∷ xs) ys next = rw (push-append capacity (suc k) xs ys next) refl

push_end :
    (capacity k : ℕ) (xs : List ℕ)
    → k ≤ capacity
    → push capacity k xs (λ _. done []) ≡ (if leb (k + length xs) capacity then done xs else fault)
unfolding push in_front
push_end capacity k [] h = let f : leb (k + 0) capacity ≡ true = ground arith in rw f refl
push_end capacity k (x ∷ xs) h = elim (Bool-cases (ltb k capacity)) [
  | inl room ↦
      let e : k + suc (length xs) ≡ suc k + length xs = omega arith in
      elim (Bool-cases (leb (suc k + length xs) capacity)) [
        | inl fits ↦ rw (room, push_end capacity (suc k) xs (ground arith), e, fits) refl
        | inr over ↦ rw (room, push_end capacity (suc k) xs (ground arith), e, over) refl
      ]
  | inr full ↦
      let f : leb (k + suc (length xs)) capacity ≡ false = ground arith in rw (full, f) refl
]

hand_over_lem :
    (fs : PassiveFs) (blocks : List ℕ) (capacity : ℕ)
    → capacity < 2 ^ 32
    → hand_over true fs (if leb (0 + length blocks) capacity then done blocks else fault) ≡ (
        if leb (length blocks) capacity
        then done (record fs { block_list = blocks; list_len = length blocks })
        else fault)
unfolding hand_over
hand_over_lem fs [] capacity h = let f : leb (0 + 0) capacity ≡ true = ground arith in rw f refl
hand_over_lem fs (x ∷ xs) capacity h =
    let z : 0 + suc (length xs) ≡ suc (length xs) = omega arith in
    elim (Bool-cases (leb (suc (length xs)) capacity)) [
      | inl fits ↦
          let m : suc (length xs) % 2 ^ 32 ≡ suc (length xs) = ground arith in
          let s : (suc (length xs) == 0) ≡ false = ground arith in rw (z, fits) (rw m (rw s refl))
      | inr over ↦ rw (z, over) refl
    ]

module _ (ops : BitOps) (device : Device) (has_bio : ℕ → Bool) where
  open ops use {Memory}

  clear_range : ℕ → ℕ → Option (BitVector Memory) → Option (BitVector Memory)
  clear_range zero j v = v
  clear_range (suc n) j v = clear_range n (suc j) (clear ops v j).1

  clear_range_lem :
      (n j size : ℕ) (v : Option (BitVector Memory))
      → Covers ops v size
      → j + n ≤ size
      → Covers ops (clear_range n j v) size
        × ((x : ℕ) → x < j → bit ops v x ≡ false → bit ops (clear_range n j v) x ≡ false)
        × ((x : ℕ) → j ≤ x → x < j + n → bit ops (clear_range n j v) x ≡ false)
  unfolding clear_range
  clear_range_lem zero j size v c h = (c, λ x l b. b, λ x l m. absurd (omega arith))
  clear_range_lem (suc n) j size v c h =
      let (s, c', b) = clear_lem ops v size j c (omega arith) in
      let (c'', below, inside) =
        clear_range_lem n (suc j) size (clear ops v j).1 c' (omega arith) in
      (
        c'',
        λ x l e.
            below x (omega arith) (let f : (j == x) ≡ false = ground arith in b x ∙ rw (f, e) refl),
        λ x l m. elim (Bool-cases (j == x)) [
          | inl same ↦ below x (ground arith) (b x ∙ rw same refl)
          | inr other ↦ inside x (ground arith) (omega arith)
        ],
      )

  is_zero_lem :
      (v : Option (BitVector Memory)) (size j : ℕ)
      → Covers ops v size
      → j ≤ size
      → is_zero (get ops v j) ≡ not (bit ops v j)
  unfolding is_zero
  is_zero_lem v size j c h = elim (Bool-cases (bit ops v j)) [
    | inl t ↦ rw (get_lem ops v size j c h, t) refl
    | inr f ↦ rw (get_lem ops v size j c h, f) refl
  ]

  scan_group_lem :
      (d : Ext4Disk) (i n j size k : ℕ) (v : Option (BitVector Memory))
      (next : Option (BitVector Memory) → ℕ → Outcome (List ℕ))
      → Covers ops v size
      → j + n ≤ size
      → scan_group ops device has_bio d i n j v k next
        ≡ push d.free_block_count k (group_blocks d (bit ops v) i n j) (next (clear_range n j v))
  unfolding scan_group push group_blocks clear_range store_offset
  scan_group_lem d i zero j size k v next c h = refl
  scan_group_lem d i (suc n) j size k v next c h =
      let (s, c', b) = clear_lem ops v size j c (omega arith) in
      let v' = (clear ops v j).1 in
      let ih = λ (k' : ℕ). scan_group_lem d i n (suc j) size k' v' next c' (omega arith) in
      let same =
        group_blocks_congr d (bit ops v') (bit ops v) i n (suc j)
          (λ x l m. let f : (j == x) ≡ false = ground arith in b x ∙ rw f refl) in
      let z = is_zero_lem v size j c (omega arith) in
      elim (Bool-cases (bit ops v j)) [
        | inl taken ↦ rw (z, taken) (ih k ∙ rw same refl)
        | inr free ↦ elim (Bool-cases (ltb (total_offset d i j) (2 ^ 32))) [
          | inl fits ↦ elim (Bool-cases (ltb k d.free_block_count)) [
            | inl room ↦
                rw (z, free, fits, room)
                  (ap (in_front (total_offset d i j ∷ [])) (ih (suc k) ∙ rw same refl))
            | inr full ↦ rw (z, free, fits, full) refl
          ]
          | inr beyond ↦ rw (z, free, beyond) (ih k ∙ rw same refl)
        ]
      ]

  open device use {Disk}

  -- The blocks of all groups that are not in use, `n` groups from group `i` on, by their bitmaps on the disk.
  unfoldable pub free_blocks : Bool → Ext4Disk → List (List ℕ) → Disk → ℕ → ℕ → List ℕ
  unfolding group_blocks
  free_blocks is_64bit d gd_arr disk zero i = []
  free_blocks is_64bit d gd_arr disk (suc n) i =
      let page = bitmap_page device has_bio is_64bit (get_or gd_arr i []) i disk in
      group_blocks d (is_taken d page i) i d.blks_per_grp 0
      ++ free_blocks is_64bit d gd_arr disk n (suc i)

  -- Every descriptor has the fields of the number of its bitmap.
  abbrev pub HaveFields : Bool → List (List ℕ) → Type 0
  HaveFields is_64bit gd_arr =
      (i : ℕ) → i < length gd_arr → (if is_64bit then 36 else 4) ≤ length (get_or gd_arr i [])

  module _ (is_64bit : Bool) (d : Ext4Disk) (gd_arr : List (List ℕ)) (disk : Disk)
      (small : d.blks_per_grp ≤ 32768) (fields : HaveFields is_64bit gd_arr) where
    scan_groups_lem :
        (n i k : ℕ) (v : Option (BitVector Memory))
        → i + n ≤ length gd_arr
        → Covers ops v d.blks_per_grp
        → ((x : ℕ) → x < d.blks_per_grp → bit ops v x ≡ false)
        → scan_groups ops device has_bio is_64bit d gd_arr n i v k disk
          ≡ push d.free_block_count k (free_blocks is_64bit d gd_arr disk n i) (λ _. done [])
    unfolding scan_groups free_blocks push
    scan_groups_lem zero i k v h c unset = refl
    scan_groups_lem (suc n) i k v h c unset =
        let gd = get_or gd_arr i [] in
        let (w, e, c', b) =
          read_bitmap_lem ops device has_bio is_64bit d gd i v disk (fields i (omega arith)) small c
            unset in
        let (c'', _, inside) = clear_range_lem d.blks_per_grp 0 d.blks_per_grp w c' (omega arith) in
        let same =
          group_blocks_congr d (bit ops w)
            (is_taken d (bitmap_page device has_bio is_64bit gd i disk) i) i d.blks_per_grp 0
            (λ x l m. b x (omega arith)) in
        let w' = clear_range d.blks_per_grp 0 w in
        let blocks =
          group_blocks d (is_taken d (bitmap_page device has_bio is_64bit gd i disk) i) i
            d.blks_per_grp 0 in
        let next : Option (BitVector Memory) → ℕ → Outcome (List ℕ) =
          λ u k'. scan_groups ops device has_bio is_64bit d gd_arr n (suc i) u k' disk in
        let ih = λ (k' : ℕ).
          scan_groups_lem n (suc i) k' w' (omega arith) c''
            (λ x m. inside x (omega arith) (omega arith)) in
        rw (scan_groups, get_elem?-eq-get_or gd_arr i [] (omega arith), e)
          (scan_group_lem d i d.blks_per_grp 0 d.blks_per_grp k w next c' (omega arith)
            ∙ ap (λ xs. push d.free_block_count k xs (next w')) same
            ∙ ap (push d.free_block_count k blocks) (fun_ext ih)
            ∙ sym (
                push-append d.free_block_count k blocks
                  (free_blocks is_64bit d gd_arr disk n (suc i)) (λ _. done [])))

    -- Where every group has its descriptor and at most 32768 blocks, and the super block counts some free
    -- block, fewer than 2 ^ 32, the list holds the free blocks of all groups in their order, which are those
    -- that neither the bitmap of the group nor a backup takes. Where there are more of them than the super
    -- block counts, the list is overrun, which is a fault. There is memory for the vector and the lists.
    pub read_bitmaps_lem :
        (fs : PassiveFs)
        → d.num_grp_descs ≤ length gd_arr
        → 0 < d.free_block_count
        → d.free_block_count < 2 ^ 32
        → let blocks = free_blocks is_64bit d gd_arr disk d.num_grp_descs 0 in
          read_bitmaps ops device has_bio (true, true, true) is_64bit d gd_arr fs disk ≡ (
            if leb (length blocks) d.free_block_count
            then done (record fs { block_list = blocks; list_len = length blocks })
            else fault)
    unfolding read_bitmaps
    read_bitmaps_lem fs enough some_free wide =
        let f : (d.free_block_count == 0) ≡ false = ground arith in
        let (c, unset) = create-Covers ops d.blks_per_grp in
        let found =
          scan_groups_lem d.num_grp_descs 0 0 (create ops true true d.blks_per_grp) (omega arith) c
            (λ x h. unset x (omega arith))
          ∙ push_end d.free_block_count 0 (free_blocks is_64bit d gd_arr disk d.num_grp_descs 0)
              (omega arith) in
        rw (f, found)
          (hand_over_lem fs (free_blocks is_64bit d gd_arr disk d.num_grp_descs 0)
            d.free_block_count wide)
