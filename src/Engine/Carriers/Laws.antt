-- ===== src/Engine/Carriers/Laws.antt =====
-- What finding blocks for the carriers, and giving them up, makes of a map entry in src/dm_afs_engine.c.
use artifice.Base.{
  ℕ, zero, suc, ◌+◌, ◌*◌, ◌^◌, ◌≡◌, ◌≢◌, ◌≤◌, ◌<◌, inl, inr, arith, refl, ap, sym, ◌∙◌, List, ◌∷◌,
  length, get_or, slice, le32_at, le32_at-slice,
}
use artifice.Allocation.{invalid_block}
use artifice.Engine.Entry.{tuple_at, carrier_block_ptr, set_carrier_block_ptr}
use artifice.Engine.Entry.Laws.{Apart, length-set_ptr, slice-set_ptr, ptr-set_ptr}

-- Between two maps only the tuples `i` up to `i + k` of the entry may differ.
pub record Changed (e i k : ℕ) (m m' : List ℕ) : Type 0 where
  pub same_length : length m' ≡ length m
  pub outside : (a n : ℕ) → Apart (e + 6 * i) (6 * k) a n → slice m' a n ≡ slice m a n

-- The pointers from tuple `i` on are these block numbers, and none is the invalid block.
pub record AreEntered (e i : ℕ) (block_nums : List ℕ) (m : List ℕ) : Type 0 where
  pub pointer :
      (j : ℕ) → j < length block_nums → carrier_block_ptr m e (i + j) ≡ get_or block_nums j 0
  pub valid : (j : ℕ) → j < length block_nums → get_or block_nums j 0 ≢ invalid_block
  pub word : (j : ℕ) → j < length block_nums → get_or block_nums j 0 < 2 ^ 32

pub Changed-refl : (e i k : ℕ) (m : List ℕ) → Changed e i k m m
Changed-refl e i k m = record { same_length = refl; outside = λ a n h. refl }

-- One pointer set, and the tuples behind it changed.
pub Changed-step :
    (e i k v : ℕ) (m m' : List ℕ)
    → e + 6 * (i + suc k) ≤ length m
    → Changed e (suc i) k (set_carrier_block_ptr m e i v) m'
    → Changed e i (suc k) m m'
Changed-step e i k v m m' h c = record {
  same_length = c.same_length ∙ length-set_ptr m e i v (omega arith);
  outside =
      λ a n p. c.outside a n (later a n p) ∙ slice-set_ptr m e i v a n (omega arith) (now a n p);
}
  where
    now : (a n : ℕ) → Apart (e + 6 * i) (6 * suc k) a n → Apart (e + 6 * i) 4 a n
    now a n (inl l) = inl (omega arith)
    now a n (inr r) = inr r

    later : (a n : ℕ) → Apart (e + 6 * i) (6 * suc k) a n → Apart (e + 6 * suc i) (6 * k) a n
    later a n (inl l) = inl (omega arith)
    later a n (inr r) = inr (omega arith)

-- The pointer of an earlier tuple is kept.
pub ptr-Changed :
    (e i k : ℕ) (m m' : List ℕ)
    → Changed e (suc i) k m m'
    → carrier_block_ptr m' e i ≡ carrier_block_ptr m e i
unfolding carrier_block_ptr tuple_at
ptr-Changed e i k m m' c =
    le32_at-slice m' (e + 6 * i)
    ∙ ap (λ s. le32_at s 0) (c.outside (e + 6 * i) 4 (inr (omega arith)))
    ∙ sym (le32_at-slice m (e + 6 * i))

pub AreEntered-step :
    (e i k v : ℕ) (block_nums : List ℕ) (m m' : List ℕ)
    → e + 6 * suc i ≤ length m
    → v < 2 ^ 32
    → v ≢ invalid_block
    → Changed e (suc i) k (set_carrier_block_ptr m e i v) m'
    → AreEntered e (suc i) block_nums m'
    → AreEntered e i (v ∷ block_nums) m'
AreEntered-step e i k v block_nums m m' h w valid c a = record {
  pointer = point;
  valid = good;
  word = small;
}
  where
    point :
        (j : ℕ)
        → j < suc (length block_nums)
        → carrier_block_ptr m' e (i + j) ≡ get_or (v ∷ block_nums) j 0
    point zero l =
        let z : i + zero ≡ i = omega arith in
        rw z (ptr-Changed e i k (set_carrier_block_ptr m e i v) m' c ∙ ptr-set_ptr m e i v h w)
    point (suc j) l =
        let z : i + suc j ≡ suc i + j = omega arith in rw z (a.pointer j (omega arith))

    good : (j : ℕ) → j < suc (length block_nums) → get_or (v ∷ block_nums) j 0 ≢ invalid_block
    good zero l = valid
    good (suc j) l = a.valid j (omega arith)

    small : (j : ℕ) → j < suc (length block_nums) → get_or (v ∷ block_nums) j 0 < 2 ^ 32
    small zero l = w
    small (suc j) l = a.word j (omega arith)
