-- ===== src/Metadata/Search/Laws.antt =====
-- `binary_search` of src/dm_afs_metadata.c, and membership in an ascending list.
use artifice.Base.{
  ℕ, zero, suc, ◌+◌, ◌-◌, ◌/◌, ◌^◌, ◌≤◌, ◌<◌, ◌≡◌, ◌≢◌, refl, Option, none, some, false, leb, ltb,
  ◌==◌, done, List, [], ◌∷◌, get_or, get_elem?-eq-get_or, length, arith, inl, inr, Bool-cases,
}
use native.Mathlib.Decide.{dec_lt}
use artifice.Metadata.Search.{search_between, binary_search}

-- The first `n` elements are there and ascend.
pub record Ascends (n : ℕ) (array : List ℕ) : Type 0 where
  pub long : n ≤ length array
  pub ordered : (i j : ℕ) → i ≤ j → j < n → get_or array i 0 ≤ get_or array j 0

-- A list that grows from `b` on.
abbrev pub Increasing : ℕ → List ℕ → Type 0
Increasing b [] = Unit
Increasing b (x ∷ xs) = (b ≤ x) × Increasing (suc x) xs

Increasing-le : (b : ℕ) (xs : List ℕ) (j : ℕ) → Increasing b xs → j < length xs → b ≤ get_or xs j 0
Increasing-le b [] j h k = absurd (omega arith)
Increasing-le b (x ∷ xs) zero h k = h.0
Increasing-le b (x ∷ xs) (suc j) h k = omega (arith, Increasing-le (suc x) xs j h.1 (omega arith))

Increasing-ordered :
    (b : ℕ) (xs : List ℕ) (i j : ℕ)
    → Increasing b xs
    → i ≤ j
    → j < length xs
    → get_or xs i 0 ≤ get_or xs j 0
Increasing-ordered b [] i j h le k = absurd (omega arith)
Increasing-ordered b (x ∷ xs) zero zero h le k = omega arith
Increasing-ordered b (x ∷ xs) zero (suc j) h le k =
    omega (arith, Increasing-le (suc x) xs j h.1 (omega arith))
Increasing-ordered b (x ∷ xs) (suc i) zero h le k = absurd (omega arith)
Increasing-ordered b (x ∷ xs) (suc i) (suc j) h le k =
    Increasing-ordered (suc x) xs i j h.1 (omega arith) (omega arith)

pub Increasing-Ascends : (b : ℕ) (xs : List ℕ) → Increasing b xs → Ascends (length xs) xs
Increasing-Ascends b xs h = record {
  long = omega arith;
  ordered = λ i j le k. Increasing-ordered b xs i j h le k;
}

-- What the index that is returned says of the elements from `lo` up to `hi`.
abbrev pub Answers : List ℕ → ℕ → ℕ → ℕ → Option ℕ → Type 0
Answers array value lo hi none = (i : ℕ) → lo ≤ i → i < hi → get_or array i 0 ≢ value
Answers array value lo hi (some i) = (lo ≤ i) × (i < hi) × (get_or array i 0 ≡ value)

module _ {n : ℕ} {array : List ℕ} (a : Ascends n array) (small : n ≤ 2 ^ 30) (value : ℕ) where
  -- An answer for the part right of a smaller element, or left of a larger one, is one for all.
  Answers-right :
      (lo m hi : ℕ) (r : Option ℕ)
      → lo ≤ m
      → hi ≤ n
      → m < hi
      → get_or array m 0 < value
      → Answers array value (m + 1) hi r
      → Answers array value lo hi r
  Answers-right lo m hi (some i) l k u x w = (omega arith, omega arith, w.2)
  Answers-right lo m hi none l k u x w = λ i from to. elim (dec_lt m i) [
    | yes h ↦ w i (omega arith) to
    | no h ↦ λ e. omega (arith, a.ordered i m (omega arith) (omega arith))
  ]

  Answers-left :
      (lo m hi : ℕ) (r : Option ℕ)
      → m < hi
      → hi ≤ n
      → value < get_or array m 0
      → Answers array value lo m r
      → Answers array value lo hi r
  Answers-left lo m hi (some i) u k x w = (omega arith, omega arith, w.2)
  Answers-left lo m hi none u k x w = λ i from to. elim (dec_lt i m) [
    | yes h ↦ w i from h
    | no h ↦ λ e. omega (arith, a.ordered m i (omega arith) (omega arith))
  ]

  search_between_lem :
      (fuel first hi : ℕ)
      → hi < fuel + first
      → first ≤ hi
      → hi ≤ n
      → (r : Option ℕ) × (search_between fuel array value first hi ≡ done r)
        × Answers array value first hi r
  unfolding search_between
  search_between_lem zero first hi h le k = absurd (omega arith)
  search_between_lem (suc fuel) first hi h le k = elim (Bool-cases (leb hi first)) [
    | inl stop ↦ (none, rw stop refl, λ i lo up. ground arith)
    | inr go ↦
        let less : first < hi = ground arith in
        let no_overflow : leb (2 ^ 31) (first + hi - 1) ≡ false = ground arith in
        let middle = (first + hi - 1) / 2 in
        let x = get_or array middle 0 in
        let read = get_elem?-eq-get_or array middle 0 (omega (arith, a.long)) in
        elim (Bool-cases (ltb x value)) [
          | inl below ↦
              let (r, e, w) =
                search_between_lem fuel (middle + 1) hi (omega arith) (omega arith) k in
              (
                r,
                rw (go, no_overflow, read, below) e,
                Answers-right first middle hi r (omega arith) k (omega arith) (ground arith) w,
              )
          | inr not_below ↦ elim (Bool-cases (x == value)) [
            | inl found ↦ (
              some middle,
              rw (go, no_overflow, read, not_below, found) refl,
              (omega arith, omega arith, ground arith),
            )
            | inr above ↦
                let (r, e, w) =
                  search_between_lem fuel first middle (omega arith) (omega arith) (omega arith) in
                (
                  r,
                  rw (go, no_overflow, read, not_below, above) e,
                  Answers-left first middle hi r (omega arith) k (ground arith) w,
                )
          ]
        ]
  ]

-- In an ascending list of at most 2 ^ 30 elements `binary_search` ends without a fault. It returns an
-- index that holds the value, or -1 and then no index holds it.
pub binary_search_lem :
    (n : ℕ) (array : List ℕ) (value : ℕ)
    → Ascends n array
    → n ≤ 2 ^ 30
    → (r : Option ℕ) × (binary_search array value n ≡ done r) × Answers array value 0 n r
unfolding binary_search
binary_search_lem n array value a small =
    let e : ltb (2 ^ 31) n ≡ false = ground arith in
    rw e (search_between_lem a small value (n + 1) 0 n (omega arith) (omega arith) (omega arith))
