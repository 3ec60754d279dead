-- ===== src/BitVector/Refine.antt =====
-- A bit vector of src/lib/bit_vector.c against its abstract contract: a function from the positions
-- up to the length to bits, on which every other position is refused.
use artifice.Base.{
  ℕ, ◌≤◌, ◌≡◌, refl, Bool, true, false, Option, arith, leb, ◌==◌, if◌then◌else◌, Result, ok, err,
  einval, inl, inr, Bool-cases, List, [], ◌∷◌, ◌&&◌, ◌∙◌, ap,
}
use mathlib.Core.Path.{fun_ext}
use artifice.Kernel.{BitOps}
use artifice.BitVector.{BitVector, create, set, clear, get}
use artifice.BitVector.Laws.{bit, Covers, create-Covers, set_lem, clear_lem, get_lem, out_of_range}

-- The calls of a client.
pub data Call : Type 0 where
  set_at clear_at get_at : ℕ → Call

-- A status counts as 0.
abbrev pub answer : Result (Unit {0}) → Result ℕ
answer (ok _) = ok 0
answer (err e) = err e

-- The contract for positions up to `n`: the replies, from the bits that are set so far.
unfoldable pub replies : ℕ → (ℕ → Bool) → List Call → List (Result ℕ)
replies n f [] = []
replies n f (set_at i ∷ cs) =
    (if leb i n then ok 0 else err einval)
    ∷ replies n (λ j. if leb i n && i == j then true else f j) cs
replies n f (clear_at i ∷ cs) =
    (if leb i n then ok 0 else err einval)
    ∷ replies n (λ j. if leb i n && i == j then false else f j) cs
replies n f (get_at i ∷ cs) =
    (if leb i n then if f i then ok 1 else ok 0 else err einval) ∷ replies n f cs

-- Bits beyond the length are never told.
replies_congr :
    (n : ℕ) (cs : List Call) (f g : ℕ → Bool)
    → ((i : ℕ) → i ≤ n → f i ≡ g i)
    → replies n f cs ≡ replies n g cs
unfolding replies
replies_congr n [] f g h = refl
replies_congr n (set_at i ∷ cs) f g h =
    ap (λ r. (if leb i n then ok 0 else err einval) ∷ r)
      (replies_congr n cs _ _ (λ j k. ap (λ b. if leb i n && i == j then true else b) (h j k)))
replies_congr n (clear_at i ∷ cs) f g h =
    ap (λ r. (if leb i n then ok 0 else err einval) ∷ r)
      (replies_congr n cs _ _ (λ j k. ap (λ b. if leb i n && i == j then false else b) (h j k)))
replies_congr n (get_at i ∷ cs) f g h = elim (Bool-cases (leb i n)) [
  | inl t ↦ rw (t, h i (ground arith), replies_congr n cs f g h) refl
  | inr t ↦ rw (t, replies_congr n cs f g h) refl
]

module _ (ops : BitOps) where
  open ops use {Memory}

  pub run : Option (BitVector Memory) → List Call → List (Result ℕ)
  run v [] = []
  run v (set_at i ∷ cs) = let (s, w) = set ops v i in answer s ∷ run w cs
  run v (clear_at i ∷ cs) = let (s, w) = clear ops v i in answer s ∷ run w cs
  run v (get_at i ∷ cs) = get ops v i ∷ run v cs

  run-eq-replies :
      (n : ℕ) (cs : List Call) (v : Option (BitVector Memory))
      → Covers ops v n
      → run v cs ≡ replies n (bit ops v) cs
  unfolding run replies
  run-eq-replies n [] v c = refl
  run-eq-replies n (set_at i ∷ cs) v c = elim (Bool-cases (leb i n)) [
    | inl t ↦
        let (s, k, b) = set_lem ops v n i c (ground arith) in
        rw (s, t, run-eq-replies n cs (set ops v i).1 k, fun_ext b) refl
    | inr t ↦ rw ((out_of_range ops v n i c (ground arith)).0, t, run-eq-replies n cs v c) refl
  ]
  run-eq-replies n (clear_at i ∷ cs) v c = elim (Bool-cases (leb i n)) [
    | inl t ↦
        let (s, k, b) = clear_lem ops v n i c (ground arith) in
        rw (s, t, run-eq-replies n cs (clear ops v i).1 k, fun_ext b) refl
    | inr t ↦ rw ((out_of_range ops v n i c (ground arith)).1, t, run-eq-replies n cs v c) refl
  ]
  run-eq-replies n (get_at i ∷ cs) v c = elim (Bool-cases (leb i n)) [
    | inl t ↦ rw (get_lem ops v n i c (ground arith), t, run-eq-replies n cs v c) refl
    | inr t ↦ rw ((out_of_range ops v n i c (ground arith)).2, t, run-eq-replies n cs v c) refl
  ]

  -- A vector that `bit_vector_create` returns answers every sequence of calls as a function on the
  -- positions up to its length does that starts clear, and refuses all positions beyond.
  pub run_refines :
      (n : ℕ) (cs : List Call) → run (create ops true true n) cs ≡ replies n (λ _. false) cs
  run_refines n cs =
      let (k, clear_bits) = create-Covers ops n in
      run-eq-replies n cs (create ops true true n) k
      ∙ replies_congr n cs (bit ops (create ops true true n)) (λ _. false) clear_bits
