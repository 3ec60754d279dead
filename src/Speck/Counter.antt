-- ===== src/Speck/Counter.antt =====
-- The counter mode of src/lib/speck.c against its definition by numbers: the counter of a round is the
-- nonce plus the number of the round, in 128 bits.
use artifice.Base.{
  ℕ, zero, suc, ◌+◌, ◌-◌, ◌*◌, ◌/◌, ◌^◌, ◌%◌, ◌≡◌, refl, ◌∙◌, ap, arith, true, Bool-cases, inl, inr,
  ◌==◌, List, [], ◌∷◌, length, bit_xor, bit_xor_twice, done,
}
use artifice.Speck.{Block, Key, add1, speck_encrypt, block_of, masked, ctr_from, speck_ctr}
use artifice.Speck.Rounds.{IsBlock}

-- The two words of a counter.
unfoldable pub counter_words : ℕ → List ℕ
counter_words v = v % 2 ^ 64 ∷ v / 2 ^ 64 % 2 ^ 64 ∷ []

add1-counter_words : (v : ℕ) → add1 (counter_words v) ≡ counter_words (v + 1)
unfolding add1 counter_words
add1-counter_words v = elim (Bool-cases (v % 2 ^ 64 == 2 ^ 64 - 1)) [
  | inr small ↦
      let e : v % 2 ^ 64 + 1 ≡ (v + 1) % 2 ^ 64 = ground arith in
      let f : v / 2 ^ 64 % 2 ^ 64 ≡ (v + 1) / 2 ^ 64 % 2 ^ 64 = ground arith in
      rw (small, e, f) refl
  | inl full ↦ elim (Bool-cases (v / 2 ^ 64 % 2 ^ 64 == 2 ^ 64 - 1)) [
    | inr small ↦
        let e : 0 ≡ (v + 1) % 2 ^ 64 = ground arith in
        let f : v / 2 ^ 64 % 2 ^ 64 + 1 ≡ (v + 1) / 2 ^ 64 % 2 ^ 64 = ground arith in
        rw (full, small, f) (ap (λ w. w ∷ (v + 1) / 2 ^ 64 % 2 ^ 64 ∷ []) e)
    | inl more ↦
        let e : 0 ≡ (v + 1) % 2 ^ 64 = ground arith in
        let f : 0 ≡ (v + 1) / 2 ^ 64 % 2 ^ 64 = ground arith in
        rw (full, more) (λ i. e i ∷ f i ∷ [])
  ]
]

-- Counter mode by the number of the block: `v` for the first two words.
unfoldable pub counter_mode : Key → ℕ → List ℕ → List ℕ
counter_mode key v [] = []
counter_mode key v (x ∷ []) = []
counter_mode key v (x ∷ y ∷ words) =
    let block : Block = record { low = v % 2 ^ 64; high = v / 2 ^ 64 % 2 ^ 64 } in
    let pad = speck_encrypt true block block key in
    bit_xor x pad.low ∷ bit_xor y pad.high ∷ counter_mode key (v + 1) words

pub counter_mode_twice :
    (n : ℕ) (key : Key) (v : ℕ) (words : List ℕ)
    → length words ≡ 2 * n
    → (counter_mode key v (counter_mode key v words) ≡ words)
      × (length (counter_mode key v words) ≡ length words)
unfolding counter_mode
counter_mode_twice n key v [] h = (refl, refl)
counter_mode_twice n key v (x ∷ []) h = absurd (omega arith)
counter_mode_twice zero key v (x ∷ y ∷ words) h = absurd (omega arith)
counter_mode_twice (suc n) key v (x ∷ y ∷ words) h =
    let (e, f) = counter_mode_twice n key (v + 1) words (omega arith) in
    (rw (bit_xor_twice x _, bit_xor_twice y _, e) refl, omega arith)

module _ (key : Key) where
  ctr_from_lem :
      (n i : ℕ) (pad : Block) (v : ℕ) (words : List ℕ)
      → length words ≡ 2 * n
      → ctr_from (λ _. true) key i pad (counter_words v) words ≡ done (counter_mode key v words)
  unfolding ctr_from masked counter_mode speck_encrypt block_of counter_words
  ctr_from_lem n i pad v [] h = refl
  ctr_from_lem n i pad v (x ∷ []) h = absurd (omega arith)
  ctr_from_lem zero i pad v (x ∷ y ∷ words) h = absurd (omega arith)
  ctr_from_lem (suc n) i pad v (x ∷ y ∷ words) h =
      let block : Block = record { low = v % 2 ^ 64; high = v / 2 ^ 64 % 2 ^ 64 } in
      let pad' = speck_encrypt true block pad key in
      ap (λ w. masked pad' x y (ctr_from (λ _. true) key (i + 1) pad' w words))
        (add1-counter_words v)
      ∙ ap (masked pad' x y) (ctr_from_lem n (i + 1) pad' (v + 1) words (omega arith))

  nonce_words :
      (nonce : Block)
      → IsBlock nonce
      → nonce.low ∷ nonce.high ∷ [] ≡ counter_words (nonce.low + 2 ^ 64 * nonce.high)
  unfolding counter_words
  nonce_words nonce b =
      let l = b.low_word in
      let h = b.high_word in
      let e : nonce.low ≡ (nonce.low + 2 ^ 64 * nonce.high) % 2 ^ 64 = omega arith in
      let f : nonce.high ≡ (nonce.low + 2 ^ 64 * nonce.high) / 2 ^ 64 % 2 ^ 64 = omega arith in
      λ i. e i ∷ f i ∷ []

  -- With memory, and for an even number of words, `speck_ctr` masks each two words with the encrypted
  -- counter: the nonce as one number of 128 bits, plus the number of the round. It does not depend on
  -- what the memory and the output held.
  pub speck_ctr_lem :
      (n : ℕ) (pad nonce : Block) (words out : List ℕ)
      → length words ≡ 2 * n
      → IsBlock nonce
      → speck_ctr true (λ _. true) pad words out key nonce
        ≡ done (counter_mode key (nonce.low + 2 ^ 64 * nonce.high) words)
  unfolding speck_ctr
  speck_ctr_lem n pad nonce words out h b =
      ap (λ w. ctr_from (λ _. true) key 0 pad w words) (nonce_words nonce b)
      ∙ ctr_from_lem n 0 pad (nonce.low + 2 ^ 64 * nonce.high) words h

  -- With memory, and for an even number of words, what `speck_ctr` makes of the words, it makes into
  -- them again, with the same key and nonce and whatever the memory and the output held.
  pub speck_ctr_twice :
      (n : ℕ) (pad pad' nonce : Block) (words out out' : List ℕ)
      → length words ≡ 2 * n
      → IsBlock nonce
      → (crypt : List ℕ) × (speck_ctr true (λ _. true) pad words out key nonce ≡ done crypt)
        × (speck_ctr true (λ _. true) pad' crypt out' key nonce ≡ done words)
  speck_ctr_twice n pad pad' nonce words out out' h b =
      let (twice, len) = counter_mode_twice n key (nonce.low + 2 ^ 64 * nonce.high) words h in
      (
        _,
        speck_ctr_lem n pad nonce words out h b,
        speck_ctr_lem n pad' nonce _ out' (len ∙ h) b ∙ ap done twice,
      )
