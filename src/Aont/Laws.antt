-- ===== src/Aont/Laws.antt =====
-- The package of src/lib/aont.c, opened again.
use artifice.Base.{
  ℕ, zero, suc, ◌+◌, ◌*◌, ◌^◌, ◌≤◌, ◌≡◌, refl, ap, sym, ◌∙◌, arith, true, List, [], ◌∷◌, ◌++◌,
  length, take, slice, memcpy, bit_xor_twice, done, some, length-append, length-memcpy,
  memcpy-memcpy_next, memcpy_nothing, slice-add, take-append, drop-append, take_all, drop_all,
  length-slice,
}
use mathlib.Core.List.{append-nil}
use native.Mathlib.Nat.{mul-suc}
use artifice.Speck.{Block}
use artifice.Speck.Rounds.{IsBlock}
use artifice.Speck.Counter.{speck_ctr_lem, counter_mode, counter_mode_twice}
use artifice.Aont.{ErasureCode, AgreeOff}
use artifice.Aont.Package.{
  Allocated, key_of, xor_words, shares_from, gather_from, rs_block_size, packed,
  encode_aont_package, unpacked, decode_aont_package,
}

xor_words_twice : (xs ys : List ℕ) → length xs ≡ length ys → xor_words (xor_words xs ys) ys ≡ xs
unfolding xor_words
xor_words_twice [] [] h = refl
xor_words_twice [] (y ∷ ys) h = refl
xor_words_twice (x ∷ xs) [] h = absurd (omega arith)
xor_words_twice (x ∷ xs) (y ∷ ys) h =
    let e = bit_xor_twice x y in let rest = xor_words_twice xs ys (omega arith) in λ i. e i ∷ rest i

length-xor_words : (xs ys : List ℕ) → length xs ≡ length ys → length (xor_words xs ys) ≡ length xs
unfolding xor_words
length-xor_words [] ys h = refl
length-xor_words (x ∷ xs) [] h = absurd (omega arith)
length-xor_words (x ∷ xs) (y ∷ ys) h = ap suc (length-xor_words xs ys (omega arith))

-- The shares in a row.
joined : List (List ℕ) → List ℕ
joined [] = []
joined (share ∷ shares) = share ++ joined shares

abbrev HaveSize : ℕ → List (List ℕ) → Type 0
HaveSize size [] = Unit {0}
HaveSize size (share ∷ shares) = (length share ≡ size) × HaveSize size shares

gather_from-joined :
    (size i : ℕ) (shares : List (List ℕ)) (buffer : List ℕ)
    → HaveSize size shares
    → size * i + length (joined shares) ≤ length buffer
    → gather_from size i shares buffer ≡ memcpy buffer (size * i) (joined shares)
unfolding gather_from joined
gather_from-joined size i [] buffer sizes h = sym (memcpy_nothing buffer (size * i))
gather_from-joined size i (share ∷ shares) buffer (l, sizes) h =
    let both = length-append share (joined shares) in
    let next : size * suc i ≡ size * i + length share = mul-suc size i ∙ omega arith in
    let buffer' = memcpy buffer (size * i) share in
    let same = length-memcpy buffer (size * i) share (omega arith) in
    gather_from-joined size (suc i) shares buffer' sizes (omega arith)
    ∙ ap (λ o. memcpy buffer' o (joined shares)) next
    ∙ memcpy-memcpy_next buffer (size * i) share (joined shares) (omega arith)

joined-shares_from :
    (size i k : ℕ) (buffer : List ℕ)
    → joined (shares_from size i k buffer) ≡ slice buffer (size * i) (size * k)
unfolding joined shares_from slice
joined-shares_from size i zero buffer = let z : size * 0 ≡ 0 = omega arith in rw z refl
joined-shares_from size i (suc k) buffer =
    let next = mul-suc size i in
    let more : size + size * k ≡ size * suc k = sym (mul-suc size k ∙ omega arith) in
    ap (λ s. slice buffer (size * i) size ++ s)
      (joined-shares_from size (suc i) k buffer ∙ ap (λ o. slice buffer o (size * k)) next)
    ∙ sym (slice-add buffer (size * i) size (size * k))
    ∙ ap (slice buffer (size * i)) more

shares_from-HaveSize :
    (size i k : ℕ) (buffer : List ℕ)
    → size * i + size * k ≤ length buffer
    → HaveSize size (shares_from size i k buffer)
unfolding shares_from
shares_from-HaveSize size i zero buffer h = tt
shares_from-HaveSize size i (suc k) buffer h =
    let next = mul-suc size i in
    let more = mul-suc size k in
    (
      length-slice buffer (size * i) size (omega arith),
      shares_from-HaveSize size (suc i) k buffer (omega arith),
    )

length-shares_from : (size i k : ℕ) (buffer : List ℕ) → length (shares_from size i k buffer) ≡ k
unfolding shares_from
length-shares_from size i zero buffer = refl
length-shares_from size i (suc k) buffer = ap suc (length-shares_from size (suc i) k buffer)

-- The buffer is gathered again from the shares that it was cut into.
gather_from-shares_from :
    (size k : ℕ) (buffer memory : List ℕ)
    → size * k ≡ length buffer
    → length memory ≡ length buffer
    → gather_from size 0 (shares_from size 0 k buffer) memory ≡ buffer
unfolding slice memcpy
gather_from-shares_from size k buffer memory h l =
    let z : size * 0 ≡ 0 = omega arith in
    let whole : joined (shares_from size 0 k buffer) ≡ buffer =
      joined-shares_from size 0 k buffer
      ∙ rw (z, h) (take_all (length buffer) buffer (omega arith)) in
    let same = ap length whole in
    gather_from-joined size 0 (shares_from size 0 k buffer) memory
      (shares_from-HaveSize size 0 k buffer (omega arith)) (omega arith)
    ∙ ap (memcpy memory (size * 0)) whole
    ∙ rw z (
        ap (λ d. buffer ++ d) (drop_all (0 + length buffer) memory (omega arith))
        ∙ append-nil buffer)

tail_of : (xs ys : List ℕ) (n : ℕ) → length xs ≡ n → length ys ≡ 4 → slice (xs ++ ys) n 4 ≡ ys
unfolding slice
tail_of xs ys n h l = ap (take 4) (drop-append n xs ys h) ∙ take_all 4 ys (omega arith)

-- Every `kmalloc` gives memory, and the buffer for the ciphertext holds as many words.
pub record HasMemory (words : ℕ) (m : Allocated) : Type 0 where
  pub plaintext_there : m.has_plaintext ≡ true
  pub ciphertext_there : m.has_ciphertext ≡ true
  pub pad_there : m.has_pad ≡ true
  pub keys_there : m.has_keys ≡ (λ _. true)
  pub room : length m.ciphertext ≡ words

module _ (sha3_256 : List ℕ → List ℕ) (four : (words : List ℕ) → length (sha3_256 words) ≡ 4)
    {data_blocks parity_blocks : ℕ} (code : ErasureCode data_blocks parity_blocks) where
  -- With memory, for an even number of words that with the key divides into the data blocks, encoding
  -- succeeds; and decoding with the same nonce, from any blocks that agree with the shares and the
  -- parity but for at most as many erased ones as there are parity blocks, succeeds and gives the
  -- data and the difference back, whatever the key, the hash and the contents of the memory are.
  pub decode-encode_aont_package :
      (n : ℕ) (m m' : Allocated) (key plaintext : List ℕ) (nonce : Block)
      → length plaintext ≡ 2 * n
      → length key ≡ 4
      → rs_block_size sha3_256 code (length plaintext) * data_blocks ≡ length plaintext + 4
      → HasMemory (length plaintext + 4) m
      → HasMemory (length plaintext + 4) m'
      → IsBlock nonce
      → (difference : List ℕ) × (shares parity : List (List ℕ)) × (encode_aont_package sha3_256 code
            m key plaintext nonce
          ≡ done (some (difference, shares, parity)))
        × ((got got_parity : List (List ℕ)) (erasures : List ℕ)
            → length erasures ≤ parity_blocks
            → AgreeOff erasures 0 got shares
            → AgreeOff erasures data_blocks got_parity parity
            → decode_aont_package sha3_256 code m' (length plaintext) got got_parity nonce erasures
              ≡ done (some (difference, plaintext)))
  unfolding encode_aont_package decode_aont_package packed unpacked
  decode-encode_aont_package n m m' key plaintext nonce even keys divides mem mem' block =
      let k = key_of key in
      let v = nonce.low + 2 ^ 64 * nonce.high in
      let cipher = counter_mode k v plaintext in
      let (twice, len) = counter_mode_twice n k v plaintext even in
      let difference = xor_words key (sha3_256 cipher) in
      let size = rs_block_size sha3_256 code (length plaintext) in
      let same_size = ap (rs_block_size sha3_256 code) len in
      let buffer = cipher ++ difference in
      let shares = shares_from size 0 data_blocks buffer in
      let h4 = four cipher in
      let long = length-xor_words key (sha3_256 cipher) (omega arith) in
      let total = length-append cipher difference in
      (
        difference,
        shares,
        code.parity shares,
        rw (mem.plaintext_there, mem.ciphertext_there, mem.pad_there, mem.keys_there)
            (ap (packed sha3_256 code key) (
                speck_ctr_lem k n m.pad nonce plaintext (take (length plaintext) m.ciphertext) even
                  block)
              ∙ ap
                  (λ s. done (
                    some (
                      difference,
                      shares_from s 0 data_blocks buffer,
                      code.parity (shares_from s 0 data_blocks buffer),
                    )))
                  same_size),
        λ got got_parity erasures few agree agree_parity.
            let found =
              code.recover-parity shares got got_parity erasures
                (length-shares_from size 0 data_blocks buffer) few agree agree_parity in
            let r = mem'.room in
            let gathered =
              ap (λ b. gather_from size 0 b m'.ciphertext) found
              ∙ gather_from-shares_from size data_blocks buffer m'.ciphertext (omega arith)
                  (omega arith) in
            let front = take-append (length plaintext) cipher difference len in
            let back : slice buffer (length plaintext) 4 ≡ difference =
              tail_of cipher difference (length plaintext) len (omega arith) in
            let key_again = xor_words_twice key (sha3_256 cipher) (omega arith) in
            rw (mem'.plaintext_there, mem'.ciphertext_there, mem'.pad_there, mem'.keys_there)
              (rw (gathered, front, back)
                (rw key_again (
                  ap (unpacked sha3_256 code difference) (
                    speck_ctr_lem k n m'.pad nonce cipher (take (length plaintext) m'.plaintext)
                      (len ∙ even) block
                    ∙ ap done twice)))),
      )
