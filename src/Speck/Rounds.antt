-- ===== src/Speck/Rounds.antt =====
-- The rounds of src/lib/speck.c on 64-bit words, with the round keys in either order.
use artifice.Base.{
  ℕ, zero, suc, ◌+◌, ◌-◌, ◌^◌, ◌%◌, ◌<◌, ◌≡◌, refl, ◌∙◌, ap, arith, true, List, [], ◌∷◌, ◌++◌,
  length, get_or, set, bit_xor-lt, bit_xor_twice, bit_xor_mix,
}
use artifice.Speck.{
  Block, Key, rotate_left, rotate_right, schedule_from, key_schedule, enc_round, dec_round,
  enc_rounds, dec_rounds, speck_encrypt, speck_decrypt,
}
use artifice.Speck.Rotate.{
  rotate_left-three-lt, rotate_right-eight-lt, rotate_right-rotate_left_three,
  rotate_left-rotate_right_eight,
}

-- Both words have 64 bits.
pub record IsBlock (block : Block) : Type 0 where
  pub low_word : block.low < 2 ^ 64
  pub high_word : block.high < 2 ^ 64

abbrev pub AreWords : List ℕ → Type 0
AreWords [] = Unit {0}
AreWords (x ∷ xs) = (x < 2 ^ 64) × AreWords xs

-- The keys of the rounds, last first.
abbrev pub reversed : List ℕ → List ℕ
reversed [] = []
reversed (x ∷ xs) = reversed xs ++ (x ∷ [])

enc_round-IsBlock :
    (block : Block) (key : ℕ) → IsBlock block → key < 2 ^ 64 → IsBlock (enc_round block key)
unfolding enc_round
enc_round-IsBlock block key b k =
    let r = rotate_left-three-lt block.low b.low_word in
    let s : (rotate_right block.high 8 + block.low) % 2 ^ 64 < 2 ^ 64 = omega arith in
    record {
      low_word = bit_xor-lt 64 _ key (bit_xor-lt 64 _ _ r s) k;
      high_word = bit_xor-lt 64 _ key s k;
    }

-- A round of decryption undoes a round of encryption with the same key.
pub dec_round-enc_round :
    (block : Block) (key : ℕ) → IsBlock block → dec_round (enc_round block key) key ≡ block
unfolding dec_round enc_round
dec_round-enc_round block key b =
    let right = rotate_right block.high 8 in
    let sum = (right + block.low) % 2 ^ 64 in
    let mixed = bit_xor_mix sum key (rotate_left block.low 3) in
    let low = rotate_right-rotate_left_three block.low b.low_word in
    let r = rotate_right-eight-lt block.high b.high_word in
    let l = b.low_word in
    let e : (sum + 2 ^ 64 - block.low) % 2 ^ 64 ≡ right = omega arith in
    rw (mixed, low, bit_xor_twice sum key, e, rotate_left-rotate_right_eight block.high b.high_word)
      refl

enc_rounds-IsBlock :
    (keys : List ℕ) (block : Block)
    → IsBlock block
    → AreWords keys
    → IsBlock (enc_rounds keys block)
unfolding enc_rounds
enc_rounds-IsBlock [] block b k = b
enc_rounds-IsBlock (key ∷ keys) block b (k, ks) =
    enc_rounds-IsBlock keys (enc_round block key) (enc_round-IsBlock block key b k) ks

enc_rounds-append :
    (xs : List ℕ) (key : ℕ) (block : Block)
    → enc_rounds (xs ++ (key ∷ [])) block ≡ enc_round (enc_rounds xs block) key
unfolding enc_rounds
enc_rounds-append [] key block = refl
enc_rounds-append (x ∷ xs) key block = enc_rounds-append xs key (enc_round block x)

dec_rounds-append :
    (xs : List ℕ) (key : ℕ) (block : Block)
    → dec_rounds (xs ++ (key ∷ [])) block ≡ dec_round (dec_rounds xs block) key
unfolding dec_rounds
dec_rounds-append [] key block = refl
dec_rounds-append (x ∷ xs) key block = dec_rounds-append xs key (dec_round block x)

AreWords-append : (xs : List ℕ) (x : ℕ) → AreWords xs → x < 2 ^ 64 → AreWords (xs ++ (x ∷ []))
AreWords-append [] x h k = (k, tt)
AreWords-append (y ∷ ys) x (h, hs) k = (h, AreWords-append ys x hs k)

AreWords-reversed : (xs : List ℕ) → AreWords xs → AreWords (reversed xs)
AreWords-reversed [] h = tt
AreWords-reversed (x ∷ xs) (h, hs) = AreWords-append (reversed xs) x (AreWords-reversed xs hs) h

dec_rounds-enc_rounds :
    (keys : List ℕ) (block : Block)
    → IsBlock block
    → AreWords keys
    → dec_rounds (reversed keys) (enc_rounds keys block) ≡ block
unfolding enc_rounds dec_rounds
dec_rounds-enc_rounds [] block b k = refl
dec_rounds-enc_rounds (key ∷ keys) block b (k, ks) =
    dec_rounds-append (reversed keys) key (enc_rounds keys (enc_round block key))
    ∙ ap (λ x. dec_round x key)
        (dec_rounds-enc_rounds keys (enc_round block key) (enc_round-IsBlock block key b k) ks)
    ∙ dec_round-enc_round block key b

dec_rounds-enc_reversed :
    (keys : List ℕ) (block : Block)
    → IsBlock block
    → AreWords keys
    → dec_rounds keys (enc_rounds (reversed keys) block) ≡ block
unfolding enc_rounds dec_rounds
dec_rounds-enc_reversed [] block b k = refl
dec_rounds-enc_reversed (key ∷ keys) block b (k, ks) =
    ap (λ x. dec_rounds keys (dec_round x key)) (enc_rounds-append (reversed keys) key block)
    ∙ ap (dec_rounds keys) (
        dec_round-enc_round (enc_rounds (reversed keys) block) key
          (enc_rounds-IsBlock (reversed keys) block b (AreWords-reversed keys ks)))
    ∙ dec_rounds-enc_reversed keys block b ks

-- The four words of a key have 64 bits.
abbrev pub IsKey : Key → Type 0
IsKey key =
    (key.first < 2 ^ 64) × (key.second < 2 ^ 64) × (key.third < 2 ^ 64) × (key.fourth < 2 ^ 64)

get_or-word : (xs : List ℕ) (i : ℕ) → AreWords xs → get_or xs i 0 < 2 ^ 64
get_or-word [] i h = omega arith
get_or-word (x ∷ xs) zero h = h.0
get_or-word (x ∷ xs) (suc i) h = get_or-word xs i h.1

set-AreWords : (xs : List ℕ) (i v : ℕ) → AreWords xs → v < 2 ^ 64 → AreWords (set xs i v)
set-AreWords [] i v h k = tt
set-AreWords (x ∷ xs) zero v h k = (k, h.1)
set-AreWords (x ∷ xs) (suc i) v h k = (h.0, set-AreWords xs i v h.1 k)

schedule_from-AreWords :
    (rounds i : ℕ) (l : List ℕ) (key : ℕ)
    → AreWords l
    → key < 2 ^ 64
    → i + rounds < 2 ^ 64
    → AreWords (schedule_from rounds i l key) × (length (schedule_from rounds i l key) ≡ suc rounds)
unfolding schedule_from
schedule_from-AreWords zero i l key h k small = ((k, tt), refl)
schedule_from-AreWords (suc rounds) i l key h k small =
    let s : (key + rotate_right (get_or l (i % 3) 0) 8) % 2 ^ 64 < 2 ^ 64 = omega arith in
    let m = bit_xor-lt 64 _ i s (omega arith) in
    let (ws, n) =
      schedule_from-AreWords rounds (i + 1) _ _ (set-AreWords l (i % 3) _ h m)
        (bit_xor-lt 64 _ _ (rotate_left-three-lt key k) m) (omega arith) in
    ((k, ws), ap suc n)

-- `key_schedule` gives a key for each of the 34 rounds, and words are words.
key_schedule-AreWords :
    (key : Key) → IsKey key → AreWords (key_schedule key) × (length (key_schedule key) ≡ 34)
unfolding key_schedule
key_schedule-AreWords key (a, b, c, d) =
    schedule_from-AreWords 33 0 (key.second ∷ key.third ∷ key.fourth ∷ []) key.first
      (b, (c, (d, tt))) a (omega arith)

-- For every key and block of 64-bit words, the rounds of decryption with the 34 keys of `key_schedule`,
-- last first, undo `speck_encrypt`.
pub dec_rounds-speck_encrypt :
    (key : Key) (block out : Block)
    → IsKey key
    → IsBlock block
    → (length (key_schedule key) ≡ 34)
      × (dec_rounds (reversed (key_schedule key)) (speck_encrypt true block out key) ≡ block)
unfolding speck_encrypt
dec_rounds-speck_encrypt key block out k b =
    let (ws, n) = key_schedule-AreWords key k in
    (n, dec_rounds-enc_rounds (key_schedule key) block b ws)

-- `speck_decrypt` takes the round keys in the order of encryption: what it undoes is encryption with
-- the round keys last first.
pub speck_decrypt-reversed :
    (key : Key) (block out : Block)
    → IsKey key
    → IsBlock block
    → speck_decrypt true (enc_rounds (reversed (key_schedule key)) block) out key ≡ block
unfolding speck_decrypt
speck_decrypt-reversed key block out k b =
    dec_rounds-enc_reversed (key_schedule key) block b (key_schedule-AreWords key k).0
