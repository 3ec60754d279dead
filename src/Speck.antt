-- ===== src/Speck.antt =====
-- src/lib/speck.c: the cipher with blocks of two 64-bit words, and its counter mode. Sums and shifts
-- wrap at 64 bits. An array of two words is a block; whether `speck_malloc` gives memory is an argument.
pub mod Rotate
pub mod Rounds
pub mod Counter
mod Tests
use artifice.Base.{
  ℕ, zero, suc, ◌+◌, ◌-◌, ◌*◌, ◌/◌, ◌^◌, ◌%◌, bit_or, bit_xor, Bool, ◌==◌, if◌then◌else◌, Outcome,
  fault, pending, done, List, [], ◌∷◌, get_or, set,
}

-- The words `in[0]` and `in[1]`.
pub record Block : Type 0 where
  pub low : ℕ
  pub high : ℕ

-- The four words of a key.
pub record Key : Type 0 where
  pub first : ℕ
  pub second : ℕ
  pub third : ℕ
  pub fourth : ℕ

-- `rotate` at a positive rotation, and at a negative one.
unfoldable pub rotate_left : ℕ → ℕ → ℕ
rotate_left word rotation = bit_or (word / 2 ^ (64 - rotation)) (word * 2 ^ rotation % 2 ^ 64)

unfoldable pub rotate_right : ℕ → ℕ → ℕ
rotate_right word rotation = bit_or (word * 2 ^ (64 - rotation) % 2 ^ 64) (word / 2 ^ rotation)

-- `add1`, for the one or more words of a little-endian counter: the carry goes on while words overflow.
unfoldable pub add1 : List ℕ → List ℕ
add1 [] = []
add1 (word ∷ words) = if word == 2 ^ 64 - 1 then 0 ∷ add1 words else (word + 1) ∷ words

-- The loop of `key_schedule` for `rounds` more keys after `key`, the key of round `i`; `l` is the array
-- of three words that the code calls so.
unfoldable pub schedule_from : ℕ → ℕ → List ℕ → ℕ → List ℕ
schedule_from zero i l key = key ∷ []
schedule_from (suc rounds) i l key =
    let mixed = bit_xor ((key + rotate_right (get_or l (i % 3) 0) 8) % 2 ^ 64) i in
    key ∷ schedule_from rounds (i + 1) (set l (i % 3) mixed) (bit_xor (rotate_left key 3) mixed)

-- `ROUNDS`
abbrev pub rounds : ℕ
rounds = 34

-- `key_schedule`
unfoldable pub key_schedule : Key → List ℕ
key_schedule key = schedule_from (rounds - 1) 0 (key.second ∷ key.third ∷ key.fourth ∷ []) key.first

-- `enc_round` and `dec_round`
unfoldable pub enc_round : Block → ℕ → Block
enc_round block key =
    let sum = (rotate_right block.high 8 + block.low) % 2 ^ 64 in
    record { low = bit_xor (bit_xor (rotate_left block.low 3) sum) key; high = bit_xor sum key }

unfoldable pub dec_round : Block → ℕ → Block
dec_round block key =
    let right = rotate_right (bit_xor block.high block.low) 3 in
    record {
      low = right;
      high = rotate_left ((bit_xor block.high key + 2 ^ 64 - right) % 2 ^ 64) 8;
    }

-- The loops of `speck_encrypt` and `speck_decrypt` over the round keys.
unfoldable pub enc_rounds : List ℕ → Block → Block
enc_rounds [] block = block
enc_rounds (key ∷ keys) block = enc_rounds keys (enc_round block key)

unfoldable pub dec_rounds : List ℕ → Block → Block
dec_rounds [] block = block
dec_rounds (key ∷ keys) block = dec_rounds keys (dec_round block key)

-- `speck_encrypt` and `speck_decrypt`: what `out` holds afterwards. Without memory for the round keys
-- it keeps what it held.
unfoldable pub speck_encrypt : Bool → Block → Block → Key → Block
speck_encrypt has_keys block out key = if has_keys then enc_rounds (key_schedule key) block else out

unfoldable pub speck_decrypt : Bool → Block → Block → Key → Block
speck_decrypt has_keys block out key = if has_keys then dec_rounds (key_schedule key) block else out

-- The block that `local_nonce` is.
unfoldable pub block_of : List ℕ → Block
block_of words = record { low = get_or words 0 0; high = get_or words 1 0 }

-- One round of the loop of `speck_ctr`: two words of the output, before those of the rest.
unfoldable pub masked : Block → ℕ → ℕ → Outcome (List ℕ) → Outcome (List ℕ)
masked pad x y (done rest) = done (bit_xor x pad.low ∷ bit_xor y pad.high ∷ rest)
masked pad x y fault = fault
masked pad x y pending = pending

-- The loop of `speck_ctr` from round `i` on, over the words of the input that are left. An odd last
-- word makes it read behind the input.
unfoldable pub ctr_from : (ℕ → Bool) → Key → ℕ → Block → List ℕ → List ℕ → Outcome (List ℕ)
ctr_from has_keys key i pad nonce [] = done []
ctr_from has_keys key i pad nonce (x ∷ []) = fault
ctr_from has_keys key i pad nonce (x ∷ y ∷ words) =
    let pad' = speck_encrypt (has_keys i) (block_of nonce) pad key in
    masked pad' x y (ctr_from has_keys key (i + 1) pad' (add1 nonce) words)

-- `speck_ctr` over whole words: what `out` holds afterwards. Without memory for the pad it keeps what
-- it held; `pad` is what that memory holds at first.
unfoldable pub speck_ctr :
    Bool → (ℕ → Bool) → Block → List ℕ → List ℕ → Key → Block → Outcome (List ℕ)
speck_ctr has_pad has_keys pad words out key nonce =
    if has_pad then ctr_from has_keys key 0 pad (nonce.low ∷ nonce.high ∷ []) words else done out
