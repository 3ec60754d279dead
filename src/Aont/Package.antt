-- ===== src/Aont/Package.antt =====
-- `encode_aont_package` and `decode_aont_package` of src/lib/aont.c.
use artifice.Base.{
  ℕ, zero, suc, ◌+◌, ◌*◌, ◌/◌, Bool, if◌then◌else◌, ◌&&◌, List, [], ◌∷◌, ◌++◌, length, get_or, take,
  slice, memcpy, bit_xor, Outcome, fault, pending, done, Option, none, some,
}
use artifice.Speck.{Block, Key, speck_ctr}
use artifice.Aont.{ErasureCode}

-- `KEY_SIZE`, in words
abbrev pub key_size : ℕ
key_size = 4

-- The array `key` of four words, as `speck_ctr` reads it.
unfoldable pub key_of : List ℕ → Key
key_of words = record {
  first = get_or words 0 0;
  second = get_or words 1 0;
  third = get_or words 2 0;
  fourth = get_or words 3 0;
}

-- The loops over four words, with `^`.
unfoldable pub xor_words : List ℕ → List ℕ → List ℕ
xor_words (x ∷ xs) (y ∷ ys) = bit_xor x y ∷ xor_words xs ys
xor_words xs ys = []

-- The loop that copies the shares from number `i` on out of the buffer, `k` of them.
unfoldable pub shares_from : ℕ → ℕ → ℕ → List ℕ → List (List ℕ)
shares_from size i zero buffer = []
shares_from size i (suc k) buffer = slice buffer (size * i) size ∷ shares_from size (suc i) k buffer

-- The loop that copies the shares from number `i` on into the buffer.
unfoldable pub gather_from : ℕ → ℕ → List (List ℕ) → List ℕ → List ℕ
gather_from size i [] buffer = buffer
gather_from size i (share ∷ shares) buffer =
    gather_from size (suc i) shares (memcpy buffer (size * i) share)

-- What the calls of `kmalloc` give: the two buffers, with what the second one holds, and the memory
-- inside `speck_ctr`.
pub record Allocated : Type 0 where
  pub has_plaintext : Bool
  pub has_ciphertext : Bool
  pub ciphertext : List ℕ
  pub plaintext : List ℕ
  pub has_pad : Bool
  pub has_keys : ℕ → Bool
  pub pad : Block

module _ (sha3_256 : List ℕ → List ℕ) {data_blocks parity_blocks : ℕ}
    (code : ErasureCode data_blocks parity_blocks) where
  -- `rs_block_size`
  unfoldable pub rs_block_size : ℕ → ℕ
  rs_block_size data_length = (data_length + key_size) / data_blocks

  -- From the ciphertext on: the difference, and the data and parity shares.
  unfoldable pub packed :
      List ℕ → Outcome (List ℕ) → Outcome (Option (List ℕ × List (List ℕ) × List (List ℕ)))
  unfolding rs_block_size xor_words shares_from
  packed key (done cipher) =
      let difference = xor_words key (sha3_256 cipher) in
      let shares =
        shares_from (rs_block_size (length cipher)) 0 data_blocks (cipher ++ difference) in
      done (some (difference, shares, code.parity shares))
  packed key fault = fault
  packed key pending = pending

  -- `encode_aont_package`; `key` is what `get_random_bytes` gives.
  unfoldable pub encode_aont_package :
      Allocated
      → List ℕ
      → List ℕ
      → Block
      → Outcome (Option (List ℕ × List (List ℕ) × List (List ℕ)))
  unfolding packed key_of
  encode_aont_package m key plaintext nonce =
      if m.has_plaintext && m.has_ciphertext
      then packed key (
          speck_ctr m.has_pad m.has_keys m.pad plaintext (take (length plaintext) m.ciphertext)
            (key_of key) nonce)
      else done none

  -- The end of `decode_aont_package`: the difference and the data.
  unfoldable pub unpacked : List ℕ → Outcome (List ℕ) → Outcome (Option (List ℕ × List ℕ))
  unpacked difference (done plaintext) = done (some (difference, plaintext))
  unpacked difference fault = fault
  unpacked difference pending = pending

  -- `decode_aont_package`, for `data_length` words.
  unfoldable pub decode_aont_package :
      Allocated
      → ℕ
      → List (List ℕ)
      → List (List ℕ)
      → Block
      → List ℕ
      → Outcome (Option (List ℕ × List ℕ))
  unfolding unpacked gather_from rs_block_size xor_words key_of
  decode_aont_package m data_length shares parity nonce erasures =
      let buffer =
        gather_from (rs_block_size data_length) 0 (code.recover shares parity erasures)
          m.ciphertext in
      let cipher = take data_length buffer in
      let difference = slice buffer data_length key_size in
      let key = xor_words difference (sha3_256 cipher) in
      if m.has_plaintext && m.has_ciphertext
      then unpacked difference (
          speck_ctr m.has_pad m.has_keys m.pad cipher (take data_length m.plaintext) (key_of key)
            nonce)
      else done none
