-- ===== src/Speck/Tests.antt =====
-- The cipher at the published vector for blocks of 128 and keys of 256 bits.
use artifice.Base.{
  ℕ, ◌+◌, ◌*◌, ◌^◌, ◌≡◌, refl, arith, true, false, ◌==◌, List, [], ◌∷◌, length, done,
}
use artifice.Speck.{
  Block, Key, key_schedule, schedule_from, rotate_left, rotate_right, enc_round, dec_round,
  enc_rounds, dec_rounds, speck_encrypt, speck_decrypt, speck_ctr,
}
use artifice.Speck.Rounds.{
  IsBlock, IsKey, reversed, dec_rounds-speck_encrypt, speck_decrypt-reversed,
}
use artifice.Speck.Counter.{counter_mode, speck_ctr_lem, speck_ctr_twice}

abbrev key : Key
key = record {
  first = 0x0706050403020100;
  second = 0x0f0e0d0c0b0a0908;
  third = 0x1716151413121110;
  fourth = 0x1f1e1d1c1b1a1918;
}

abbrev plain : Block
plain = record { low = 0x202e72656e6f6f70; high = 0x65736f6874206e49 }

abbrev crypt : Block
crypt = record { low = 0x4eeeb48d9c188f43; high = 0x4109010405c0f53e }

encrypts_vector : speck_encrypt true plain plain key ≡ crypt
unfolding speck_encrypt key_schedule schedule_from enc_rounds enc_round rotate_left rotate_right
encrypts_vector = refl

key-IsKey : IsKey key
key-IsKey = omega arith

plain-IsBlock : IsBlock plain
plain-IsBlock = omega arith

dec_rounds-speck_encrypt_example :
    (length (key_schedule key) ≡ 34)
    × (dec_rounds (reversed (key_schedule key)) (speck_encrypt true plain crypt key) ≡ plain)
dec_rounds-speck_encrypt_example = dec_rounds-speck_encrypt key plain crypt key-IsKey plain-IsBlock

speck_decrypt-reversed_example :
    speck_decrypt true (enc_rounds (reversed (key_schedule key)) plain) crypt key ≡ plain
speck_decrypt-reversed_example = speck_decrypt-reversed key plain crypt key-IsKey plain-IsBlock

-- So the plain text of the vector does not come back.
decrypts_vector : ((speck_decrypt true crypt crypt key).low == plain.low) ≡ false
unfolding speck_decrypt key_schedule schedule_from dec_rounds dec_round rotate_left rotate_right
decrypts_vector = refl

abbrev message : List ℕ
message = 1 ∷ 2 ∷ 3 ∷ 4 ∷ []

-- A nonce whose low word overflows after one round.
abbrev nonce : Block
nonce = record { low = 0xffffffffffffffff; high = 5 }

nonce-IsBlock : IsBlock nonce
nonce-IsBlock = omega arith

speck_ctr_lem_example :
    speck_ctr true (λ _. true) plain message [] key nonce
    ≡ done (counter_mode key (0xffffffffffffffff + 2 ^ 64 * 5) message)
speck_ctr_lem_example = speck_ctr_lem key 2 plain nonce message [] refl nonce-IsBlock

speck_ctr_twice_example :
    (text : List ℕ) × (speck_ctr true (λ _. true) plain message [] key nonce ≡ done text)
    × (speck_ctr true (λ _. true) crypt text message key nonce ≡ done message)
speck_ctr_twice_example =
    speck_ctr_twice key 2 plain crypt nonce message [] message refl nonce-IsBlock
