-- ===== src/Aont/Tests.antt =====
-- A package of four words in two shares, for src/lib/aont.c.
use artifice.Base.{
  ℕ, suc, ◌*◌, ◌≤◌, ◌≡◌, refl, arith, true, List, [], ◌∷◌, length, done, some, replicate,
  length-replicate,
}
use artifice.Speck.{Block}
use artifice.Speck.Rounds.{IsBlock}
use artifice.Aont.{ErasureCode, AgreeOff, among}
use artifice.Aont.Package.{Allocated, encode_aont_package, decode_aont_package, rs_block_size}
use artifice.Aont.Laws.{HasMemory, decode-encode_aont_package}

agree_everywhere :
    (i : ℕ) (got sent : List (List ℕ)) (erasures : List ℕ)
    → length erasures ≤ 0
    → AgreeOff erasures i got sent
    → got ≡ sent
unfolding AgreeOff among
agree_everywhere i [] [] erasures h a = refl
agree_everywhere i [] (y ∷ ys) erasures h a = absurd a
agree_everywhere i (x ∷ xs) [] erasures h a = absurd a
agree_everywhere i (x ∷ xs) (y ∷ ys) [] h (same, a) =
    let rest = agree_everywhere (suc i) xs ys [] h a in λ j. same refl j ∷ rest j
agree_everywhere i (x ∷ xs) (y ∷ ys) (e ∷ erasures) h a = absurd (omega arith)

-- A code without parity blocks.
abbrev plain_code : ErasureCode 2 0
plain_code = record {
  parity = λ blocks. [];
  recover = λ got parity erasures. got;
  recover-parity = λ blocks got got_parity erasures l few agree agree_parity.
      agree_everywhere 0 got blocks erasures few agree;
}

abbrev hash : List ℕ → List ℕ
hash words = replicate 4 (length words)

abbrev memory : Allocated
memory = record {
  has_plaintext = true;
  has_ciphertext = true;
  ciphertext = replicate 8 0;
  plaintext = replicate 8 0;
  has_pad = true;
  has_keys = λ _. true;
  pad = record { low = 0; high = 0 };
}

memory-HasMemory : HasMemory 8 memory
memory-HasMemory = record {
  plaintext_there = refl;
  ciphertext_there = refl;
  pad_there = refl;
  keys_there = refl;
  room = length-replicate {A = ℕ} 8 0;
}

abbrev plaintext : List ℕ
plaintext = 10 ∷ 20 ∷ 30 ∷ 40 ∷ []

abbrev key : List ℕ
key = 1 ∷ 2 ∷ 3 ∷ 4 ∷ []

abbrev nonce : Block
nonce = record { low = 5; high = 6 }

nonce-IsBlock : IsBlock nonce
nonce-IsBlock = record { low_word = omega arith; high_word = omega arith }

divides : rs_block_size hash plain_code 4 * 2 ≡ 8
unfolding rs_block_size
divides = omega arith

decode-encode_aont_package_example :
    (difference : List ℕ) × (shares parity : List (List ℕ)) × (encode_aont_package hash plain_code
        memory key plaintext nonce
      ≡ done (some (difference, shares, parity)))
    × ((got got_parity : List (List ℕ)) (erasures : List ℕ)
        → length erasures ≤ 0
        → AgreeOff erasures 0 got shares
        → AgreeOff erasures 2 got_parity parity
        → decode_aont_package hash plain_code memory 4 got got_parity nonce erasures
          ≡ done (some (difference, plaintext)))
decode-encode_aont_package_example =
    decode-encode_aont_package hash (λ words. length-replicate {A = ℕ} 4 (length words)) plain_code
      2 memory memory key plaintext nonce (omega arith) (omega arith) divides memory-HasMemory
      memory-HasMemory nonce-IsBlock
