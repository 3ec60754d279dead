-- ===== src/Base/Xor.antt =====
-- Exclusive or and or of machine words, from their binary digits.
use Prim.Native.Nat.{
  ℕ, zero, suc, ◌+◌, ◌*◌, ◌/◌, ◌%◌, ◌^◌, ◌≤◌, ◌<◌, max, digits, bit_or, bit_xor, bit_or-bitwise,
  bit_xor-bitwise, differ,
}
use mathlib.Core.Path.{◌≡◌, refl, ap}
use native.Mathlib.Nat.{pow-suc}
use native.Mathlib.Omega.{arith}

-- Fuel at and beyond the first number makes no difference to the digits.
fuel_lem :
    (z : ℕ → ℕ) (op : ℕ → ℕ → ℕ) (more less x y : ℕ)
    → x ≤ less
    → less ≤ more
    → digits z op more x y ≡ digits z op less x y
fuel_lem z op zero zero x y h k = refl
fuel_lem z op zero (suc less) x y h k = absurd (omega arith)
fuel_lem z op (suc more) less zero y h k = none less
  where
    none : (f : ℕ) → z y ≡ digits z op f zero y
    none zero = refl
    none (suc f) = refl
fuel_lem z op (suc more) zero (suc x) y h k = absurd (omega arith)
fuel_lem z op (suc more) (suc less) (suc x) y h k =
    let rest = fuel_lem z op more less (suc x / 2) (y / 2) (omega arith) (omega arith) in
    ap (λ w. w * 2 + op (suc x % 2) (y % 2)) rest

differ_lem : (p q : ℕ) → p < 2 → q < 2 → differ p q ≡ (p + q) % 2
differ_lem zero q h k = omega arith
differ_lem (suc zero) zero h k = refl
differ_lem (suc zero) (suc zero) h k = refl
differ_lem (suc zero) (suc (suc q)) h k = absurd (omega arith)
differ_lem (suc (suc p)) q h k = absurd (omega arith)

-- The two lowest digits give the lowest digit, the halves the rest.
pub bit_xor_halves : (x y : ℕ) → bit_xor x y ≡ 2 * bit_xor (x / 2) (y / 2) + (x + y) % 2
bit_xor_halves zero y = omega (arith, bit_xor-bitwise 0 y, bit_xor-bitwise 0 (y / 2))
bit_xor_halves (suc x) y = omega (
  arith,
  bit_xor-bitwise (suc x) y,
  bit_xor-bitwise (suc x / 2) (y / 2),
  fuel_lem (λ b. b) differ x (suc x / 2) (suc x / 2) (y / 2) (omega arith) (omega arith),
  differ_lem (suc x % 2) (y % 2) (omega arith) (omega arith),
)

pub bit_or_halves : (x y : ℕ) → bit_or x y ≡ 2 * bit_or (x / 2) (y / 2) + max (x % 2) (y % 2)
bit_or_halves zero y = omega (arith, bit_or-bitwise 0 y, bit_or-bitwise 0 (y / 2))
bit_or_halves (suc x) y = omega (
  arith,
  bit_or-bitwise (suc x) y,
  bit_or-bitwise (suc x / 2) (y / 2),
  fuel_lem (λ b. b) max x (suc x / 2) (suc x / 2) (y / 2) (omega arith) (omega arith),
)

pub bit_xor-zero : (n x : ℕ) → x ≤ n → bit_xor x 0 ≡ x
bit_xor-zero n zero h = refl
bit_xor-zero zero (suc x) h = absurd (omega arith)
bit_xor-zero (suc n) (suc x) h =
    omega (arith, bit_xor_halves (suc x) 0, bit_xor-zero n (suc x / 2) (omega arith))

-- Words stay words.
pub bit_xor-lt : (w x y : ℕ) → x < 2 ^ w → y < 2 ^ w → bit_xor x y < 2 ^ w
bit_xor-lt zero x y h k = ground (arith, bit_xor-zero 0 x (omega arith))
bit_xor-lt (suc w) x y h k = omega (
  arith,
  pow-suc 2 w,
  bit_xor_halves x y,
  bit_xor-lt w (x / 2) (y / 2) (omega (arith, pow-suc 2 w)) (omega (arith, pow-suc 2 w)),
)

bit_xor-half : (x y : ℕ) → bit_xor x y / 2 ≡ bit_xor (x / 2) (y / 2)
bit_xor-half x y = omega (arith, bit_xor_halves x y)

bit_or-half : (x y : ℕ) → bit_or x y / 2 ≡ bit_or (x / 2) (y / 2)
bit_or-half x y = omega (arith, bit_or_halves x y)

-- Of three words that are mixed by exclusive or, two cancel as they do in a round of the cipher.
bit_xor_mix_up_to :
    (n s k r : ℕ) → s ≤ n → k ≤ n → r ≤ n → bit_xor (bit_xor s k) (bit_xor (bit_xor r s) k) ≡ r
bit_xor_mix_up_to zero zero zero zero a b c = refl
bit_xor_mix_up_to zero (suc s) k r a b c = absurd (omega arith)
bit_xor_mix_up_to zero zero (suc k) r a b c = absurd (omega arith)
bit_xor_mix_up_to zero zero zero (suc r) a b c = absurd (omega arith)
bit_xor_mix_up_to (suc n) s k r a b c =
    let whole = bit_xor_halves (bit_xor s k) (bit_xor (bit_xor r s) k) in
    let halved = rw (bit_xor-half s k, bit_xor-half (bit_xor r s) k, bit_xor-half r s) at whole in
    let rest =
      bit_xor_mix_up_to n (s / 2) (k / 2) (r / 2) (omega arith) (omega arith) (omega arith) in
    omega
      (arith, halved, rest, bit_xor_halves s k, bit_xor_halves (bit_xor r s) k, bit_xor_halves r s)

pub bit_xor_mix : (s k r : ℕ) → bit_xor (bit_xor s k) (bit_xor (bit_xor r s) k) ≡ r
bit_xor_mix s k r = bit_xor_mix_up_to (s + k + r) s k r (omega arith) (omega arith) (omega arith)

bit_xor_twice_up_to : (n x k : ℕ) → x ≤ n → k ≤ n → bit_xor (bit_xor x k) k ≡ x
bit_xor_twice_up_to zero zero zero a b = refl
bit_xor_twice_up_to zero (suc x) k a b = absurd (omega arith)
bit_xor_twice_up_to zero zero (suc k) a b = absurd (omega arith)
bit_xor_twice_up_to (suc n) x k a b =
    let halved = rw (bit_xor-half x k) at (bit_xor_halves (bit_xor x k) k) in
    omega (
      arith,
      halved,
      bit_xor_halves x k,
      bit_xor_twice_up_to n (x / 2) (k / 2) (omega arith) (omega arith),
    )

-- A mask that is applied twice is gone.
pub bit_xor_twice : (x k : ℕ) → bit_xor (bit_xor x k) k ≡ x
bit_xor_twice x k = bit_xor_twice_up_to (x + k) x k (omega arith) (omega arith)

bit_or-zero : (n x : ℕ) → x ≤ n → bit_or x 0 ≡ x
bit_or-zero n zero h = refl
bit_or-zero zero (suc x) h = absurd (omega arith)
bit_or-zero (suc n) (suc x) h =
    omega (arith, bit_or_halves (suc x) 0, bit_or-zero n (suc x / 2) (omega arith))

zero-bit_or : (y : ℕ) → bit_or 0 y ≡ y
zero-bit_or y = bit_or-bitwise 0 y

-- Bits that stand apart add up, in either order.
pub bit_or_low : (w low high : ℕ) → low < 2 ^ w → bit_or low (high * 2 ^ w) ≡ low + high * 2 ^ w
bit_or_low zero low high h =
    let z : low ≡ 0 = omega arith in rw z (omega (arith, zero-bit_or (high * 1)))
bit_or_low (suc w) low high h =
    let e : high * 2 ^ suc w ≡ 2 * (high * 2 ^ w) =
      omega (arith, ap (λ (t : ℕ). high * t) (pow-suc 2 w)) in
    let half : 2 * (high * 2 ^ w) / 2 ≡ high * 2 ^ w = omega arith in
    let whole = rw half at (bit_or_halves low (2 * (high * 2 ^ w))) in
    rw e (omega (arith, whole, bit_or_low w (low / 2) high (omega (arith, pow-suc 2 w))))

pub bit_or_high : (w low high : ℕ) → low < 2 ^ w → bit_or (high * 2 ^ w) low ≡ high * 2 ^ w + low
bit_or_high zero low high h =
    let z : low ≡ 0 = omega arith in
    rw z (omega (arith, bit_or-zero (high * 1) (high * 1) (omega arith)))
bit_or_high (suc w) low high h =
    let e : high * 2 ^ suc w ≡ 2 * (high * 2 ^ w) =
      omega (arith, ap (λ (t : ℕ). high * t) (pow-suc 2 w)) in
    let half : 2 * (high * 2 ^ w) / 2 ≡ high * 2 ^ w = omega arith in
    let whole = rw half at (bit_or_halves (2 * (high * 2 ^ w)) low) in
    rw e (omega (arith, whole, bit_or_high w (low / 2) high (omega (arith, pow-suc 2 w))))
