-- ===== src/Speck/Rotate.antt =====
-- The rotations of src/lib/speck.c by 3 and 8 bits as sums.
use artifice.Base.{ℕ, ◌+◌, ◌*◌, ◌/◌, ◌^◌, ◌%◌, ◌<◌, ◌≡◌, arith, bit_or_low, bit_or_high}
use artifice.Speck.{rotate_left, rotate_right}

rotate_left-three : (x : ℕ) → x < 2 ^ 64 → rotate_left x 3 ≡ x / 2 ^ 61 + x % 2 ^ 61 * 2 ^ 3
unfolding rotate_left
rotate_left-three x h =
    let e : x * 2 ^ 3 % 2 ^ 64 ≡ x % 2 ^ 61 * 2 ^ 3 = omega arith in
    rw e (bit_or_low 3 (x / 2 ^ 61) (x % 2 ^ 61) (omega arith))

rotate_left-eight : (x : ℕ) → x < 2 ^ 64 → rotate_left x 8 ≡ x / 2 ^ 56 + x % 2 ^ 56 * 2 ^ 8
unfolding rotate_left
rotate_left-eight x h =
    let e : x * 2 ^ 8 % 2 ^ 64 ≡ x % 2 ^ 56 * 2 ^ 8 = omega arith in
    rw e (bit_or_low 8 (x / 2 ^ 56) (x % 2 ^ 56) (omega arith))

rotate_right-three : (x : ℕ) → x < 2 ^ 64 → rotate_right x 3 ≡ x % 2 ^ 3 * 2 ^ 61 + x / 2 ^ 3
unfolding rotate_right
rotate_right-three x h =
    let e : x * 2 ^ 61 % 2 ^ 64 ≡ x % 2 ^ 3 * 2 ^ 61 = omega arith in
    rw e (bit_or_high 61 (x / 2 ^ 3) (x % 2 ^ 3) (omega arith))

rotate_right-eight : (x : ℕ) → x < 2 ^ 64 → rotate_right x 8 ≡ x % 2 ^ 8 * 2 ^ 56 + x / 2 ^ 8
unfolding rotate_right
rotate_right-eight x h =
    let e : x * 2 ^ 56 % 2 ^ 64 ≡ x % 2 ^ 8 * 2 ^ 56 = omega arith in
    rw e (bit_or_high 56 (x / 2 ^ 8) (x % 2 ^ 8) (omega arith))

pub rotate_left-three-lt : (x : ℕ) → x < 2 ^ 64 → rotate_left x 3 < 2 ^ 64
rotate_left-three-lt x h = omega (arith, rotate_left-three x h)

pub rotate_right-eight-lt : (x : ℕ) → x < 2 ^ 64 → rotate_right x 8 < 2 ^ 64
rotate_right-eight-lt x h = omega (arith, rotate_right-eight x h)

pub rotate_right-rotate_left_three : (x : ℕ) → x < 2 ^ 64 → rotate_right (rotate_left x 3) 3 ≡ x
rotate_right-rotate_left_three x h =
    omega (
      arith,
      rotate_right-three (rotate_left x 3) (rotate_left-three-lt x h),
      rotate_left-three x h,
    )

pub rotate_left-rotate_right_eight : (x : ℕ) → x < 2 ^ 64 → rotate_left (rotate_right x 8) 8 ≡ x
rotate_left-rotate_right_eight x h = omega (
  arith,
  rotate_left-eight (rotate_right x 8) (rotate_right-eight-lt x h),
  rotate_right-eight x h,
)
