-- ===== src/Ext4/Powers.antt =====
-- `is_pow_n` of src/modules/dm_afs_ext4.c.
use artifice.Base.{
  ℕ, zero, suc, ◌*◌, ◌/◌, ◌%◌, ◌^◌, ◌≤◌, ◌<◌, ◌≡◌, refl, sym, ap, ◌∙◌, arith, inl, inr, Bool, true,
  false, ◌⊎◌, ◌||◌, ◌==◌, Bool-cases,
}
use mathlib.Core.Logic.{◌↔◌}
use native.Mathlib.Nat.{
  pow-zero, pow-suc, one-mul, mul-one, mul_assoc, mul_comm, mul-mod_left, mul-div_left, div-lt_self,
  zero-mul, mul-le-mul_left, div-add-mod', mod-eq_of_lt,
}
use artifice.Ext4.Bitmap.{divided, is_pow_n, has_backups}

module _ (n : ℕ) (h : 2 ≤ n) where
  whole_lem : (num : ℕ) → num % n ≡ 0 → num ≡ num / n * n
  whole_lem num e = let q = div-add-mod' num n in omega (arith, q, e)

  some_power : (k : ℕ) → 0 < n ^ k
  some_power zero = rw (pow-zero n) (omega arith)
  some_power (suc k) =
      let p = mul-le-mul_left {m = 1} {n = n} (n ^ k) (omega arith) in
      rw (pow-suc n k) (let q = some_power k in omega (arith, p, q))

  -- What the loop takes out is a power of `n`.
  divided_lem : (fuel num : ℕ) → num ≤ fuel → 0 < num → (k : ℕ) × (num ≡ n ^ k * divided fuel num n)
  unfolding divided
  divided_lem zero num l p = absurd (omega arith)
  divided_lem (suc fuel) num l p = elim (Bool-cases (num % n == 0)) [
    | inl whole ↦
        let e = whole_lem num (ground arith) in
        let less = div-lt_self {n = num} {k = n} p (omega arith) in
        let some_left : 0 < num / n = elim (Bool-cases (num / n == 0)) [
          | inl none_left ↦
              let z : num / n ≡ 0 = ground arith in
              let y : num / n * n ≡ 0 = ap (λ b. b * n) z ∙ zero-mul n in absurd (omega arith)
          | inr some_left ↦ ground arith
        ] in
        let (k, e') = divided_lem fuel (num / n) (omega arith) some_left in
        (
          suc k,
          rw whole (
              e
              ∙ ap (λ x. x * n) e'
              ∙ mul_assoc (n ^ k) (divided fuel (num / n) n) n
              ∙ ap (λ x. n ^ k * x) (mul_comm (divided fuel (num / n) n) n)
              ∙ sym (mul_assoc (n ^ k) n (divided fuel (num / n) n))
              ∙ ap (λ x. x * divided fuel (num / n) n) (sym (pow-suc n k))),
        )
    | inr rest ↦ (0, rw rest (rw (pow-zero n) (sym (one-mul num))))
  ]

  divided-power : (fuel k : ℕ) → n ^ k ≤ fuel → divided fuel (n ^ k) n ≡ 1
  unfolding divided
  divided-power zero k l = let q = some_power k in absurd (omega arith)
  divided-power (suc fuel) zero l =
      let f : (1 % n == 0) ≡ false = rw (mod-eq_of_lt {n = 1} {m = n} (omega arith)) refl in
      rw (pow-zero n) (rw f refl)
  divided-power (suc fuel) (suc k) l =
      let z : (n ^ k * n % n == 0) ≡ true = rw (mul-mod_left (n ^ k) n) refl in
      let q = mul-div_left (n ^ k) {n = n} (omega arith) in
      let less : n ^ k ≤ fuel =
        let p = some_power k in
        let m = mul-le-mul_left {m = 2} {n = n} (n ^ k) h in
        let l' : n ^ k * n ≤ suc fuel = rw (pow-suc n k) at l in omega (arith, p, m, l') in
      rw (pow-suc n k) (rw (z, q) (divided-power fuel k less))

  power_lem : (num k : ℕ) → num ≡ n ^ k → divided num num n ≡ 1
  power_lem num k e = rw e (divided-power (n ^ k) k (omega arith))

  -- For `n` of 2 or more, `is_pow_n` tells whether a number is a power of `n`: the fuel is enough.
  pub is_pow_n_lem : (num : ℕ) → (is_pow_n num n ≡ true) ↔ ((k : ℕ) × (num ≡ n ^ k))
  unfolding is_pow_n
  is_pow_n_lem zero = ((λ e. cc), λ (k, e). let p = some_power k in absurd (omega arith))
  is_pow_n_lem (suc m) = (
    λ e.
        let (k, e') = divided_lem (suc m) (suc m) (omega arith) (omega arith) in
        let one : divided (suc m) (suc m) n ≡ 1 = ground arith in
        (k, e' ∙ ap (λ x. n ^ k * x) one ∙ mul-one (n ^ k)),
    λ (k, e).
        let one = power_lem (suc m) k e in
        let f : (suc m == 0) ≡ false = ground arith in rw (f, one) refl,
  )

-- The groups that hold backups with sparse super blocks: 0 and the powers of 3, 5 and 7.
abbrev pub HoldsBackups : ℕ → Type 0
HoldsBackups i =
    (i ≡ 0) ⊎ ((k : ℕ) × (i ≡ 3 ^ k)) ⊎ ((k : ℕ) × (i ≡ 5 ^ k)) ⊎ ((k : ℕ) × (i ≡ 7 ^ k))

or_cases : (a b : Bool) → (a || b) ≡ true → (a ≡ true) ⊎ (b ≡ true)
or_cases true b h = inl refl
or_cases false b h = inr h

or_first : (a b : Bool) → a ≡ true → (a || b) ≡ true
or_first a b h = rw h refl

or_second : (a b : Bool) → b ≡ true → (a || b) ≡ true
or_second true b h = refl
or_second false b h = h

pub has_backups_lem : (i : ℕ) → (has_backups i ≡ true) ↔ HoldsBackups i
unfolding has_backups
has_backups_lem i =
    let three = is_pow_n_lem 3 (omega arith) i in
    let five = is_pow_n_lem 5 (omega arith) i in
    let seven = is_pow_n_lem 7 (omega arith) i in
    let q3 = (i == 0) || is_pow_n i 3 in
    let q5 = q3 || is_pow_n i 5 in
    (
      λ h. elim (or_cases q5 (is_pow_n i 7) h) [
        | inr c ↦ inr (inr (inr (seven.0 c)))
        | inl h' ↦ elim (or_cases q3 (is_pow_n i 5) h') [
          | inr b ↦ inr (inr (inl (five.0 b)))
          | inl h'' ↦ elim (or_cases (i == 0) (is_pow_n i 3) h'') [
            | inr a ↦ inr (inl (three.0 a))
            | inl z ↦ inl (ground arith)
          ]
        ]
      ],
      λ h. elim h [
        | inl z ↦ let f : (i == 0) ≡ true = ground arith in rw f refl
        | inr (inl a) ↦
            or_first q5 (is_pow_n i 7)
              (or_first q3 (is_pow_n i 5) (or_second (i == 0) (is_pow_n i 3) (three.1 a)))
        | inr (inr (inl b)) ↦ or_first q5 (is_pow_n i 7) (or_second q3 (is_pow_n i 5) (five.1 b))
        | inr (inr (inr c)) ↦ or_second q5 (is_pow_n i 7) (seven.1 c)
      ],
    )
