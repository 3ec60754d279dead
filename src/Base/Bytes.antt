-- ===== src/Base/Bytes.antt =====
-- memcpy and the reading of a range, on C memory as a list of bytes.
use Prim.Native.Nat.{ℕ, zero, suc, ◌+◌, ◌-◌, ◌≤◌}
use mathlib.Core.Path.{◌≡◌, refl, sym, ap, ◌∙◌}
use mathlib.Core.List.{List, [], ◌∷◌, ◌++◌, append_assoc}
use native.Mathlib.Omega.{arith}
use artifice.Base.Lists.{
  length, take, drop, length-append, length-take, length-drop, take-append, drop-append, drop-drop,
  take-append-drop, take-append_short, drop-append_short,
}

module _ {ℓ} {A : Type ℓ} where
  -- The `n` bytes from `off` on.
  unfoldable pub slice : List A → ℕ → ℕ → List A
  slice xs off n = take n (drop off xs)

  -- `memcpy(dst + off, src, length src)`, where it stays inside `dst`.
  unfoldable pub memcpy : List A → ℕ → List A → List A
  memcpy dst off src = take off dst ++ (src ++ drop (off + length src) dst)

  pub length-slice : (xs : List A) (off n : ℕ) → off + n ≤ length xs → length (slice xs off n) ≡ n
  unfolding slice
  length-slice xs off n h = omega (arith, length-take n (drop off xs), length-drop off xs)

  pub length-memcpy :
      (dst : List A) (off : ℕ) (src : List A)
      → off + length src ≤ length dst
      → length (memcpy dst off src) ≡ length dst
  unfolding memcpy
  length-memcpy dst off src h = omega (
    arith,
    length-append (take off dst) (src ++ drop (off + length src) dst),
    length-append src (drop (off + length src) dst),
    length-take off dst,
    length-drop (off + length src) dst,
  )

  pub take-add : (a b : ℕ) (xs : List A) → take (a + b) xs ≡ take a xs ++ take b (drop a xs)
  take-add zero b xs = let e : zero + b ≡ b = omega arith in rw e refl
  take-add (suc a) zero [] = let e : suc a + zero ≡ suc a = omega arith in rw e refl
  take-add (suc a) (suc b) [] = let e : suc a + suc b ≡ suc (a + suc b) = omega arith in rw e refl
  take-add (suc a) b (x ∷ xs) =
      let e : suc a + b ≡ suc (a + b) = omega arith in rw e (ap (λ k. x ∷ k) (take-add a b xs))

  -- What was copied is read back.
  pub slice-memcpy_same :
      (dst : List A) (off : ℕ) (src : List A)
      → off ≤ length dst
      → slice (memcpy dst off src) off (length src) ≡ src
  unfolding slice memcpy
  slice-memcpy_same dst off src h =
      rw
        (drop-append off (take off dst) (src ++ drop (off + length src) dst)
          (omega (arith, length-take off dst)))
        (take-append (length src) src (drop (off + length src) dst) refl)

  length_head :
      (dst : List A) (off : ℕ) (src : List A)
      → off ≤ length dst
      → length (take off dst ++ src) ≡ off + length src
  length_head dst off src h = omega (arith, length-append (take off dst) src, length-take off dst)

  memcpy_grouped :
      (dst : List A) (off : ℕ) (src : List A)
      → memcpy dst off src ≡ (take off dst ++ src) ++ drop (off + length src) dst
  unfolding memcpy
  memcpy_grouped dst off src = sym (append_assoc (take off dst) src _)

  pub drop-memcpy :
      (dst : List A) (off : ℕ) (src : List A) (i : ℕ)
      → off ≤ length dst
      → off + length src ≤ i
      → drop i (memcpy dst off src) ≡ drop i dst
  drop-memcpy dst off src i h k =
      let e : i ≡ off + length src + (i - (off + length src)) = omega arith in
      rw (memcpy_grouped dst off src) (
        rw e (
          sym (
            drop-drop (off + length src) (i - (off + length src))
              ((take off dst ++ src) ++ drop (off + length src) dst))
          ∙ ap (drop (i - (off + length src))) (
              drop-append (off + length src) (take off dst ++ src) (drop (off + length src) dst)
                (length_head dst off src h))
          ∙ drop-drop (off + length src) (i - (off + length src)) dst))

  -- A range after the copy reads as before.
  pub slice-memcpy_after :
      (dst : List A) (off : ℕ) (src : List A) (i n : ℕ)
      → off ≤ length dst
      → off + length src ≤ i
      → slice (memcpy dst off src) i n ≡ slice dst i n
  unfolding slice
  slice-memcpy_after dst off src i n h k = ap (take n) (drop-memcpy dst off src i h k)

  -- The part up to the end of a copy.
  pub take-memcpy :
      (dst : List A) (off : ℕ) (src : List A)
      → off ≤ length dst
      → take (off + length src) (memcpy dst off src) ≡ take off dst ++ src
  take-memcpy dst off src h = rw (memcpy_grouped dst off src) (
      take-append (off + length src) (take off dst ++ src) (drop (off + length src) dst)
        (length_head dst off src h))

  -- A range before the copy reads as before.
  pub slice-memcpy_before :
      (dst : List A) (off : ℕ) (src : List A) (i n : ℕ)
      → i + n ≤ off
      → off ≤ length dst
      → slice (memcpy dst off src) i n ≡ slice dst i n
  unfolding slice memcpy
  slice-memcpy_before dst off src i n h k =
      let rest = src ++ drop (off + length src) dst in
      let l = length-take off dst in
      ap (take n) (drop-append_short i (take off dst) rest (omega arith))
      ∙ take-append_short n (drop i (take off dst)) rest
          (omega (arith, length-drop i (take off dst)))
      ∙ sym (
          ap (λ d. take n (drop i d)) (sym (take-append-drop off dst))
          ∙ ap (take n) (drop-append_short i (take off dst) (drop off dst) (omega arith))
          ∙ take-append_short n (drop i (take off dst)) (drop off dst)
              (omega (arith, length-drop i (take off dst))))

  -- A copy right behind another one, and the copy of nothing.
  pub memcpy-memcpy_next :
      (dst : List A) (off : ℕ) (src more : List A)
      → off ≤ length dst
      → memcpy (memcpy dst off src) (off + length src) more ≡ memcpy dst off (src ++ more)
  unfolding memcpy
  memcpy-memcpy_next dst off src more h =
      let l = length-append src more in
      let e : off + length (src ++ more) ≡ off + length src + length more = omega arith in
      let d = drop (off + length src + length more) dst in
      ap (λ k. k ++ (more ++ drop (off + length src + length more) (memcpy dst off src)))
        (take-memcpy dst off src h)
      ∙ ap (λ k. (take off dst ++ src) ++ (more ++ k))
          (drop-memcpy dst off src (off + length src + length more) h (omega arith))
      ∙ append_assoc (take off dst) src (more ++ d)
      ∙ ap (λ k. take off dst ++ k) (sym (append_assoc src more d))
      ∙ ap (λ k. take off dst ++ ((src ++ more) ++ drop k dst)) (sym e)

  pub memcpy_nothing : (dst : List A) (off : ℕ) → memcpy dst off [] ≡ dst
  unfolding memcpy
  memcpy_nothing dst off = let e : off + 0 ≡ off = omega arith in rw e (take-append-drop off dst)

  -- Two ranges in a row.
  pub slice-add :
      (xs : List A) (off m n : ℕ) → slice xs off (m + n) ≡ slice xs off m ++ slice xs (off + m) n
  unfolding slice
  slice-add xs off m n =
      take-add m n (drop off xs) ∙ ap (λ k. take m (drop off xs) ++ take n k) (drop-drop off m xs)

  -- A body copied behind a header that is copied later.
  pub slice-memcpy_header :
      (dst : List A) (off : ℕ) (body header : List A)
      → off + length body ≤ length dst
      → length header ≤ off
      → (length (memcpy (memcpy dst off body) 0 header) ≡ length dst)
        × (slice (memcpy (memcpy dst off body) 0 header) off (length body) ≡ body)
  slice-memcpy_header dst off body header h k =
      let l = length-memcpy dst off body h in
      (
        length-memcpy (memcpy dst off body) 0 header (omega arith) ∙ l,
        slice-memcpy_after (memcpy dst off body) 0 header off (length body) (omega arith)
              (omega arith)
            ∙ slice-memcpy_same dst off body (omega arith),
      )
