-- ===== src/Base/Members.antt =====
-- Which numbers stand in a list.
use Prim.Native.Nat.{ℕ}
use mathlib.Core.Path.{◌≡◌}
use mathlib.Core.Logic.{◌⊎◌, inl, inr}
use mathlib.Core.List.{List, [], ◌∷◌, ◌++◌}

-- The number stands in the list.
abbrev pub Among : ℕ → List ℕ → Type 0
Among c [] = ⊥
Among c (x ∷ xs) = (c ≡ x) ⊎ Among c xs

pub Among-append_left : (c : ℕ) (xs ys : List ℕ) → Among c xs → Among c (xs ++ ys)
Among-append_left c [] ys a = absurd a
Among-append_left c (x ∷ xs) ys (inl e) = inl e
Among-append_left c (x ∷ xs) ys (inr a) = inr (Among-append_left c xs ys a)

pub Among-append_right : (c : ℕ) (xs ys : List ℕ) → Among c ys → Among c (xs ++ ys)
Among-append_right c [] ys a = a
Among-append_right c (x ∷ xs) ys a = inr (Among-append_right c xs ys a)

pub Among-append : (c : ℕ) (xs ys : List ℕ) → Among c (xs ++ ys) → Among c xs ⊎ Among c ys
Among-append c [] ys a = inr a
Among-append c (x ∷ xs) ys (inl e) = inl (inl e)
Among-append c (x ∷ xs) ys (inr a) = elim (Among-append c xs ys a) [
  | inl b ↦ inl (inr b)
  | inr b ↦ inr b
]
