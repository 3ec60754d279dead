-- ===== src/Base/Fields.antt =====
-- Little-endian fields of C structures in memory, as a list of bytes.
use Prim.Native.Nat.{ℕ, ◌+◌, ◌*◌, ◌/◌, ◌%◌, ◌^◌, ◌≤◌, ◌<◌}
use mathlib.Core.Path.{◌≡◌, sym, ap, ◌∙◌}
use mathlib.Core.List.{List, [], ◌∷◌}
use native.Mathlib.Omega.{arith}
use artifice.Base.Lists.{length, get_or, drop, get_or-drop, get_or-take}
use artifice.Base.Bytes.{slice, memcpy, slice-memcpy_same}

-- Little-endian fields at a byte offset; beyond the end of the memory a byte counts as 0.
unfoldable pub byte_at : List ℕ → ℕ → ℕ
byte_at xs i = get_or xs i 0

unfoldable pub le16_at : List ℕ → ℕ → ℕ
unfolding byte_at
le16_at xs i = byte_at xs i + byte_at xs (i + 1) * 256

unfoldable pub le32_at : List ℕ → ℕ → ℕ
unfolding le16_at
le32_at xs i = le16_at xs i + le16_at xs (i + 2) * 65536

-- The bytes of a field of 16 and of 32 bits.
unfoldable pub le16_bytes : ℕ → List ℕ
le16_bytes v = v % 256 ∷ v / 256 % 256 ∷ []

unfoldable pub le32_bytes : ℕ → List ℕ
le32_bytes v = v % 256 ∷ v / 256 % 256 ∷ v / 65536 % 256 ∷ v / 16777216 % 256 ∷ []

-- A field is read from its own bytes only.
byte_at-slice :
    (xs : List ℕ) (off n i : ℕ) → i < n → byte_at xs (off + i) ≡ byte_at (slice xs off n) i
unfolding byte_at slice
byte_at-slice xs off n i h = sym (get_or-take n (drop off xs) i 0 h ∙ get_or-drop off xs i 0)

pub le32_at-slice : (xs : List ℕ) (off : ℕ) → le32_at xs off ≡ le32_at (slice xs off 4) 0
unfolding le32_at le16_at
le32_at-slice xs off =
    let e0 = byte_at-slice xs off 4 0 (omega arith) in
    let e1 = byte_at-slice xs off 4 1 (omega arith) in
    let e2 = byte_at-slice xs off 4 2 (omega arith) in
    let e3 = byte_at-slice xs off 4 3 (omega arith) in
    let z : off + 0 ≡ off = omega arith in
    let a : off + 2 + 1 ≡ off + 3 = omega arith in
    omega (arith, e0, e1, e2, e3, ap (byte_at xs) z, ap (byte_at xs) a)

pub le16_at-slice : (xs : List ℕ) (off : ℕ) → le16_at xs off ≡ le16_at (slice xs off 2) 0
unfolding le16_at
le16_at-slice xs off =
    let e0 = byte_at-slice xs off 2 0 (omega arith) in
    let e1 = byte_at-slice xs off 2 1 (omega arith) in
    let z : off + 0 ≡ off = omega arith in omega (arith, e0, e1, ap (byte_at xs) z)

le32_whole : (v : ℕ) → v < 2 ^ 32 → le32_at (le32_bytes v) 0 ≡ v
unfolding le32_at le16_at byte_at le32_bytes
le32_whole v k = omega arith

-- What was stored in a field is read back.
pub le32_at-le32_bytes :
    (xs : List ℕ) (off v : ℕ)
    → off + 4 ≤ length xs
    → v < 2 ^ 32
    → le32_at (memcpy xs off (le32_bytes v)) off ≡ v
unfolding le32_bytes
le32_at-le32_bytes xs off v h k =
    le32_at-slice (memcpy xs off (le32_bytes v)) off
    ∙ ap (λ s. le32_at s 0) (slice-memcpy_same xs off (le32_bytes v) (omega arith))
    ∙ le32_whole v k

le16_whole : (v : ℕ) → v < 2 ^ 16 → le16_at (le16_bytes v) 0 ≡ v
unfolding le16_at byte_at le16_bytes
le16_whole v k = omega arith

pub le16_at-le16_bytes :
    (xs : List ℕ) (off v : ℕ)
    → off + 2 ≤ length xs
    → v < 2 ^ 16
    → le16_at (memcpy xs off (le16_bytes v)) off ≡ v
unfolding le16_bytes
le16_at-le16_bytes xs off v h k =
    le16_at-slice (memcpy xs off (le16_bytes v)) off
    ∙ ap (λ s. le16_at s 0) (slice-memcpy_same xs off (le16_bytes v) (omega arith))
    ∙ le16_whole v k
