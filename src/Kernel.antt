-- ===== src/Kernel.antt =====
-- What the repository only calls of the Linux kernel, as interfaces: the operations, and what the code
-- relies on. Each has a value, which shows that the laws can be met.
use artifice.Base.{
  ℕ, ◌+◌, ◌≤◌, ◌⊎◌, List, length, arith, ◌*◌, ◌<◌, ◌≡◌, Bool, true, false, refl, ◌==◌,
  if◌then◌else◌,
}

-- `set_bit`, `clear_bit` and `test_bit` of <linux/bitops.h>, over memory of `size` bytes. The laws
-- speak of bits inside the memory only.
pub record BitOps : Type 1 where
  pub Memory : Type 0
  pub zeroed : ℕ → Memory
  pub size : Memory → ℕ
  pub set_bit : ℕ → Memory → Memory
  pub clear_bit : ℕ → Memory → Memory
  pub test_bit : ℕ → Memory → Bool
  pub size-zeroed : (n : ℕ) → size (zeroed n) ≡ n
  pub size-set_bit : (i : ℕ) (m : Memory) → size (set_bit i m) ≡ size m
  pub size-clear_bit : (i : ℕ) (m : Memory) → size (clear_bit i m) ≡ size m
  pub test_bit-zeroed : (i n : ℕ) → i < 8 * n → test_bit i (zeroed n) ≡ false
  pub test_bit-set_bit :
      (i j : ℕ) (m : Memory)
      → i < 8 * size m
      → test_bit j (set_bit i m) ≡ (if i == j then true else test_bit j m)
  pub test_bit-clear_bit :
      (i j : ℕ) (m : Memory)
      → i < 8 * size m
      → test_bit j (clear_bit i m) ≡ (if i == j then false else test_bit j m)

-- A memory that the laws describe: its size, and its bits as a function.
pub record Bits : Type 0 where
  pub count : ℕ
  pub bit : ℕ → Bool

abbrev pub bits_ops : BitOps
bits_ops = record {
  Memory = Bits;
  zeroed = λ n. record { count = n; bit = λ _. false };
  size = λ m. m.count;
  set_bit = λ i m. record { count = m.count; bit = λ j. if i == j then true else m.bit j };
  clear_bit = λ i m. record { count = m.count; bit = λ j. if i == j then false else m.bit j };
  test_bit = λ i m. m.bit i;
  size-zeroed = λ n. refl;
  size-set_bit = λ i m. refl;
  size-clear_bit = λ i m. refl;
  test_bit-zeroed = λ i n h. refl;
  test_bit-set_bit = λ i j m h. refl;
  test_bit-clear_bit = λ i j m h. refl;
}

-- A block device under `submit_bio_wait`: a transfer of one 4096-byte page at a sector of 512 bytes.
-- The laws speak of pages that are the same or do not overlap.
pub record Device : Type 1 where
  pub Disk : Type 0
  pub read : ℕ → Disk → List ℕ
  pub write : ℕ → List ℕ → Disk → Disk
  pub read-write_same : (s : ℕ) (p : List ℕ) (d : Disk) → length p ≡ 4096 → read s (write s p d) ≡ p
  pub read-write_apart :
      (s t : ℕ) (p : List ℕ) (d : Disk)
      → (s + 8 ≤ t) ⊎ (t + 8 ≤ s)
      → read t (write s p d) ≡ read t d

pub read_same : (s : ℕ) (p : List ℕ) (d : ℕ → List ℕ) → (if s == s then p else d s) ≡ p
read_same s p d = ground arith

pub read_apart :
    (s t : ℕ) (p : List ℕ) (d : ℕ → List ℕ)
    → (s + 8 ≤ t) ⊎ (t + 8 ≤ s)
    → (if s == t then p else d t) ≡ d t
read_apart s t p d h = ground arith

-- A device that the laws describe: what was last written at each sector.
abbrev pub pages_device : Device
pages_device = record {
  Disk = ℕ → List ℕ;
  read = λ s d. d s;
  write = λ s p d t. if s == t then p else d t;
  read-write_same = λ s p d h. read_same s p d;
  read-write_apart = λ s t p d h. read_apart s t p d h;
}
