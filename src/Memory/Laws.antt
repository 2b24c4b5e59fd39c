-- ===== src/Memory/Laws.antt =====
-- What stands where after a copy.
use model_lib.Prelude.{ℕ, ◌+◌, ◌-◌, ◌*◌, ◌≤◌, ◌<◌, ◌≡◌, ◌⊎◌, ap, arith}
use model_lib.Memory.{Bytes, u16_at, copy_to}

pub copy_to_in :
    (m : Bytes) (at : ℕ) (src : Bytes) (n i k : ℕ)
    → i ≡ at + k
    → k < n
    → copy_to m at src n i ≡ src k
unfolding copy_to
copy_to_in m at src n i k e h = let back : i - at ≡ k = omega arith in ground (arith, ap src back)

pub copy_to_out :
    (m : Bytes) (at : ℕ) (src : Bytes) (n i : ℕ)
    → (i < at) ⊎ (at + n ≤ i)
    → copy_to m at src n i ≡ m i
unfolding copy_to
copy_to_out m at src n i h = ground arith

-- Every byte of a copy is a byte of one of the two.
pub copy_to-byte :
    (m : Bytes) (at : ℕ) (src : Bytes) (n : ℕ)
    → ((i : ℕ) → m i < 256)
    → ((i : ℕ) → src i < 256)
    → (i : ℕ) → copy_to m at src n i < 256
unfolding copy_to
copy_to-byte m at src n h k i = ground (arith, h i, k (i - at))

-- A number of two bytes behind a copy of two bytes.
pub u16_at-copy_to_self :
    (m : Bytes) (at : ℕ) (src : Bytes) → u16_at (copy_to m at src 2) at ≡ src 0 + 256 * src 1
u16_at-copy_to_self m at src = omega (
  arith,
  copy_to_in m at src 2 at 0 (omega arith) (omega arith),
  copy_to_in m at src 2 (at + 1) 1 (omega arith) (omega arith),
)

pub u16_at-copy_to_apart :
    (m : Bytes) (at : ℕ) (src : Bytes) (n p : ℕ)
    → (p + 2 ≤ at) ⊎ (at + n ≤ p)
    → u16_at (copy_to m at src n) p ≡ u16_at m p
u16_at-copy_to_apart m at src n p h =
    omega
      (arith, copy_to_out m at src n p (omega arith), copy_to_out m at src n (p + 1) (omega arith))
