-- ===== src/Memory.antt =====
-- Bytes in memory, as the C code reads them through pointers and casts (x86_64, little endian):
-- the buffers of volume.c, fat.c, entry.c and dir.c, and the string functions that they call.
pub mod Laws
pub mod Strings
use model_lib.Prelude.{
  ℕ, zero, suc, ◌+◌, ◌-◌, ◌*◌, ◌/◌, ◌%◌, ◌^◌, ◌&&◌, leb, ltb, ◌==◌, if◌then◌else◌, List, [], ◌∷◌,
  Option, none, some, length,
}

-- What stands at each offset of a buffer. A buffer's length is written where it is used.
abbrev pub Bytes : Type 0
Bytes = ℕ → ℕ

-- `u8_t buf[n] = {0, }`
abbrev pub zeroed : Bytes
zeroed _ = 0

abbrev pub u16_at : Bytes → ℕ → ℕ
u16_at m p = m p + 256 * m (p + 1)

abbrev pub u32_at : Bytes → ℕ → ℕ
u32_at m p = m p + 256 * m (p + 1) + 65536 * m (p + 2) + 16777216 * m (p + 3)

abbrev pub u64_at : Bytes → ℕ → ℕ
u64_at m p = u32_at m p + 2 ^ 32 * u32_at m (p + 4)

-- The bytes of an unsigned number in memory.
abbrev pub bytes_of : ℕ → Bytes
bytes_of value i = value / 256 ^ i % 256

-- `memcpy(m + at, src, n)`
unfoldable pub copy_to : Bytes → ℕ → Bytes → ℕ → Bytes
copy_to m at src n i = if leb at i && ltb i (at + n) then src (i - at) else m i

-- The memory from an offset on.
abbrev pub from : Bytes → ℕ → Bytes
from m p i = m (p + i)

-- The C string at an offset, of fewer than `room` bytes; `none` if there is no NUL so far.
unfoldable pub c_string : ℕ → Bytes → ℕ → Option (List ℕ)
c_string zero m p = none
c_string (suc room) m p =
    let rest : Option (List ℕ) = c_string room m (suc p) in
    if m p == 0 then some [] else elim rest [ none ↦ none | some s ↦ some (m p ∷ s) ]

-- A C string in memory, its NUL included.
abbrev pub string_bytes : List ℕ → Bytes
string_bytes [] i = 0
string_bytes (c ∷ s) zero = c
string_bytes (c ∷ s) (suc i) = string_bytes s i

-- `strcpy(m + at, s)`
abbrev pub store_string : Bytes → ℕ → List ℕ → Bytes
store_string m at s = copy_to m at (string_bytes s) (length s + 1)
