-- ===== src/Fat/Width.antt =====
-- fat.c: `write_in_fat_index` writes `sizeof(sb.fat_index_size)` bytes, which is two, whatever the
-- width of an index is; and its test lets one entry more through than the table has.
use model_lib.Prelude.{ℕ, ◌+◌, ◌*◌, ◌/◌, ◌%◌, ◌≡◌, true, arith, ok, ap, ◌∙◌}
use native.Mathlib.Nat.{add-zero}
use model_lib.Memory.{u32_at, bytes_of}
use model_lib.Memory.Laws.{copy_to_in, copy_to_out}
use model_lib.Volume.{Volume}
use model_lib.Volume.Layout.{Layout}
use model_lib.Fat.{read_fat_index, write_in_fat_index}
use model_lib.Fat.Entries.{
  InFat, entry, entry_pos, set_entry, set_entry_lem, read_fat_index-entry, write_in_fat_index-ok,
  Layout-set_entry,
}

entry_one : (v : Volume) (i : ℕ) → entry 1 v i ≡ v.bytes (entry_pos 1 i)
entry_one v i = omega (arith, ap v.bytes (add-zero (entry_pos 1 i)))

entry_four : (v : Volume) (i : ℕ) → entry 4 v i ≡ u32_at v.bytes (entry_pos 4 i)
entry_four v i = omega (arith, ap v.bytes (add-zero (entry_pos 4 i)))

module _ {s : ℕ} {v : Volume} (l : Layout 1 s v) (i value : ℕ) (inside : InFat 1 s i) where
  same_byte : entry 1 (set_entry 1 v i value) i ≡ value % 256
  same_byte =
      rw
        (
          entry_one (set_entry 1 v i value) i,
          set_entry_lem l i value inside,
          copy_to_in v.bytes (entry_pos 1 i) (bytes_of value) 2 (entry_pos 1 i) 0 (omega arith)
              (omega arith),
        )
        (omega arith)

  next_byte : entry 1 (set_entry 1 v i value) (i + 1) ≡ value / 256 % 256
  next_byte =
      rw
        (
          entry_one (set_entry 1 v i value) (i + 1),
          set_entry_lem l i value inside,
          copy_to_in v.bytes (entry_pos 1 i) (bytes_of value) 2 (entry_pos 1 (i + 1)) 1
              (omega arith) (omega arith),
        )
        (omega arith)

low_half :
    {s : ℕ} {v : Volume} (l : Layout 4 s v) (i value : ℕ)
    → InFat 4 s i
    → entry 4 (set_entry 4 v i value) i
      ≡ value % 65536 + 65536 * (u32_at v.bytes (entry_pos 4 i) / 65536)
low_half {v} l i value inside =
    rw (entry_four (set_entry 4 v i value) i, set_entry_lem l i value inside)
      (omega (
        arith,
        l.byte (entry_pos 4 i),
        l.byte (entry_pos 4 i + 1),
        copy_to_in v.bytes (entry_pos 4 i) (bytes_of value) 2 (entry_pos 4 i) 0 (omega arith)
            (omega arith),
        copy_to_in v.bytes (entry_pos 4 i) (bytes_of value) 2 (entry_pos 4 i + 1) 1 (omega arith)
            (omega arith),
        copy_to_out v.bytes (entry_pos 4 i) (bytes_of value) 2 (entry_pos 4 i + 2) (omega arith),
        copy_to_out v.bytes (entry_pos 4 i) (bytes_of value) 2 (entry_pos 4 i + 3) (omega arith),
      ))

-- With one-byte indices, a write to an entry of the table whose next entry is in the table too puts
-- the value's low byte there and its second byte into the next entry, whatever that held.
pub one_byte_clobbers :
    (s : ℕ) (v : Volume) (i value : ℕ)
    → Layout 1 s v
    → InFat 1 s i
    → InFat 1 s (i + 1)
    → (v' : Volume) × (write_in_fat_index v i value ≡ ok (true, v'))
      × (read_fat_index v' i ≡ ok (value % 256))
      × (read_fat_index v' (i + 1) ≡ ok (value / 256 % 256))
one_byte_clobbers s v i value l inside next = (
  set_entry 1 v i value,
  write_in_fat_index-ok l i inside value (omega (arith, l.few)),
  read_fat_index-entry l' i inside (omega (arith, l.few)) (omega arith)
      ∙ ap ok (same_byte l i value inside),
  read_fat_index-entry l' (i + 1) next (omega (arith, l.few)) (omega arith)
      ∙ ap ok (next_byte l i value inside),
)
  where
    l' : Layout 1 s (set_entry 1 v i value)
    l' = Layout-set_entry l i value inside

-- With four-byte indices, a write to an entry of the table changes its two low bytes only: what is
-- read back has the low half of the value and the high half of what the entry held.
pub four_bytes_keep_high :
    (s : ℕ) (v : Volume) (i value old : ℕ)
    → Layout 4 s v
    → InFat 4 s i
    → read_fat_index v i ≡ ok old
    → (v' : Volume) × (write_in_fat_index v i value ≡ ok (true, v'))
      × (read_fat_index v' i ≡ ok (value % 65536 + 65536 * (old / 65536)))
four_bytes_keep_high s v i value old l inside reads = (
  set_entry 4 v i value,
  write_in_fat_index-ok l i inside value (omega (arith, l.few)),
  read_fat_index-entry l' i inside (omega (arith, l.few)) (omega arith)
      ∙ ap ok (rw held (low_half l i value inside)),
)
  where
    held : old ≡ u32_at v.bytes (entry_pos 4 i)
    held = cc (
      reads,
      read_fat_index-entry l i inside (omega (arith, l.few)) (omega arith),
      entry_four v i,
    )

    l' : Layout 4 s (set_entry 4 v i value)
    l' = Layout-set_entry l i value inside
