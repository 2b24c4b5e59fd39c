-- ===== src/Fat/Entries.antt =====
-- fat.c: reading and writing one entry of the table of a formatted volume.
use model_lib.Prelude.{
  ℕ, ◌+◌, ◌-◌, ◌*◌, ◌%◌, max, ◌≤◌, ◌<◌, ◌==◌, ◌≡◌, ◌≢◌, if◌then◌else◌, true, false, le→ltb,
  Bool-cases, ==→eq, ==→ne, inl, inr, arith, ap, ok, ltb,
}
use native.Mathlib.Nat.{add-zero}
use model_lib.Memory.{zeroed, u16_at, u32_at, bytes_of, copy_to}
use model_lib.Memory.Laws.{u16_at-copy_to_self, u16_at-copy_to_apart}
use model_lib.Volume.{Volume, write_at, sb_of}
use model_lib.Volume.Layout.{Layout, layout_sb, read_at_lem, write_at_lem, Layout-write_at}
use model_lib.Fat.{
  u32_mod, u128_mod, start_position, end_position, read_fat_index, write_in_fat_index,
}

-- Where entry `i` stands.
abbrev pub entry_pos : (w i : ℕ) → ℕ
entry_pos w i = 512 + w * (i - 2)

module _ {w s : ℕ} {v : Volume} (l : Layout w s v) where
  pub start_lem : start_position (sb_of v.bytes) ≡ 512
  start_lem = rw (l.fat, l.sector)

  pub end_lem : end_position (sb_of v.bytes) ≡ 512 * (1 + s * 2)
  end_lem = rw (l.fat, l.sector, l.sectors, l.copies) (omega (arith, l.few))

-- The value of entry `i`: `w` bytes of the file, little endian.
abbrev pub entry : (w : ℕ) → Volume → ℕ → ℕ
entry w v i = u32_at (λ j. if ltb j w then v.bytes (entry_pos w i + j) else 0) 0

-- Entry `i` lies in the two copies of the table.
abbrev pub InFat : (w s i : ℕ) → Type 0
InFat w s i = (2 ≤ i) × (w * (i - 2) + w ≤ 1024 * s)

module _ {w s : ℕ} {v : Volume} (l : Layout w s v) (i : ℕ) (inside : InFat w s i) where
  wide_position :
      i < u128_mod
      → (start_position (sb_of v.bytes) + w * ((i + u128_mod - 2) % u128_mod) % u128_mod) % u128_mod
        ≡ entry_pos w i
  wide_position small =
      let e : (i + u128_mod - 2) % u128_mod ≡ i - 2 = omega arith in
      rw e (omega (arith, start_lem l, l.few))

  narrow_position :
      i < u32_mod
      → (start_position (sb_of v.bytes) + w * ((i + u32_mod - 2) % u32_mod)) % u32_mod
        ≡ entry_pos w i
  narrow_position small =
      let e : (i + u32_mod - 2) % u32_mod ≡ i - 2 = omega arith in
      rw e (omega (arith, start_lem l, l.few))

  in_table : ltb (end_position (sb_of v.bytes)) (entry_pos w i) ≡ false
  in_table = le→ltb _ _ (omega (arith, end_lem l))

  pub read_fat_index-entry : i < u128_mod → w ≤ 4 → read_fat_index v i ≡ ok (entry w v i)
  unfolding read_fat_index
  read_fat_index-entry small narrow =
      let fits : ltb 4 w ≡ false = le→ltb 4 w narrow in
      rw (
        layout_sb l,
        l.width,
        wide_position small,
        in_table,
        fits,
        read_at_lem v (entry_pos w i) w zeroed (omega (arith, l.room)) (omega (arith, l.few)),
      )

  pub write_in_fat_index-ok :
      (value : ℕ)
      → i < u32_mod
      → write_in_fat_index v i value ≡ ok (true, write_at v (entry_pos w i) (bytes_of value) 2)
  unfolding write_in_fat_index
  write_in_fat_index-ok value small = rw (layout_sb l, l.width, narrow_position small, in_table)

-- What a write of two bytes at an entry leaves in the file.
abbrev pub set_entry : (w : ℕ) → Volume → (i value : ℕ) → Volume
set_entry w v i value = write_at v (entry_pos w i) (bytes_of value) 2

module _ {w s : ℕ} {v : Volume} (l : Layout w s v) (i value : ℕ) (inside : InFat w s i) where
  pub set_entry_lem : set_entry w v i value ≡ record {
    bytes = copy_to v.bytes (entry_pos w i) (bytes_of value) 2;
    size = max v.size (entry_pos w i + 2);
    f_pos = entry_pos w i + 2;
  }
  set_entry_lem =
      write_at_lem v (entry_pos w i) 2 (bytes_of value) (omega arith) (omega (arith, l.few))

  -- The table and the data stay a formatted volume.
  pub Layout-set_entry : Layout w s (set_entry w v i value)
  Layout-set_entry =
      Layout-write_at l (entry_pos w i) 2 (bytes_of value) (omega arith) (omega arith)
        (omega (arith, l.few)) (λ j. omega arith)

pub entry-u16 : (v : Volume) (i : ℕ) → entry 2 v i ≡ u16_at v.bytes (entry_pos 2 i)
entry-u16 v i = omega (arith, ap v.bytes (add-zero (entry_pos 2 i)))

-- Where an index has two bytes, a write is seen by a read of the same entry and by no other.
pub entry-set_entry :
    {s : ℕ} {v : Volume} (l : Layout 2 s v) (i j value : ℕ)
    → InFat 2 s i
    → 2 ≤ j
    → entry 2 (set_entry 2 v i value) j ≡ (if i == j then value % 65536 else entry 2 v j)
entry-set_entry {v} l i j value inside low =
    rw (entry-u16 (set_entry 2 v i value) j, entry-u16 v j, set_entry_lem l i value inside)
      (elim (Bool-cases (i == j)) [
        | inl e ↦
            let same : i ≡ j = ==→eq i j e in
            rw (e, ← same, u16_at-copy_to_self v.bytes (entry_pos 2 i) (bytes_of value))
              (omega arith)
        | inr ne ↦
            let other : i ≢ j = ==→ne i j ne in
            rw (
              ne,
              u16_at-copy_to_apart v.bytes (entry_pos 2 i) (bytes_of value) 2 (entry_pos 2 j)
                  (omega arith),
            )
      ])
