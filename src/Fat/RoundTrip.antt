-- ===== src/Fat/RoundTrip.antt =====
-- fat.c: a value written to the table is read back, and nothing else changes.
use model_lib.Prelude.{ℕ, ◌<◌, ◌≡◌, ◌≢◌, true, arith, ok, ne→==, eq→==, refl, ◌∙◌, ap, sym}
use model_lib.Volume.{Volume}
use model_lib.Volume.Layout.{Layout}
use model_lib.Fat.{read_fat_index, write_in_fat_index}
use model_lib.Fat.Entries.{
  InFat, set_entry, read_fat_index-entry, write_in_fat_index-ok, Layout-set_entry, entry-set_entry,
}

-- What a call of `write_in_fat_index` does to the table of two-byte indices.
pub record Updated (s : ℕ) (v : Volume) (i value : ℕ) (v' : Volume) : Type 0 where
  pub layout : Layout 2 s v'
  pub stored : read_fat_index v' i ≡ ok value
  pub kept : (j : ℕ) → InFat 2 s j → j ≢ i → read_fat_index v' j ≡ read_fat_index v j

-- On a formatted volume with two-byte indices, a write of a two-byte value to an entry of the table
-- succeeds; the value is read back from that entry, every other entry of the table reads as before,
-- and the volume keeps its layout.
pub read-write :
    (s : ℕ) (v : Volume) (i value : ℕ)
    → Layout 2 s v
    → InFat 2 s i
    → value < 65536
    → (v' : Volume) × (write_in_fat_index v i value ≡ ok (true, v')) × Updated s v i value v'
read-write s v i value l inside small = (
  set_entry 2 v i value,
  write_in_fat_index-ok l i inside value (omega (arith, l.few)),
  record {
    layout = l';
    stored =
        read_fat_index-entry l' i inside (omega (arith, l.few)) (omega arith)
        ∙ ap ok (entry-set_entry l i i value inside inside.0 ∙ rw (eq→== i i refl) (omega arith));
    kept = λ j inside' other.
        read_fat_index-entry l' j inside' (omega (arith, l.few)) (omega arith)
        ∙ ap ok (entry-set_entry l i j value inside inside'.0 ∙ rw (ne→== i j (λ e. other (sym e))))
        ∙ sym (read_fat_index-entry l j inside' (omega (arith, l.few)) (omega arith));
  },
)
  where
    l' : Layout 2 s (set_entry 2 v i value)
    l' = Layout-set_entry l i value inside
