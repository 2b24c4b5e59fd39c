-- ===== src/Sqlite/Fresh.antt =====
-- progs/mkfs.c and progs/mdbfs.c: a file on a volume that has just been made.
use mathlib.Core.Path.{subst}
use model_lib.Prelude.{
  ℕ, ◌+◌, ◌-◌, ◌*◌, ◌/◌, ◌%◌, min, ◌≤◌, ◌<◌, ◌≡◌, inl, inr, refl, sym, ap, arith, fun_ext, List, [],
  ◌∷◌, some, none, Option, ok, length,
}
use model_lib.Memory.{Bytes, zeroed, c_string}
use model_lib.Memory.Strings.{IsName}
use model_lib.Volume.{Volume}
use model_lib.Fat.{u32_mod}
use model_lib.Entry.Walk.Clusters.{cluster_pos, view}
use model_lib.Entry.Walk.Chain.{Chain, stop, link}
use model_lib.Entry.Walk.Slots.{first, first_in}
use model_lib.Entry.Walk.Spare.{Spare}
use model_lib.Entry.Directory.Find.{IsTidy, is_file_named, find_file}
use model_lib.Entry.Directory.Free.{is_free, free_slot}
use model_lib.Mkfs.{create_volume, new_file}
use model_lib.Mkfs.Superblock.{IsText}
use model_lib.Mkfs.Image.{Formatted}
use model_lib.Mkfs.Format.{create_volume-Formatted}
use model_lib.Sqlite.{create_dummy, read_sqlite_file}
use model_lib.Sqlite.Root.{root_route}
use model_lib.Sqlite.Room.{Room}
use model_lib.Sqlite.Session.{Content, Stored, no_files}
use model_lib.Sqlite.Dummy.{create_dummy-read_sqlite_file}
use model_lib.Sqlite.Read.{moved}

zeroed-IsTidy : IsTidy zeroed
unfolding c_string
zeroed-IsTidy = record { short = λ n h. refl; named = λ n h. ([], refl) }

-- How many entries of a new volume's table are free in a row, from 3 on: those in its two copies, and
-- those of clusters on the device, whichever is less.
abbrev pub free_run : (s sectors : ℕ) → ℕ
free_run s sectors = min (sectors - 2 - 2 * s) (512 * s - 1)

module _ {s sectors : ℕ} {v : Volume} (made : Formatted s sectors v) where
  root_view : view v (cluster_pos s 2) ≡ zeroed
  root_view = fun_ext λ i. ground (arith, made.empty (cluster_pos s 2 + i))

  root_free : free_slot s v (2 ∷ []) ≡ inl (2, 0)
  unfolding first_in first
  root_free = ap (λ (b : Bytes). first_in (λ c. is_free b) 0 (2 ∷ [])) root_view

  root_new : (name : List ℕ) → find_file s v name (2 ∷ []) ≡ inr 2
  unfolding first_in first is_file_named
  root_new name = ap (λ (b : Bytes). first_in (λ c. is_file_named name b) 0 (2 ∷ [])) root_view

  root_Chain : 1 ≤ s → Chain s v 2 (2 ∷ [])
  root_Chain h =
      link
        (record {
          in_fat = (omega arith, omega arith);
          in_file = omega (arith, made.root_in_file);
          not_end = omega arith;
        })
        (stop made.root_end)

  -- The whole table behind the root directory is free.
  fresh_Spare :
      s ≡ sectors % 32768 / 256
      → 256 ≤ sectors % 32768
      → sectors < 65536
      → Spare s v 3 (free_run s sectors)
  fresh_Spare e some_table few = record {
    behind_root = omega arith;
    two_bytes = omega arith;
    in_table = omega arith;
    in_file = omega (arith, made.size_is);
    unused = λ i low high. made.free i low;
  }

  pub fresh_Room :
      (fuel : ℕ) (name : List ℕ)
      → s ≡ sectors % 32768 / 256
      → 256 ≤ sectors % 32768
      → sectors < 65536
      → IsName name
      → length name < 24
      → 1 < fuel
      → Room fuel s v (2 ∷ []) name (free_run s sectors)
  fresh_Room fuel name e some_table few text short enough = record {
    layout = made.layout;
    root = root_Chain (omega arith);
    tidy = (subst IsTidy (sym root_view) zeroed-IsTidy, tt);
    rounds = enough;
    slot = (2, 0);
    free_entry = root_free;
    last = 2;
    new_name = root_new name;
    text = text;
    short = short;
    first_spare = 3;
    spare = fresh_Spare e some_table few;
  }

  pub fresh-Stored :
      s ≡ sectors % 32768 / 256
      → 256 ≤ sectors % 32768
      → sectors < 65536
      → Stored s (2 ∷ []) (no_files (free_run s sectors)) v
  fresh-Stored e some_table few = record {
    layout = made.layout;
    root = root_Chain (omega arith);
    tidy = (subst IsTidy (sym root_view) zeroed-IsTidy, tt);
    first_spare = 3;
    spare = fresh_Spare e some_table few;
    clusters = λ u. [];
    stands = λ u file h. let held : ◌≡◌ {A = Option Content} none (some file) = h in absurd cc;
    apart =
        λ u w file file' h. let held : ◌≡◌ {A = Option Content} none (some file) = h in absurd cc;
  }

-- For a name of fewer than 512 bytes, clusters of 512 bytes, and a size of fewer than 65536 sectors whose
-- remainder by 32768 is at least 256, with more rounds than sectors: `create_volume` returns, and its
-- volume holds the store without files. A copy of the table has one sector for each 256 sectors of that
-- remainder, and behind the root directory's as many entries are free as there are in both copies, or as
-- the device has clusters, whichever is less.
pub create_volume-Stored :
    (rand : ℕ → ℕ) (rounds : ℕ) (volume_name : List ℕ) (volume_size : ℕ)
    → length volume_name < 512
    → IsText volume_name
    → 256 ≤ volume_size / 512 % 32768
    → volume_size / 512 < 65536
    → volume_size / 512 < rounds
    → (v : Volume) × (create_volume rand rounds new_file volume_name volume_size 512 ≡ ok v)
      × Stored
          (volume_size / 512 % 32768 / 256)
          (2 ∷ [])
          (no_files (free_run (volume_size / 512 % 32768 / 256) (volume_size / 512)))
          v
create_volume-Stored rand rounds volume_name volume_size short text some_table few made_rounds =
    let (v, e, made) =
      create_volume-Formatted rand rounds volume_name volume_size short text some_table few
        made_rounds in
    (v, e, fresh-Stored made refl some_table few)

-- For a new volume of clusters of 512 bytes and of fewer than 65536 sectors whose remainder by 32768 is at
-- least 256, a file name that fits into its field, bytes of which there is at least one and for which the
-- device and the table, of one sector to a copy for each 256 sectors of that remainder, have two
-- clusters and two entries for each cluster of them and a few more, and a request whose offset is inside
-- the file and whose end fits into 32 bits:
-- `create_volume` returns, `create_dummy` on the volume that it leaves returns, and on the volume that
-- this leaves `read_sqlite_file` reads the bytes that were to be written, from the offset on: the least
-- of what is asked for, what is left of the file, and what is left of the cluster. The loops are given
-- more rounds than there are sectors, and than the file has clusters.
pub create_volume-read_sqlite_file :
    (rand : ℕ → ℕ) (rounds turns fuel : ℕ) (stack garbage : Bytes) (volume_name : List ℕ)
    (volume_size : ℕ) (name : List ℕ) (buf out : Bytes) (len count offset : ℕ)
    → length volume_name < 512
    → IsText volume_name
    → 256 ≤ volume_size / 512 % 32768
    → volume_size / 512 < 65536
    → volume_size / 512 < rounds
    → IsName name
    → length name < 24
    → ((i : ℕ) → buf i < 256)
    → 0 < len
    → 2 * (len / 512) + 7 + 2 * (volume_size / 512 % 32768 / 256) ≤ volume_size / 512
    → 2 * (len / 512) + 6 ≤ 512 * (volume_size / 512 % 32768 / 256)
    → len / 512 + 1 < fuel
    → len / 512 + 1 < turns
    → offset < len
    → offset + count < u32_mod
    → (v : Volume) × (v' : Volume) × (out' : Bytes) × (create_volume rand rounds new_file
          volume_name volume_size 512
        ≡ ok v)
      × (create_dummy stack garbage turns fuel v root_route name buf len 0 ≡ ok v')
      × (read_sqlite_file garbage fuel v' root_route name (some out) count offset
          ≡ ok (some (moved len count offset, out')))
      × ((i : ℕ) → i < moved len count offset → out' i ≡ buf (offset + i))
create_volume-read_sqlite_file rand rounds turns fuel stack garbage volume_name volume_size name buf
      out len count offset short text some_table few made_rounds name_text name_short byte
      some_bytes spare table enough h inside small =
    let s : ℕ = volume_size / 512 % 32768 / 256 in
    let sectors : ℕ = volume_size / 512 in
    let (v, e, made) =
      create_volume-Formatted rand rounds volume_name volume_size short text some_table few
        made_rounds in
    let (v', out', e', e'', same) =
      create_dummy-read_sqlite_file stack garbage turns fuel s v (2 ∷ []) name (free_run s sectors)
        buf out len count offset
        (fresh_Room made fuel name refl some_table few name_text name_short (omega arith)) byte
        some_bytes (omega arith) (omega arith) (omega arith) h inside small in
    (v, v', out', e, e', e'', same)
