-- ===== src/Tests/Files.antt =====
-- The theorems on the file "f" of the root directory of a small volume.
use mathlib.Core.List.{Memᴰ}
use model_lib.Prelude.{
  ℕ, zero, suc, ◌*◌, ◌/◌, ◌<◌, ◌==◌, ◌≡◌, ◌≢◌, refl, arith, true, ok, some, inl, [], ◌∷◌,
  if◌then◌else◌,
}
use model_lib.Memory.{Bytes, zeroed, c_string}
use model_lib.Volume.{Volume, sb_of}
use model_lib.Volume.Layout.{Layout}
use model_lib.Entry.Dirent.{Dirent, entry_in, entry_name}
use model_lib.Entry.Walk.Clusters.{view, cluster_pos}
use model_lib.Entry.Walk.Chain.{Chain, stop, link}
use model_lib.Entry.Walk.Slots.{first, first_in}
use model_lib.Entry.Directory.{get_dentry, alloc_new_entry, alloc_new_dirent}
use model_lib.Entry.Directory.Free.{free_slot}
use model_lib.Entry.Directory.Others.{Alike, alloc_new_dirent-others}
use model_lib.Entry.Directory.Find.{IsTidy, find_file, is_file_named, has_name}
use model_lib.Entry.Directory.Renew.{alloc_new_entry-get_dentry}
use model_lib.File.Seek.{nth}
use model_lib.Sqlite.{write_sqlite_file, read_sqlite_file}
use model_lib.Sqlite.Root.{root_route}
use model_lib.Sqlite.RoundTrip.{Request, write_sqlite_file-read_sqlite_file}
use model_lib.Tests.Disk.{blank, blank_byte}

-- Entry 3 of the table is an end mark; the first entry of the root directory is the file, of 10 bytes,
-- in cluster 3.
abbrev pub file_bytes : Bytes
file_bytes i =
    if i == 514
    then 255
    else if i == 515
    then 255
    else if i == 1536
    then 1
    else if i == 1541
    then b'f'
    else if i == 1565
    then 3
    else if i == 1569
    then 10
    else blank 2 i

abbrev pub file_disk : Volume
file_disk = record { bytes = file_bytes; size = 512 * 40; f_pos = 0 }

pub file_byte : (i : ℕ) → file_bytes i < 256
file_byte i = ground (arith, blank_byte 2 i)

pub file_disk-Layout : Layout 2 1 file_disk
unfolding sb_of
file_disk-Layout = record {
  sector = refl;
  copies = refl;
  sectors = refl;
  fat = refl;
  data_sector = refl;
  width = refl;
  few = omega arith;
  room = omega arith;
  byte = file_byte;
}

pub root_Chain : Chain 1 file_disk 2 (2 ∷ [])
root_Chain =
    link
      (record { in_fat = (omega arith, omega arith); in_file = omega arith; not_end = omega arith })
      (stop refl)

pub file_Chain : Chain 1 file_disk 3 (3 ∷ [])
file_Chain =
    link
      (record { in_fat = (omega arith, omega arith); in_file = omega arith; not_end = omega arith })
      (stop refl)

pub below_eight :
    (P : ℕ → Type 0) → P 0 → P 1 → P 2 → P 3 → P 4 → P 5 → P 6 → P 7 → (n : ℕ) → n < 8 → P n
below_eight P p0 p1 p2 p3 p4 p5 p6 p7 zero h = p0
below_eight P p0 p1 p2 p3 p4 p5 p6 p7 (suc zero) h = p1
below_eight P p0 p1 p2 p3 p4 p5 p6 p7 (suc (suc zero)) h = p2
below_eight P p0 p1 p2 p3 p4 p5 p6 p7 (suc (suc (suc zero))) h = p3
below_eight P p0 p1 p2 p3 p4 p5 p6 p7 (suc (suc (suc (suc zero)))) h = p4
below_eight P p0 p1 p2 p3 p4 p5 p6 p7 (suc (suc (suc (suc (suc zero))))) h = p5
below_eight P p0 p1 p2 p3 p4 p5 p6 p7 (suc (suc (suc (suc (suc (suc zero)))))) h = p6
below_eight P p0 p1 p2 p3 p4 p5 p6 p7 (suc (suc (suc (suc (suc (suc (suc zero))))))) h = p7
below_eight P p0 p1 p2 p3 p4 p5 p6 p7 (suc (suc (suc (suc (suc (suc (suc (suc n)))))))) h =
    absurd (omega arith)

pub root-IsTidy : IsTidy (view file_disk (cluster_pos 1 2))
unfolding c_string
root-IsTidy = record {
  short = below_eight _ refl refl refl refl refl refl refl refl;
  named =
      below_eight _ (b'f' ∷ [], refl) ([], refl) ([], refl) ([], refl) ([], refl) ([], refl)
        ([], refl) ([], refl);
}

pub file_there : find_file 1 file_disk (b'f' ∷ []) (2 ∷ []) ≡ inl (2, 0)
unfolding first_in first is_file_named has_name entry_name c_string
file_there = refl

pub file_name : c_string 24 (entry_in (view file_disk (cluster_pos 1 2)) 0) 5 ≡ some (b'f' ∷ [])
unfolding c_string
file_name = refl

first_cluster : nth (3 ∷ []) (10 / 512) ≡ some 3
unfolding nth
first_cluster = refl

pub no_directory : (c : ℕ) → Memᴰ c (2 ∷ []) → c ≢ 3
no_directory c (Memᴰ.head e) = omega (arith, e)
no_directory c (Memᴰ.tail m) = elim m [ ]

abbrev pub sevens : Bytes
sevens i = 7

append_three : Request 2 1 file_disk (b'f' ∷ []) (2 ∷ []) (3 ∷ []) 2 0 3 3 10
append_three = record {
  layout = file_disk-Layout;
  root = root_Chain;
  tidy = (root-IsTidy, tt);
  root_rounds = omega arith;
  there = file_there;
  short_name = file_name;
  chain = file_Chain;
  at = first_cluster;
  rounds = omega arith;
  apart = no_directory;
  some_bytes = omega arith;
  inside = omega arith;
  fits = omega arith;
  no_gap = omega arith;
  small = omega arith;
}

write_sqlite_file-read_sqlite_file_example :
    (v' : Volume) × (out' : Bytes) × (write_sqlite_file zeroed zeroed 2 file_disk root_route
        (b'f' ∷ [])
        (some sevens)
        3
        10
      ≡ ok (some 3, v'))
    × (read_sqlite_file zeroed 2 v' root_route (b'f' ∷ []) (some zeroed) 3 10 ≡ ok (some (3, out')))
    × ((i : ℕ) → i < 3 → out' i ≡ sevens i)
write_sqlite_file-read_sqlite_file_example =
    write_sqlite_file-read_sqlite_file zeroed zeroed sevens zeroed 2 1 file_disk (b'f' ∷ [])
      (2 ∷ []) (3 ∷ []) 2 0 3 3 10 append_three (λ i. omega arith)

-- The entry of the file "f" with another size.
abbrev longer : Dirent
longer i = if i == 0 then 1 else if i == 5 then b'f' else if i == 33 then 20 else 0

longer_byte : (i : ℕ) → longer i < 256
longer_byte i = ground arith

longer_name : c_string 59 longer 5 ≡ some (b'f' ∷ [])
unfolding c_string
longer_name = refl

alloc_new_entry-get_dentry_example :
    (v' : Volume) × (e : Dirent) × (alloc_new_entry 2 file_disk 2 (b'f' ∷ []) longer
      ≡ ok (true, v'))
    × (get_dentry 2 v' 2 (b'f' ∷ []) ≡ ok (some e))
    × ((i : ℕ) → i < 64 → e i ≡ longer i)
alloc_new_entry-get_dentry_example =
    alloc_new_entry-get_dentry 2 1 file_disk 2 (2 ∷ []) longer (b'f' ∷ []) 2 0 file_disk-Layout
      root_Chain (root-IsTidy, tt) (omega arith) file_there longer_byte refl longer_name

-- The entry of a file of the name "g".
abbrev g_entry : Dirent
g_entry i = if i == 0 then 1 else if i == 5 then b'g' else 0

g_entry_byte : (i : ℕ) → g_entry i < 256
g_entry_byte i = ground arith

g_entry_name : c_string 59 g_entry 5 ≡ some (b'g' ∷ [])
unfolding c_string
g_entry_name = refl

second_free : free_slot 1 file_disk (2 ∷ []) ≡ inl (2, 1)
unfolding first_in first
second_free = refl

alloc_new_dirent-others_example :
    (v' : Volume) × (alloc_new_dirent zeroed 2 file_disk 2 g_entry ≡ ok (true, v'))
    × Alike (get_dentry 2 file_disk 2 (b'f' ∷ [])) (get_dentry 2 v' 2 (b'f' ∷ []))
alloc_new_dirent-others_example =
    alloc_new_dirent-others zeroed 2 1 file_disk 2 (2 ∷ []) g_entry (b'g' ∷ []) (b'f' ∷ []) 2 1
      file_disk-Layout root_Chain (root-IsTidy, tt) (omega arith) second_free g_entry_byte refl
      g_entry_name refl
