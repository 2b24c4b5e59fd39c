-- ===== src/Tests/Store.antt =====
-- The theorems on whole files at small volumes.
use mathlib.Core.List.{Memᴰ}
use model_lib.Prelude.{
  ℕ, ◌+◌, ◌-◌, ◌/◌, ◌%◌, ◌≤◌, ◌<◌, ◌≡◌, refl, inl, inr, arith, true, ok, some, List, [], ◌∷◌, min,
}
use model_lib.Memory.{Bytes, zeroed, c_string}
use model_lib.Memory.Strings.{IsName}
use model_lib.Volume.{Volume}
use model_lib.Volume.Layout.{Layout}
use model_lib.Fat.Entries.{entry, entry-u16}
use model_lib.Entry.Dirent.{entry_name, Dirent, head_cluster_number, size}
use model_lib.Entry.Walk.Chain.{Chain}
use model_lib.Entry.Walk.Claim.{contents}
use model_lib.Entry.Walk.Slots.{first, first_in}
use model_lib.Entry.Walk.Spare.{Spare}
use model_lib.Entry.Directory.{get_dentry}
use model_lib.Entry.Directory.Find.{find_file, is_file_named, has_name}
use model_lib.Entry.Directory.Free.{free_slot}
use model_lib.File.{create}
use model_lib.File.Create.{create-get_dentry}
use model_lib.File.Seek.{nth}
use model_lib.Entry.Made.{made}
use model_lib.Entry.Directory.New.{Holds}
use model_lib.Dir.{file_dentry, dir_dentry, mkdir}
use model_lib.Dir.Live.{listing}
use model_lib.Dir.Added.{Added}
use model_lib.Dir.Mkdir.{create-Added, mkdir-Added}
use model_lib.Mkfs.{create_volume, new_file}
use model_lib.Mkfs.Superblock.{IsText}
use model_lib.Sqlite.{create_dummy, write_sqlite_file, read_sqlite_file}
use model_lib.Sqlite.Root.{root_route, get_cluster_number_root}
use model_lib.Sqlite.Content.{FileAt}
use model_lib.Sqlite.Read.{moved, read_sqlite_file-FileAt}
use model_lib.Sqlite.Growth.{Tight, Grown, write_sqlite_file-Grown}
use model_lib.Sqlite.Room.{Room, ready, head}
use model_lib.Sqlite.Dummy.{create_dummy-FileAt}
use model_lib.Sqlite.Session.{Stored, no_files}
use model_lib.Sqlite.Fresh.{create_volume-Stored, create_volume-read_sqlite_file}
use model_lib.Tests.Files.{
  file_disk, file_disk-Layout, root_Chain, file_Chain, root-IsTidy, file_there, file_name,
  no_directory, sevens,
}

abbrev pub g_name : List ℕ
g_name = b'g' ∷ []

pub g_name-IsName : IsName g_name
unfolding IsName
g_name-IsName = (omega arith, omega arith, tt)

file_disk_unused : (i : ℕ) → 4 ≤ i → i < 39 → entry 2 file_disk i ≡ 0
file_disk_unused i low high = rw (entry-u16 file_disk i) (ground arith)

pub file_disk-Spare : Spare 1 file_disk 4 35
file_disk-Spare = record {
  behind_root = omega arith;
  two_bytes = omega arith;
  in_table = omega arith;
  in_file = omega arith;
  unused = file_disk_unused;
}

pub second_entry : free_slot 1 file_disk (2 ∷ []) ≡ inl (2, 1)
unfolding first_in first
second_entry = refl

pub no_g : find_file 1 file_disk g_name (2 ∷ []) ≡ inr 2
unfolding first_in first is_file_named has_name entry_name c_string
no_g = refl

-- Room for a file "g".
abbrev g_Room : Room 3 1 file_disk (2 ∷ []) g_name 35
g_Room = record {
  layout = file_disk-Layout;
  root = root_Chain;
  tidy = (root-IsTidy, tt);
  rounds = omega arith;
  slot = (2, 1);
  free_entry = second_entry;
  last = 2;
  new_name = no_g;
  text = g_name-IsName;
  short = omega arith;
  first_spare = 4;
  spare = file_disk-Spare;
}

create_dummy-FileAt_example :
    (v' : Volume) × (cs : List ℕ) × (create_dummy zeroed zeroed 3 3 file_disk root_route g_name
        sevens 1000 0
      ≡ ok v')
    × FileAt 1 v' g_name (2 ∷ []) 2 1 cs 1000 sevens
create_dummy-FileAt_example =
    create_dummy-FileAt zeroed zeroed 3 3 1 file_disk (2 ∷ []) g_name 35 sevens 1000 g_Room
      (λ i. omega arith) (omega arith) (omega arith) (omega arith) (omega arith) (omega arith)

create-get_dentry_example :
    (v' : Volume) × (e : Dirent) × (create zeroed 3 file_disk root_route g_name ≡ ok (true, v'))
    × (get_dentry 3 v' 2 g_name ≡ ok (some e))
    × (head_cluster_number e ≡ head g_Room zeroed (omega arith))
    × (size e ≡ 0)
    × Chain 1 v' (head g_Room zeroed (omega arith)) (head g_Room zeroed (omega arith) ∷ [])
    × Chain 1 v' 2 (2 ∷ [])
    × Layout 2 1 v'
create-get_dentry_example =
    create-get_dentry zeroed 3 1 file_disk root_route 2 (2 ∷ []) g_name 2 1
      (head g_Room zeroed (omega arith)) 2 (ready g_Room zeroed (omega arith))
      (get_cluster_number_root 3 1 file_disk file_disk-Layout (omega arith)) no_g

cluster_three : (i x : ℕ) → i < 10 → nth (3 ∷ []) (i / 512) ≡ some x → x ≡ 3
unfolding nth
cluster_three i x h e = let first_one : i / 512 ≡ 0 = omega arith in cc (rw first_one at e)

-- The file "f" holds ten zeros.
pub f_File : FileAt 1 file_disk (b'f' ∷ []) (2 ∷ []) 2 0 (3 ∷ []) 10 zeroed
f_File = record {
  layout = file_disk-Layout;
  root = root_Chain;
  tidy = (root-IsTidy, tt);
  there = file_there;
  short_name = file_name;
  chain = file_Chain;
  size_is = refl;
  apart = apart;
  covered = omega arith;
  holds = zeros;
}
  where
    apart : (x : ℕ) → Memᴰ x (2 ∷ []) → Memᴰ x (3 ∷ []) → ⊥
    apart x in_dir (Memᴰ.head e) = no_directory x in_dir e
    apart x in_dir (Memᴰ.tail m) = elim m [ ]

    zeros :
        (i x : ℕ) → i < 10 → nth (3 ∷ []) (i / 512) ≡ some x → contents 1 file_disk x (i % 512) ≡ 0
    zeros i x h e = rw (cluster_three i x h e) (ground arith)

read_sqlite_file-FileAt_example :
    (out' : Bytes) × (read_sqlite_file zeroed 3 file_disk root_route (b'f' ∷ []) (some sevens) 20 4
      ≡ ok (some (moved 10 20 4, out')))
    × ((i : ℕ) → i < moved 10 20 4 → out' i ≡ zeroed (4 + i))
read_sqlite_file-FileAt_example =
    read_sqlite_file-FileAt zeroed sevens 3 1 file_disk (b'f' ∷ []) (2 ∷ []) 2 0 (3 ∷ []) 10 zeroed
      20 4 f_File (omega arith) (omega arith) (omega arith) (omega arith) (omega arith)

f_Tight : Tight 1 file_disk (b'f' ∷ []) (2 ∷ []) 2 0 (3 ∷ []) 10 zeroed 4 35
f_Tight = record {
  file = f_File;
  some_cluster = omega arith;
  no_more = omega arith;
  spare = file_disk-Spare;
}

write_sqlite_file-Grown_example :
    (v' : Volume) × (write_sqlite_file zeroed zeroed 3 file_disk root_route
        (b'f' ∷ [])
        (some sevens)
        20
        10
      ≡ ok (some (min 20 (512 - 10 % 512)), v'))
    × Grown 1 v'
        (b'f' ∷ [])
        (2 ∷ [])
        2
        0
        10
        zeroed
        sevens
        (min 20 (512 - 10 % 512))
        (4 + 2)
        (35 - 2)
write_sqlite_file-Grown_example =
    write_sqlite_file-Grown zeroed zeroed 3 1 file_disk (b'f' ∷ []) (2 ∷ []) 2 0 (3 ∷ []) 10 zeroed
      4 35 sevens 20 f_Tight (omega arith) (λ i. omega arith) (omega arith) (omega arith)
      (omega arith) (omega arith) (inl (omega arith))

g_name-IsText : IsText g_name
unfolding IsText
g_name-IsText = (omega arith, tt)

-- A volume of 256 sectors, and a file of two clusters and a half on it.
create_volume-read_sqlite_file_example :
    (v : Volume) × (v' : Volume) × (out' : Bytes) × (create_volume
        (λ i. i)
        300
        new_file
        g_name
        131072
        512
      ≡ ok v)
    × (create_dummy zeroed zeroed 4 4 v root_route g_name sevens 1280 0 ≡ ok v')
    × (read_sqlite_file zeroed 4 v' root_route g_name (some zeroed) 100 1000
        ≡ ok (some (moved 1280 100 1000, out')))
    × ((i : ℕ) → i < moved 1280 100 1000 → out' i ≡ sevens (1000 + i))
create_volume-read_sqlite_file_example =
    create_volume-read_sqlite_file (λ i. i) 300 4 4 zeroed zeroed g_name 131072 g_name sevens zeroed
      1280 100 1000 (omega arith) g_name-IsText (omega arith) (omega arith) (omega arith)
      g_name-IsName (omega arith) (λ i. omega arith) (omega arith) (omega arith) (omega arith)
      (omega arith) (omega arith) (omega arith) (omega arith)

-- A volume of 36256 sectors.
create_volume-Stored_example :
    (v : Volume) × (create_volume (λ i. i) 40000 new_file g_name 18563072 512 ≡ ok v)
    × Stored 13 (2 ∷ []) (no_files 6655) v
create_volume-Stored_example =
    create_volume-Stored (λ i. i) 40000 g_name 18563072 (omega arith) g_name-IsText (omega arith)
      (omega arith) (omega arith)

abbrev g_head : ℕ
g_head = head g_Room zeroed (omega arith)

create-Added_example :
    (v' : Volume) × (create zeroed 3 file_disk root_route g_name ≡ ok (true, v'))
    × Holds 1 v' 2 (2 ∷ []) 2 1 g_head (made 1 g_name g_head)
    × Added
        (record { name = g_name; kind = file_dentry })
        (listing 1 file_disk (2 ∷ []))
        (listing 1 v' (2 ∷ []))
create-Added_example =
    create-Added zeroed 3 1 file_disk root_route 2 (2 ∷ []) g_name 2 1 g_head
      (ready g_Room zeroed (omega arith))
      (get_cluster_number_root 3 1 file_disk file_disk-Layout (omega arith))

mkdir-Added_example :
    (v' : Volume) × (mkdir zeroed 3 file_disk root_route g_name ≡ ok (true, v'))
    × Holds 1 v' 2 (2 ∷ []) 2 1 g_head (made 3 g_name g_head)
    × Added
        (record { name = g_name; kind = dir_dentry })
        (listing 1 file_disk (2 ∷ []))
        (listing 1 v' (2 ∷ []))
mkdir-Added_example =
    mkdir-Added zeroed 3 1 file_disk root_route 2 (2 ∷ []) g_name 2 1 g_head
      (ready g_Room zeroed (omega arith))
      (get_cluster_number_root 3 1 file_disk file_disk-Layout (omega arith))
