-- ===== src/Tests/Pair.antt =====
-- A small volume with the files "f" and "g", and the theorem that a write to one keeps the other.
use mathlib.Core.List.{Memᴰ}
use model_lib.Prelude.{
  ℕ, ◌*◌, ◌/◌, ◌%◌, ◌≤◌, ◌<◌, ◌==◌, ◌≡◌, refl, inl, arith, ok, some, [], ◌∷◌, if◌then◌else◌,
}
use model_lib.Memory.{Bytes, zeroed, c_string}
use model_lib.Volume.{Volume, sb_of}
use model_lib.Volume.Layout.{Layout}
use model_lib.Fat.Entries.{entry, entry-u16}
use model_lib.Entry.Dirent.{entry_in, entry_name}
use model_lib.Entry.Walk.Clusters.{view, cluster_pos}
use model_lib.Entry.Walk.Chain.{Chain, stop, link}
use model_lib.Entry.Walk.Claim.{contents}
use model_lib.Entry.Walk.Slots.{first, first_in}
use model_lib.Entry.Directory.Find.{IsTidy, find_file, is_file_named, has_name}
use model_lib.File.Seek.{nth}
use model_lib.Sqlite.{write_sqlite_file}
use model_lib.Sqlite.Root.{root_route}
use model_lib.Sqlite.Content.{FileAt}
use model_lib.Sqlite.Growth.{Tight, write_sqlite_file-others}
use model_lib.Sqlite.Keeps.{Disjoint}
use model_lib.Tests.Files.{file_bytes, file_byte, below_eight, sevens}

-- The second entry of the root directory is the file "g", of 5 bytes, in cluster 4.
abbrev pair_bytes : Bytes
pair_bytes i =
    if i == 516
    then 255
    else if i == 517
    then 255
    else if i == 1600
    then 1
    else if i == 1605
    then b'g'
    else if i == 1629
    then 4
    else if i == 1633
    then 5
    else file_bytes i

abbrev pair : Volume
pair = record { bytes = pair_bytes; size = 512 * 40; f_pos = 0 }

pair_byte : (i : ℕ) → pair_bytes i < 256
pair_byte i = ground (arith, file_byte i)

pair-Layout : Layout 2 1 pair
unfolding sb_of
pair-Layout = record {
  sector = refl;
  copies = refl;
  sectors = refl;
  fat = refl;
  data_sector = refl;
  width = refl;
  few = omega arith;
  room = omega arith;
  byte = pair_byte;
}

single_Chain : (c : ℕ) → 2 ≤ c → c < 5 → Chain 1 pair c (c ∷ [])
single_Chain c low high =
    link
      (record { in_fat = (omega arith, omega arith); in_file = omega arith; not_end = omega arith })
      (stop (rw (entry-u16 pair c) (ground arith)))

root-IsTidy : IsTidy (view pair (cluster_pos 1 2))
unfolding c_string
root-IsTidy = record {
  short = below_eight _ refl refl refl refl refl refl refl refl;
  named =
      below_eight _ (b'f' ∷ [], refl) (b'g' ∷ [], refl) ([], refl) ([], refl) ([], refl) ([], refl)
        ([], refl) ([], refl);
}

file_there : find_file 1 pair (b'f' ∷ []) (2 ∷ []) ≡ inl (2, 0)
unfolding first_in first is_file_named has_name entry_name c_string
file_there = refl

other_there : find_file 1 pair (b'g' ∷ []) (2 ∷ []) ≡ inl (2, 1)
unfolding first_in first is_file_named has_name entry_name c_string
other_there = refl

file_name : c_string 24 (entry_in (view pair (cluster_pos 1 2)) 0) 5 ≡ some (b'f' ∷ [])
unfolding c_string
file_name = refl

other_name : c_string 24 (entry_in (view pair (cluster_pos 1 2)) 1) 5 ≡ some (b'g' ∷ [])
unfolding c_string
other_name = refl

pair_Disjoint : (c d : ℕ) → c < d → Disjoint (c ∷ []) (d ∷ [])
pair_Disjoint c d h x (Memᴰ.head e) (Memᴰ.head e') = omega (arith, h, e, e')
pair_Disjoint c d h x (Memᴰ.tail m) n = elim m [ ]
pair_Disjoint c d h x (Memᴰ.head e) (Memᴰ.tail m) = elim m [ ]

only_cluster : (c len i x : ℕ) → len < 512 → i < len → nth (c ∷ []) (i / 512) ≡ some x → x ≡ c
unfolding nth
only_cluster c len i x small h e =
    let first_one : i / 512 ≡ 0 = omega arith in cc (rw first_one at e)

f_File : FileAt 1 pair (b'f' ∷ []) (2 ∷ []) 2 0 (3 ∷ []) 10 zeroed
f_File = record {
  layout = pair-Layout;
  root = single_Chain 2 (omega arith) (omega arith);
  tidy = (root-IsTidy, tt);
  there = file_there;
  short_name = file_name;
  chain = single_Chain 3 (omega arith) (omega arith);
  size_is = refl;
  apart = pair_Disjoint 2 3 (omega arith);
  covered = omega arith;
  holds = zeros;
}
  where
    zeros : (i x : ℕ) → i < 10 → nth (3 ∷ []) (i / 512) ≡ some x → contents 1 pair x (i % 512) ≡ 0
    zeros i x h e = rw (only_cluster 3 10 i x (omega arith) h e) (ground arith)

g_File : FileAt 1 pair (b'g' ∷ []) (2 ∷ []) 2 1 (4 ∷ []) 5 zeroed
g_File = record {
  layout = pair-Layout;
  root = single_Chain 2 (omega arith) (omega arith);
  tidy = (root-IsTidy, tt);
  there = other_there;
  short_name = other_name;
  chain = single_Chain 4 (omega arith) (omega arith);
  size_is = refl;
  apart = pair_Disjoint 2 4 (omega arith);
  covered = omega arith;
  holds = zeros;
}
  where
    zeros : (i x : ℕ) → i < 5 → nth (4 ∷ []) (i / 512) ≡ some x → contents 1 pair x (i % 512) ≡ 0
    zeros i x h e = rw (only_cluster 4 5 i x (omega arith) h e) (ground arith)

pair_unused : (i : ℕ) → 5 ≤ i → i < 39 → entry 2 pair i ≡ 0
pair_unused i low high = rw (entry-u16 pair i) (ground arith)

f_Tight : Tight 1 pair (b'f' ∷ []) (2 ∷ []) 2 0 (3 ∷ []) 10 zeroed 5 34
f_Tight = record {
  file = f_File;
  some_cluster = omega arith;
  no_more = omega arith;
  spare = record {
    behind_root = omega arith;
    two_bytes = omega arith;
    in_table = omega arith;
    in_file = omega arith;
    unused = pair_unused;
  };
}

write_sqlite_file-others_example :
    (v' : Volume) × (write_sqlite_file zeroed zeroed 3 pair root_route
        (b'f' ∷ [])
        (some sevens)
        20
        10
      ≡ ok (some 20, v'))
    × FileAt 1 v' (b'g' ∷ []) (2 ∷ []) 2 1 (4 ∷ []) 5 zeroed
write_sqlite_file-others_example =
    write_sqlite_file-others zeroed zeroed 3 1 pair (b'f' ∷ []) (2 ∷ []) 2 0 (3 ∷ []) 10 zeroed 5 34
      sevens 20 (b'g' ∷ []) 2 1 (4 ∷ []) 5 zeroed f_Tight (omega arith) (λ i. omega arith)
      (omega arith) (omega arith) (omega arith) (omega arith) (inl (omega arith)) g_File refl
      (pair_Disjoint 3 4 (omega arith))
