-- ===== src/Tests/Tree.antt =====
-- The theorems on paths and listings at a volume with a directory "d" that holds a file "f".
use model_lib.Prelude.{
  ℕ, ◌+◌, ◌*◌, ◌<◌, ◌==◌, ◌≡◌, refl, arith, true, ok, some, inl, List, [], ◌∷◌, if◌then◌else◌,
}
use model_lib.Memory.{Bytes, c_string}
use model_lib.Volume.{Volume, sb_of}
use model_lib.Volume.Layout.{Layout}
use model_lib.Util.Tokens.{components, split, nonempty}
use model_lib.Entry.Walk.Clusters.{cluster_pos, view}
use model_lib.Entry.Walk.Chain.{Chain, stop, link, IsCluster}
use model_lib.Entry.Walk.Slots.{first, first_in}
use model_lib.Entry.Dirent.{entry_name}
use model_lib.Entry.Directory.{slash, get_cluster_number}
use model_lib.Entry.Directory.Find.{IsTidy, has_name}
use model_lib.Entry.Directory.Route.{find_dir, is_dir_named}
use model_lib.Entry.Directory.Leads.{Leads, here, into, get_cluster_number-Leads}
use model_lib.Dir.{file_dentry, readdir, lookup}
use model_lib.Dir.Live.{listing, offer, find_kind}
use model_lib.Dir.Readdir.{readdir-listing}
use model_lib.Dir.Lookup.{lookup-find_kind}
use model_lib.Tests.Disk.{blank, blank_byte}
use model_lib.Tests.Files.{below_eight}

-- Entry 3 of the table is an end mark; the root directory has the directory "d", in cluster 3, and this
-- has the file "f".
abbrev tree_bytes : Bytes
tree_bytes i =
    if i == 514
    then 255
    else if i == 515
    then 255
    else if i == 1536
    then 3
    else if i == 1541
    then b'd'
    else if i == 1565
    then 3
    else if i == 2048
    then 1
    else if i == 2053
    then b'f'
    else blank 2 i

abbrev tree : Volume
tree = record { bytes = tree_bytes; size = 512 * 9; f_pos = 0 }

tree_byte : (i : ℕ) → tree_bytes i < 256
tree_byte i = ground (arith, blank_byte 2 i)

tree-Layout : Layout 2 1 tree
unfolding sb_of
tree-Layout = record {
  sector = refl;
  copies = refl;
  sectors = refl;
  fat = refl;
  data_sector = refl;
  width = refl;
  few = omega arith;
  room = omega arith;
  byte = tree_byte;
}

top : IsCluster 1 tree 2
top = record { in_fat = (omega arith, omega arith); in_file = omega arith; not_end = omega arith }

top-Chain : Chain 1 tree 2 (2 ∷ [])
top-Chain = link top (stop refl)

inner-Chain : Chain 1 tree 3 (3 ∷ [])
inner-Chain =
    link
      (record { in_fat = (omega arith, omega arith); in_file = omega arith; not_end = omega arith })
      (stop refl)

top-IsTidy : IsTidy (view tree (cluster_pos 1 2))
unfolding c_string
top-IsTidy = record {
  short = below_eight _ refl refl refl refl refl refl refl refl;
  named =
      below_eight _ (b'd' ∷ [], refl) ([], refl) ([], refl) ([], refl) ([], refl) ([], refl)
        ([], refl) ([], refl);
}

inner-IsTidy : IsTidy (view tree (cluster_pos 1 3))
unfolding c_string
inner-IsTidy = record {
  short = below_eight _ refl refl refl refl refl refl refl refl;
  named =
      below_eight _ (b'f' ∷ [], refl) ([], refl) ([], refl) ([], refl) ([], refl) ([], refl)
        ([], refl) ([], refl);
}

-- "/d"
abbrev d_path : List ℕ
d_path = b'/' ∷ b'd' ∷ []

d_parts : components slash d_path ≡ (b'd' ∷ []) ∷ []
unfolding split nonempty
d_parts = refl

d_there : find_dir 1 tree (b'd' ∷ []) (2 ∷ []) ≡ inl (2, 0)
unfolding first_in first is_dir_named has_name entry_name c_string
d_there = refl

d-Leads : Leads 1 tree 2 (components slash d_path) (1 + 0) 3
d-Leads = rw d_parts (into top-Chain (top-IsTidy, tt) d_there here)

get_cluster_number-Leads_example : get_cluster_number 2 tree d_path ≡ ok 3
get_cluster_number-Leads_example =
    get_cluster_number-Leads 2 1 tree d_path 1 3 tree-Layout top d-Leads (omega arith)

readdir-listing_example :
    readdir (λ before e. true) (some []) 2 tree d_path 0
    ≡ ok (1, (offer (λ before e. true) [] (listing 1 tree (3 ∷ []))).0)
readdir-listing_example =
    readdir-listing (λ before e. true) [] 2 1 tree d_path 3 (3 ∷ []) tree-Layout
      (get_cluster_number-Leads 2 1 tree d_path 1 3 tree-Layout top d-Leads (omega arith))
      inner-Chain (inner-IsTidy, tt) (omega arith)

lookup-find_kind_example :
    lookup 2 tree d_path (b'f' ∷ []) ≡ ok (find_kind (b'f' ∷ []) (listing 1 tree (3 ∷ [])))
lookup-find_kind_example =
    lookup-find_kind 2 1 tree d_path (b'f' ∷ []) 3 (3 ∷ []) tree-Layout
      (get_cluster_number-Leads 2 1 tree d_path 1 3 tree-Layout top d-Leads (omega arith))
      inner-Chain (inner-IsTidy, tt) (omega arith)

-- What is listed.
inner_file : listing 1 tree (3 ∷ []) ≡ record { name = b'f' ∷ []; kind = file_dentry } ∷ []
unfolding listing c_string
inner_file = refl
