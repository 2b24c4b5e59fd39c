-- ===== src/Tests/Root.antt =====
-- The theorems on directories at the root directory of a small volume.
use model_lib.Prelude.{
  ℕ, ◌+◌, ◌≡◌, refl, true, false, arith, ok, some, inl, inr, ◌<◌, [], ◌∷◌, ◌≤◌, if◌then◌else◌,
  fun_ext, ◌==◌,
}
use model_lib.Memory.{zeroed}
use model_lib.Volume.{Volume}
use model_lib.Entry.Walk.{walk_clusters}
use model_lib.Entry.Walk.Clusters.{view, cluster_pos}
use model_lib.Entry.Walk.Chain.{Chain, stop, link, end_mark, walk_list, walk_clusters-walk_list}
use model_lib.Entry.Directory.{get_dentry, visit_free, alloc_new_dirent}
use model_lib.Entry.Directory.Find.{
  IsTidy, find_file, dirent_at, is_file_named, has_name, get_dentry-find_file,
}
use model_lib.Memory.{c_string}
use model_lib.Entry.Dirent.{Dirent}
use model_lib.Entry.Walk.Slots.{first, first_in}
use model_lib.Entry.Directory.Free.{free_slot, alloc_new_dirent-free_slot}
use model_lib.Entry.Directory.Slot.{put_at}
use model_lib.Entry.Directory.Insert.{alloc_new_dirent-get_dentry}
use model_lib.Tests.Disk.{blank, disk, disk-Layout}

-- The root directory has one cluster.
root_Chain : Chain 1 (disk 2) 2 (2 ∷ [])
root_Chain =
    link
      (record { in_fat = (omega arith, omega arith); in_file = omega arith; not_end = omega arith })
      (stop refl)

blank_end : (w i : ℕ) → 514 ≤ i → blank w i ≡ 0
blank_end w i h = ground arith

root_empty : view (disk 2) (cluster_pos 1 2) ≡ zeroed
root_empty = fun_ext λ i. ground (arith, blank_end 2 (cluster_pos 1 2 + i))

zeroed-IsTidy : IsTidy zeroed
unfolding c_string
zeroed-IsTidy = record { short = λ n h. refl; named = λ n h. ([], refl) }

root-IsTidy : IsTidy (view (disk 2) (cluster_pos 1 2))
root-IsTidy = rw root_empty zeroed-IsTidy

get_dentry-find_file_example :
    get_dentry 2 (disk 2) 2 (b'f' ∷ [])
    ≡ ok (dirent_at 1 (disk 2) (find_file 1 (disk 2) (b'f' ∷ []) (2 ∷ [])))
get_dentry-find_file_example =
    get_dentry-find_file 2 1 (disk 2) 2 (2 ∷ []) (b'f' ∷ []) (disk-Layout 2 (omega arith))
      root_Chain (root-IsTidy, tt) (omega arith)

walk_clusters-walk_list_example :
    walk_clusters visit_free 2 (disk 2) end_mark zeroed 0 2 false tt
    ≡ walk_list visit_free 1 (disk 2) 0 false tt (2 ∷ [])
walk_clusters-walk_list_example =
    walk_clusters-walk_list visit_free (disk-Layout 2 (omega arith)) 2 zeroed 0 2 (2 ∷ []) false tt
      root_Chain (omega arith) (λ i h. refl)

-- The entry of a file of the name "f".
abbrev f_entry : Dirent
f_entry i = if i == 0 then 1 else if i == 5 then b'f' else 0

f_entry_byte : (i : ℕ) → f_entry i < 256
f_entry_byte i = ground arith

f_entry_name : c_string 59 f_entry 5 ≡ some (b'f' ∷ [])
unfolding c_string
f_entry_name = refl

root_free : free_slot 1 (disk 2) (2 ∷ []) ≡ inl (2, 0)
unfolding first_in first
root_free = refl

no_file : find_file 1 (disk 2) (b'f' ∷ []) (2 ∷ []) ≡ inr 2
unfolding first_in first is_file_named has_name
no_file = refl

alloc_new_dirent-get_dentry_example :
    (v' : Volume) × (e : Dirent) × (alloc_new_dirent zeroed 2 (disk 2) 2 f_entry ≡ ok (true, v'))
    × (get_dentry 2 v' 2 (b'f' ∷ []) ≡ ok (some e))
    × ((i : ℕ) → i < 64 → e i ≡ f_entry i)
alloc_new_dirent-get_dentry_example =
    alloc_new_dirent-get_dentry zeroed 2 1 (disk 2) 2 (2 ∷ []) f_entry (b'f' ∷ []) 2 0 2
      (disk-Layout 2 (omega arith)) root_Chain (root-IsTidy, tt) (omega arith) root_free no_file
      f_entry_byte refl f_entry_name

alloc_new_dirent-free_slot_example :
    alloc_new_dirent zeroed 2 (disk 2) 2 f_entry ≡ ok (true, put_at 1 (disk 2) 2 0 f_entry)
alloc_new_dirent-free_slot_example =
    alloc_new_dirent-free_slot zeroed 2 1 (disk 2) 2 (2 ∷ []) f_entry 2 0
      (disk-Layout 2 (omega arith)) root_Chain (root-IsTidy, tt) (omega arith) root_free
