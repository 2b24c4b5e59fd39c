-- ===== src/Entry/Dirent.antt =====
-- dir.h and the attribute functions of dir.c and file.c: the directory entry. It is packed, 64 bytes
-- long, with its attribute at 0, its name at 5, its head cluster at 29 and its size at 33.
use model_lib.Prelude.{
  ℕ, ◌+◌, ◌-◌, ◌*◌, ◌%◌, min, ltb, ◌==◌, if◌then◌else◌, Bool, List, length, none, some, Outcome, ok,
  fault, bit_and,
}
use model_lib.Memory.{Bytes, u32_at, u64_at, bytes_of, copy_to, from, c_string, store_string}
use model_lib.Volume.{cluster_size}

-- `enum mfs_dirent_attribute`
abbrev pub deleted_file : ℕ
deleted_file = 0

abbrev pub normal_file : ℕ
normal_file = 1

abbrev pub deleted_dir : ℕ
deleted_dir = 2

abbrev pub normal_dir : ℕ
normal_dir = 3

abbrev pub long_file_name : ℕ
long_file_name = 4

-- `sizeof(struct mfs_dirent)`
abbrev pub dirent_size : ℕ
dirent_size = 64

-- `entry_per_data_cluster`
abbrev pub entry_per_data_cluster : ℕ
entry_per_data_cluster = 8

-- A `u8_t` attribute is below 256, so that the mask of 0xFF leaves it as it is.
abbrev pub is_normal_dir : ℕ → Bool
is_normal_dir attribute = attribute == normal_dir

abbrev pub is_deleted_dir : ℕ → Bool
is_deleted_dir attribute = attribute == deleted_dir

abbrev pub is_normal_file : ℕ → Bool
is_normal_file attribute = attribute == normal_file

abbrev pub is_long_file_name : ℕ → Bool
is_long_file_name attribute = attribute == long_file_name

abbrev pub is_deleted_file : ℕ → Bool
is_deleted_file attribute = attribute == deleted_file

-- A `struct mfs_dirent` in memory.
abbrev pub Dirent : Type 0
Dirent = Bytes

abbrev pub attribute : Dirent → ℕ
attribute d = d 0

abbrev pub name_at : ℕ
name_at = 5

abbrev pub head_cluster_number : Dirent → ℕ
head_cluster_number d = u32_at d 29

abbrev pub size : Dirent → ℕ
size d = u64_at d 33

-- `dentry->attribute &= 0xffffff00; dentry->attribute += k;` on a `u8_t`
unfoldable pub set_attribute : ℕ → Dirent → Dirent
set_attribute k d i = if i == 0 then (bit_and (d 0) 0xffff_ff00 + k) % 256 else d i

abbrev pub set_normal_file_attribute : Dirent → Dirent
unfolding set_attribute
set_normal_file_attribute = set_attribute normal_file

abbrev pub set_normal_dir_attribute : Dirent → Dirent
unfolding set_attribute
set_normal_dir_attribute = set_attribute normal_dir

unfoldable pub set_head_cluster_number : ℕ → Dirent → Dirent
set_head_cluster_number n d = copy_to d 29 (bytes_of n) 4

unfoldable pub set_size : ℕ → Dirent → Dirent
set_size n d = copy_to d 33 (bytes_of n) 8

-- `strcpy(dentry->name, s)`: a longer name runs over the fields behind it, and past the entry's 59
-- bytes it runs over the stack.
unfoldable pub set_name : List ℕ → Dirent → Outcome Dirent
set_name s d =
    if ltb (dirent_size - name_at) (length s + 1) then fault else ok (store_string d name_at s)

-- The entry of a cluster that `current_dir_entry` points to.
abbrev pub entry_in : Bytes → ℕ → Dirent
entry_in cluster n = from cluster (n * dirent_size)

-- `strcpy(composited_file_name, current_dir_entry->name)` into 128 bytes, from a buffer of
-- `CLUSTER_SIZE`.
unfoldable pub entry_name : Bytes → ℕ → Outcome (List ℕ)
unfolding c_string
entry_name cluster n =
    elim (c_string (min 128 (cluster_size - (n * dirent_size + name_at))) cluster
      (n * dirent_size + name_at)) [ none ↦ fault | some s ↦ ok s ]
