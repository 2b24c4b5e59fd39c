-- ===== src/Entry/Made.antt =====
-- file.c and dir.c: the entry that `__mfs_create` and `__mfs_mkdir` put together.
use model_lib.Prelude.{
  ℕ, ◌+◌, ◌<◌, ◌≡◌, refl, ◌∙◌, arith, ltb, le→ltb, false, List, length, some, ok,
}
use model_lib.Memory.{zeroed, bytes_of, copy_to, string_bytes, store_string, c_string, u32_at}
use model_lib.Memory.Laws.{copy_to_in, copy_to_out, copy_to-byte}
use model_lib.Memory.Strings.{IsName, string_bytes-byte, c_string_stored, c_string_mono}
use model_lib.Fat.{u32_mod}
use model_lib.Entry.Dirent.{
  Dirent, attribute, head_cluster_number, size, set_attribute, set_head_cluster_number, set_size,
  set_name,
}

-- An entry of a kind, a name and a head cluster.
unfoldable pub made : (kind : ℕ) → List ℕ → (head : ℕ) → Dirent
made kind name head =
    set_size 0 (set_head_cluster_number head (store_string (set_attribute kind zeroed) 5 name))

pub set_name_fits :
    (name : List ℕ) (d : Dirent) → length name < 59 → set_name name d ≡ ok (store_string d 5 name)
unfolding set_name
set_name_fits name d h =
    let fits : ltb 59 (length name + 1) ≡ false = le→ltb 59 (length name + 1) (omega arith) in
    rw fits refl

pub made_file : (name : List ℕ) (head : ℕ) → attribute (made 1 name head) ≡ 1
unfolding made set_size set_head_cluster_number set_attribute copy_to
made_file name head = refl

pub made_dir : (name : List ℕ) (head : ℕ) → attribute (made 3 name head) ≡ 3
unfolding made set_size set_head_cluster_number set_attribute copy_to
made_dir name head = refl

pub made_size : (kind : ℕ) (name : List ℕ) (head : ℕ) → size (made kind name head) ≡ 0
unfolding made set_size copy_to
made_size kind name head = refl

four_bytes : (n : ℕ) → n < u32_mod → u32_at (bytes_of n) 0 ≡ n
four_bytes n h = omega arith

pub made_head :
    (kind : ℕ) (name : List ℕ) (head : ℕ)
    → head < u32_mod
    → head_cluster_number (made kind name head) ≡ head
unfolding made set_size set_head_cluster_number copy_to
made_head kind name head h = four_bytes head h

pub made_byte :
    (kind : ℕ) (name : List ℕ) (head : ℕ) → IsName name → (i : ℕ) → made kind name head i < 256
unfolding made set_size set_head_cluster_number set_attribute
made_byte kind name head text =
    copy_to-byte _ 33 (bytes_of 0) 8
      (copy_to-byte _ 29 (bytes_of head) 4
        (copy_to-byte _ 5 (string_bytes name) (length name + 1) (λ i. ground arith)
          (string_bytes-byte name text))
        (λ i. omega arith))
      (λ i. omega arith)

-- A name that fits into its field.
pub made_name :
    (kind : ℕ) (name : List ℕ) (head : ℕ)
    → IsName name
    → length name < 24
    → c_string 24 (made kind name head) 5 ≡ some name
unfolding made set_size set_head_cluster_number
made_name kind name head text short =
    c_string_stored name 24 (made kind name head) 5 text short (λ i h.
      copy_to_out (set_head_cluster_number head (store_string (set_attribute kind zeroed) 5 name))
        33 (bytes_of 0) 8 (5 + i) (omega arith)
      ∙ copy_to_out (store_string (set_attribute kind zeroed) 5 name) 29 (bytes_of head) 4 (5 + i)
          (omega arith)
      ∙ copy_to_in (set_attribute kind zeroed) 5 (string_bytes name) (length name + 1) (5 + i) i
          (omega arith) (omega arith))

pub made_long :
    (kind : ℕ) (name : List ℕ) (head : ℕ)
    → IsName name
    → length name < 24
    → c_string 59 (made kind name head) 5 ≡ some name
made_long kind name head text short =
    c_string_mono 24 59 (made kind name head) 5 name (made_name kind name head text short)
      (omega arith)

u32_same :
    (d d' : Dirent) (p : ℕ)
    → ((i : ℕ) → i < 64 → d' i ≡ d i)
    → p + 3 < 64
    → u32_at d' p ≡ u32_at d p
u32_same d d' p same h = omega (
  arith,
  same p (omega arith),
  same (p + 1) (omega arith),
  same (p + 2) (omega arith),
  same (p + 3) (omega arith),
)

-- Entries with the same bytes have the same head and size.
pub head_same :
    (d d' : Dirent)
    → ((i : ℕ) → i < 64 → d' i ≡ d i)
    → head_cluster_number d' ≡ head_cluster_number d
head_same d d' same = u32_same d d' 29 same (omega arith)

pub size_same : (d d' : Dirent) → ((i : ℕ) → i < 64 → d' i ≡ d i) → size d' ≡ size d
size_same d d' same =
    omega (arith, u32_same d d' 33 same (omega arith), u32_same d d' 37 same (omega arith))
