-- ===== src/Tests/Sessions.antt =====
-- The theorems on sequences of calls at a small volume.
use mathlib.Core.Path.{subst}
use model_lib.Prelude.{
  ℕ, ◌+◌, ◌<◌, ◌≡◌, refl, sym, ◌∙◌, inl, inr, arith, true, false, ok, some, none, List, [], ◌∷◌,
  same_string, same_string→eq, same_string_refl, Bool-cases, ap, Option,
}
use model_lib.Memory.{Bytes, zeroed}
use model_lib.Volume.{Volume}
use model_lib.Sqlite.{create_dummy, read_sqlite_file, write_sqlite_file}
use model_lib.Sqlite.Root.{root_route}
use model_lib.Sqlite.Inside.{append}
use model_lib.Sqlite.Keeps.{Disjoint}
use model_lib.Sqlite.Read.{moved}
use model_lib.Sqlite.Session.{
  Store, Content, Stored, Stands, Steps, none_yet, then, write, put, no_files,
}
use model_lib.Sqlite.Session.Run.{Steps-Stored, Steps-create_dummy, Steps-read_sqlite_file, written}
use model_lib.Tests.Files.{file_disk, file_disk-Layout, root_Chain, root-IsTidy, sevens}
use model_lib.Tests.Store.{g_name, g_name-IsName, file_disk-Spare, second_entry, no_g, f_File}

abbrev f_name : List ℕ
f_name = b'f' ∷ []

-- The store of the file "f" alone.
abbrev f_Store : Store
f_Store = put (no_files 35) f_name (10, zeroed) 35

only_one :
    (k left : ℕ) (name : List ℕ) (one : Content) (u : List ℕ) (file : Content)
    → (put (no_files k) name one left).files u ≡ some file
    → (u ≡ name) × (file ≡ one)
only_one k left name one u file h = elim (Bool-cases (same_string u name)) [
  | inl same ↦
      let held : ◌≡◌ {A = Option Content} (some one) (some file) = rw (same, put) at h in
      (same_string→eq u name same, cc)
  | inr other ↦
      let held : ◌≡◌ {A = Option Content} none (some file) = rw (other, put) at h in absurd cc
]

only_f :
    (u : List ℕ) (file : Content)
    → f_Store.files u ≡ some file
    → (u ≡ f_name) × (file ≡ (10, zeroed))
only_f = only_one 35 35 f_name (10, zeroed)

f-Stored : Stored 1 (2 ∷ []) f_Store file_disk
f-Stored = record {
  layout = file_disk-Layout;
  root = root_Chain;
  tidy = (root-IsTidy, tt);
  first_spare = 4;
  spare = file_disk-Spare;
  clusters = λ u. 3 ∷ [];
  stands = stands;
  apart = apart;
}
  where
    stands :
        (u : List ℕ) (file : Content)
        → f_Store.files u ≡ some file
        → Stands 1 file_disk (2 ∷ []) u (3 ∷ []) file
    stands u file h =
        let (name, content) = only_f u file h in
        let here : Stands 1 file_disk (2 ∷ []) f_name (3 ∷ []) (10, zeroed) = record {
          cluster = 2;
          slot = 0;
          at = f_File;
          some_cluster = omega arith;
          no_more = omega arith;
        } in
        subst (λ w. Stands 1 file_disk (2 ∷ []) w (3 ∷ []) file) (sym name)
          (subst (Stands 1 file_disk (2 ∷ []) f_name (3 ∷ [])) (sym content) here)

    apart :
        (u w : List ℕ) (file file' : Content)
        → f_Store.files u ≡ some file
        → f_Store.files w ≡ some file'
        → same_string u w ≡ false
        → Disjoint (3 ∷ []) (3 ∷ [])
    apart u w file file' h h' differ =
        let same : u ≡ w = (only_f u file h).0 ∙ sym (only_f w file' h').0 in
        let clash : true ≡ false = sym (same_string_refl u) ∙ ap (same_string u) same ∙ differ in
        absurd cc

-- The file "g", behind the others.
abbrev g_made :
    (v : Volume) × (create_dummy zeroed zeroed 3 3 file_disk root_route g_name sevens 1000 0 ≡ ok v)
    × Steps 3 3 1 (2 ∷ []) f_Store file_disk (put f_Store g_name (1000, sevens) 29) v
g_made =
    Steps-create_dummy 3 3 1 (2 ∷ []) f_Store file_disk f_Store file_disk zeroed zeroed g_name
      sevens 1000 2 (2, 1) f-Stored (omega arith) none_yet g_name-IsName (omega arith) no_g
      second_entry (λ i. omega arith) (omega arith) (omega arith) (omega arith) (omega arith)
      (omega arith)

g-Stored : Stored 1 (2 ∷ []) (put f_Store g_name (1000, sevens) 29) g_made.0
g-Stored =
    Steps-Stored 3 3 1 (2 ∷ []) f_Store file_disk (put f_Store g_name (1000, sevens) 29) g_made.0
      f-Stored (omega arith) g_made.2

-- Twenty bytes behind those of "f".
abbrev f_written :
    (v : Volume) × (write_sqlite_file zeroed zeroed 3 g_made.0 root_route f_name (some sevens) 20 10
      ≡ ok (some 20, v))
    × Stored 1
        (2 ∷ [])
        (put (put f_Store g_name (1000, sevens) 29) f_name (30, append zeroed 10 sevens) 27)
        v
f_written =
    written g-Stored (omega arith) zeroed zeroed f_name sevens 10 20 zeroed refl (λ i. omega arith)
      (omega arith) (inl (omega arith)) (omega arith) (omega arith) (omega arith)

abbrev two_calls :
    Steps 3 3 1
      (2 ∷ [])
      f_Store
      file_disk
      (put (put f_Store g_name (1000, sevens) 29) f_name (30, append zeroed 10 sevens) 27)
      f_written.0
two_calls = then g_made.2 (
    write zeroed zeroed f_name sevens 10 20 20 zeroed refl (λ i. omega arith) (omega arith)
      (inl (omega arith)) (omega arith) (omega arith) (omega arith) f_written.1)

Steps-Stored_example :
    Stored 1
      (2 ∷ [])
      (put (put f_Store g_name (1000, sevens) 29) f_name (30, append zeroed 10 sevens) 27)
      f_written.0
Steps-Stored_example =
    Steps-Stored 3 3 1 (2 ∷ []) f_Store file_disk
      (put (put f_Store g_name (1000, sevens) 29) f_name (30, append zeroed 10 sevens) 27)
      f_written.0 f-Stored (omega arith) two_calls

Steps-create_dummy_example :
    (v : Volume) × (create_dummy zeroed zeroed 3 3 file_disk root_route g_name sevens 1000 0 ≡ ok v)
    × Steps 3 3 1 (2 ∷ []) f_Store file_disk (put f_Store g_name (1000, sevens) 29) v
Steps-create_dummy_example =
    Steps-create_dummy 3 3 1 (2 ∷ []) f_Store file_disk f_Store file_disk zeroed zeroed g_name
      sevens 1000 2 (2, 1) f-Stored (omega arith) none_yet g_name-IsName (omega arith) no_g
      second_entry (λ i. omega arith) (omega arith) (omega arith) (omega arith) (omega arith)
      (omega arith)

Steps-read_sqlite_file_example :
    (out : Bytes) × (read_sqlite_file zeroed 3 f_written.0 root_route f_name (some zeroed) 12 8
      ≡ ok (some (moved 30 12 8, out)))
    × ((i : ℕ) → i < moved 30 12 8 → out i ≡ append zeroed 10 sevens (8 + i))
Steps-read_sqlite_file_example =
    Steps-read_sqlite_file 3 3 1 (2 ∷ []) f_Store file_disk
      (put (put f_Store g_name (1000, sevens) 29) f_name (30, append zeroed 10 sevens) 27)
      f_written.0 zeroed zeroed f_name 30 (append zeroed 10 sevens) 12 8 f-Stored (omega arith)
      two_calls refl (omega arith) (omega arith) (omega arith) (omega arith)
