-- ===== src/Sqlite/Root.antt =====
-- sqliteio.c: what the calls on a file of the root directory rest on.
use mathlib.Core.List.{Memᴰ}
use mathlib.Core.Path.{subst}
use model_lib.Prelude.{
  ℕ, zero, suc, ◌+◌, ◌≤◌, ◌<◌, ◌≡◌, ◌≢◌, ◌⊎◌, inl, inr, refl, sym, ap, ◌∙◌, arith, fun_ext, ltb,
  ltb→lt, true, Bool-cases, ==→eq, List, [], ◌∷◌, some, ok,
}
use model_lib.Memory.{Bytes, copy_to, c_string, bytes_of}
use model_lib.Memory.Laws.{copy_to_out, copy_to-byte}
use model_lib.Memory.Strings.{c_string-same, c_string_mono}
use model_lib.Volume.{Volume, write_at}
use model_lib.Volume.Layout.{Layout, layout_end, write_at_lem}
use model_lib.Util.{strtok_r}
use model_lib.Entry.Dirent.{Dirent, attribute, entry_in, is_normal_file, set_size}
use model_lib.Entry.Walk.Clusters.{cluster_pos, view, read_cluster_lem}
use model_lib.Entry.Walk.Chain.{IsCluster}
use model_lib.Entry.Walk.Slots.{All}
use model_lib.Entry.Walk.First.{first_in_same}
use model_lib.Entry.Directory.{get_cluster_number, follow}
use model_lib.Entry.Directory.Find.{TidyAt, IsTidy, is_file_named, find_file}

-- "/"
abbrev pub root_route : List ℕ
root_route = b'/' ∷ []

pub get_cluster_number_root :
    (fuel s : ℕ) (v : Volume)
    → Layout 2 s v
    → 0 < fuel
    → get_cluster_number fuel v root_route ≡ ok 2
unfolding get_cluster_number strtok_r follow
get_cluster_number_root zero s v l h = absurd (omega arith)
get_cluster_number_root (suc fuel) s v l h =
    rw (layout_end l, read_cluster_lem l 2 (omega arith) (omega arith)) refl

-- The entry keeps its kind and its name when its size is set.
pub attribute-set_size : (n : ℕ) (d : Dirent) → attribute (set_size n d) ≡ attribute d
unfolding set_size copy_to
attribute-set_size n d = refl

pub name-set_size_short :
    (n : ℕ) (d : Dirent) (t : List ℕ)
    → c_string 24 d 5 ≡ some t
    → c_string 24 (set_size n d) 5 ≡ some t
unfolding set_size
name-set_size_short n d t e =
    c_string-same 24 d (set_size n d) 5 5 (λ i h. copy_to_out d 33 _ 8 (5 + i) (omega arith)) ∙ e

pub name-set_size :
    (n : ℕ) (d : Dirent) (t : List ℕ)
    → c_string 24 d 5 ≡ some t
    → c_string 59 (set_size n d) 5 ≡ some t
name-set_size n d t e =
    c_string_mono 24 59 (set_size n d) 5 t (name-set_size_short n d t e) (omega arith)

pub named_kind :
    (t : List ℕ) (cluster : Bytes) (n : ℕ)
    → is_file_named t cluster n ≡ true
    → attribute (entry_in cluster n) ≡ 1
unfolding is_file_named
named_kind t cluster n e = elim (Bool-cases (is_normal_file (attribute (entry_in cluster n)))) [
  | inl yes_file ↦ ==→eq _ 1 yes_file
  | inr no_file ↦ cc (rw (is_file_named, no_file) at e)
]

-- A write into a cluster that is not the directory's leaves the directory as it is.
module _ {s : ℕ} {v : Volume} (l : Layout 2 s v) (x offset len : ℕ) (buf : Bytes)
    (is : IsCluster s v x) (some_bytes : 0 < len) (inside : offset + len ≤ 512) where
  abbrev written_in : Volume
  written_in = write_at v (cluster_pos s x + offset) buf len

  pub view-other :
      (c : ℕ)
      → IsCluster s v c
      → c ≢ x
      → view written_in (cluster_pos s c) ≡ view v (cluster_pos s c)
  view-other c is' ne =
      rw
        (write_at_lem v (cluster_pos s x + offset) len buf some_bytes
          (omega (arith, is.in_fat, l.few)))
        (fun_ext λ i. elim (Bool-cases (ltb i 512)) [
          | inl e ↦ rw e (
              copy_to_out v.bytes (cluster_pos s x + offset) buf len (cluster_pos s c + i)
                (apart i (ltb→lt i 512 e) is.in_fat.0 is'.in_fat.0))
          | inr e ↦ rw e refl
        ])
    where
      apart :
          (i : ℕ)
          → i < 512
          → 2 ≤ x
          → 2 ≤ c
          → (cluster_pos s c + i < cluster_pos s x + offset)
            ⊎ (cluster_pos s x + offset + len ≤ cluster_pos s c + i)
      apart i h low low' = let ne' = ne in ground arith

  pub tidy-written :
      (cs : List ℕ)
      → ((c : ℕ) → Memᴰ c cs → IsCluster s v c × (c ≢ x))
      → All (TidyAt s v) cs
      → All (TidyAt s written_in) cs
  tidy-written [] other tidy = tt
  tidy-written (c ∷ cs) other (t, ts) =
      let here = other c (Memᴰ.head refl) in
      (
        subst IsTidy (sym (view-other c here.0 here.1)) t,
        tidy-written cs (λ c' m. other c' (Memᴰ.tail m)) ts,
      )

  pub find_file-written :
      (t cs : List ℕ)
      → ((c : ℕ) → Memᴰ c cs → IsCluster s v c × (c ≢ x))
      → find_file s written_in t cs ≡ find_file s v t cs
  find_file-written t cs other =
      first_in_same (λ c. is_file_named t (view v (cluster_pos s c)))
        (λ c. is_file_named t (view written_in (cluster_pos s c))) 0 cs
        (λ c n m h.
          let here = other c m in
          ap (λ (cluster : Bytes). is_file_named t cluster n) (view-other c here.0 here.1))

pub set_size-byte : (n : ℕ) (d : Dirent) → ((i : ℕ) → d i < 256) → (i : ℕ) → set_size n d i < 256
unfolding set_size
set_size-byte n d h = copy_to-byte d 33 (bytes_of n) 8 h (λ i. omega arith)

pub view-byte :
    (v : Volume) (position i : ℕ) → ((j : ℕ) → v.bytes j < 256) → view v position i < 256
view-byte v position i h = ground (arith, h (position + i))
