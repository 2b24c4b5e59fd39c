-- ===== src/Entry/Directory/New.antt =====
-- file.c and dir.c: a new entry with a cluster of its own, as `__mfs_create` and `__mfs_mkdir` put it into
-- a directory.
use mathlib.Core.List.{Memᴰ}
use mathlib.Core.Path.{subst}
use model_lib.Prelude.{
  ℕ, ◌<◌, ◌≡◌, ◌≢◌, inl, sym, ap, ◌∙◌, arith, true, false, List, [], ◌∷◌, some, ok, length,
}
use model_lib.Memory.{Bytes, c_string}
use model_lib.Memory.Strings.{IsName}
use model_lib.Volume.{Volume}
use model_lib.Volume.Layout.{Layout}
use model_lib.Fat.{find_empty_fat_index}
use model_lib.Fat.Entries.{entry}
use model_lib.Fat.Search.{find_empty-Answer}
use model_lib.Entry.Dirent.{Dirent, attribute, is_long_file_name, entry_in}
use model_lib.Entry.Made.{made, made_byte, made_long}
use model_lib.Entry.Walk.Clusters.{cluster_pos, view}
use model_lib.Entry.Walk.Chain.{Chain, IsCluster}
use model_lib.Entry.Walk.Claim.{
  claimed, contents, contents-claimed, claimed-Layout, Chain-claimed, Chain-new,
}
use model_lib.Entry.Walk.First.{first_in-inl}
use model_lib.Entry.Walk.Slots.{All, first_in}
use model_lib.Entry.Directory.Find.{IsTidy, TidyAt, is_file_named, find_file}
use model_lib.Entry.Directory.Free.{is_free, free_slot}
use model_lib.Entry.Directory.Slot.{put_at, Chain-IsCluster, Layout-put_at, Chain-put_at}
use model_lib.Entry.Directory.Put.{All-tidy-after, same_self}

-- The answer of a search for a free cluster that is not 0 is a free entry.
pub found_free :
    (stack : Bytes) (s : ℕ) (v : Volume) (head : ℕ)
    → Layout 2 s v
    → find_empty_fat_index stack v ≡ ok head
    → head ≢ 0
    → entry 2 v head ≡ 0
found_free stack s v head l e some_head =
    let (n, e', answer) = find_empty-Answer stack s v l in
    let same : n ≡ head = cc in
    let free : entry 2 v n ≡ 0 = (answer.free (rw same some_head)).1 in rw same at free

-- A directory, at cluster `c`, that can take an entry of a name, on a volume with a free cluster.
pub record Ready (stack : Bytes) (fuel s : ℕ) (v : Volume) (c : ℕ) (cs name : List ℕ)
    (c' n head : ℕ) : Type 0 where
  pub layout : Layout 2 s v
  pub chain : Chain s v c cs
  pub tidy : All (TidyAt s v) cs
  pub rounds : length cs < fuel
  pub free_entry : free_slot s v cs ≡ inl (c', n)
  pub free_cluster : find_empty_fat_index stack v ≡ ok head
  pub cluster : IsCluster s v head
  pub text : IsName name
  pub short : length name < 24

module _ {stack : Bytes} {fuel s : ℕ} {v : Volume} {c : ℕ} {cs name : List ℕ} {c' n head : ℕ}
    (r : Ready stack fuel s v c cs name c' n head) where
  free : entry 2 v head ≡ 0
  free = found_free stack s v head r.layout r.free_cluster (omega (arith, r.cluster.in_fat))

  abbrev pub v1 : Volume
  v1 = claimed v head

  pub layout1 : Layout 2 s v1
  layout1 = claimed-Layout r.layout head r.cluster free

  pub same : contents s v1 ≡ contents s v
  same = contents-claimed r.layout head r.cluster free

  pub tidy1 : All (TidyAt s v1) cs
  tidy1 = subst (λ f. All (λ x. IsTidy (f x)) cs) (sym same) r.tidy

  pub free_entry1 : free_slot s v1 cs ≡ inl (c', n)
  free_entry1 = ap (λ (f : ℕ → Bytes). first_in (λ x. is_free (f x)) 0 cs) same ∙ r.free_entry

  pub find1 : (t xs : List ℕ) → find_file s v1 t xs ≡ find_file s v t xs
  find1 t xs = ap (λ (f : ℕ → Bytes). first_in (λ x. is_file_named t (f x)) 0 xs) same

  pub chain1 : {x : ℕ} {xs : List ℕ} → Chain s v x xs → Chain s v1 x xs
  chain1 = Chain-claimed r.layout head r.cluster free

  pub own_chain1 : Chain s v1 head (head ∷ [])
  own_chain1 = Chain-new r.layout head r.cluster free

-- What the volume behind `__mfs_create` or `__mfs_mkdir` holds.
pub record Holds (s : ℕ) (v : Volume) (c : ℕ) (cs : List ℕ) (c' n head : ℕ) (d : Dirent)
    : Type 0 where
  pub layout : Layout 2 s v
  pub chain : Chain s v c cs
  pub tidy : All (TidyAt s v) cs
  pub own_chain : Chain s v head (head ∷ [])
  pub entry_bytes : (i : ℕ) → i < 64 → entry_in (view v (cluster_pos s c')) n i ≡ d i

module _ {stack : Bytes} {fuel s : ℕ} {v : Volume} {c : ℕ} {cs name : List ℕ} {c' n head : ℕ}
    (r : Ready stack fuel s v c cs name c' n head) (kind : ℕ)
    (plain : is_long_file_name (attribute (made kind name head)) ≡ false) where
  abbrev pub new_entry : Dirent
  new_entry = made kind name head

  abbrev pub created : Volume
  created = put_at s (v1 r) c' n new_entry

  pub slot_of : Memᴰ c' cs × (n < 8) × (is_free (contents s (v1 r) c') n ≡ true)
  slot_of = first_in-inl (λ x. is_free (contents s (v1 r) x)) 0 cs c' n (free_entry1 r)

  pub in_dir : IsCluster s (v1 r) c'
  in_dir = Chain-IsCluster (chain1 r r.chain) c' slot_of.0

  pub new_named : c_string 59 new_entry 5 ≡ some name
  new_named = made_long kind name head r.text r.short

  pub created-Holds : Holds s created c cs c' n head new_entry
  created-Holds = record {
    layout =
        Layout-put_at (layout1 r) c' n in_dir slot_of.1 new_entry (made_byte kind name head r.text);
    chain = Chain-put_at (layout1 r) c' n in_dir slot_of.1 new_entry (chain1 r r.chain);
    tidy =
        All-tidy-after (layout1 r) c' n in_dir slot_of.1 new_entry name plain new_named cs
          (Chain-IsCluster (chain1 r r.chain)) (tidy1 r);
    own_chain = Chain-put_at (layout1 r) c' n in_dir slot_of.1 new_entry (own_chain1 r);
    entry_bytes = same_self (layout1 r) c' n in_dir slot_of.1 new_entry name plain new_named;
  }
