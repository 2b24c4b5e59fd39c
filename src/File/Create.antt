-- ===== src/File/Create.antt =====
-- file.c: `__mfs_create` in a directory with a free entry, on a volume with a free cluster.
use model_lib.Prelude.{
  ℕ, ◌<◌, ◌≡◌, inl, inr, refl, ap, ◌∙◌, arith, false, true, List, [], ◌∷◌, some, ok, length,
}
use model_lib.Memory.{Bytes}
use model_lib.Volume.{Volume}
use model_lib.Volume.Layout.{Layout, layout_end}
use model_lib.Fat.{u32_mod}
use model_lib.Fat.Entries.{write_in_fat_index-ok}
use model_lib.Entry.Dirent.{
  attribute, is_long_file_name, Dirent, set_attribute, head_cluster_number, size, entry_in,
}
use model_lib.Entry.Made.{
  made, set_name_fits, made_file, made_size, made_head, head_same, size_same,
}
use model_lib.Entry.Walk.Clusters.{cluster_pos, view}
use model_lib.Entry.Walk.Chain.{Chain, end_mark}
use model_lib.Entry.Walk.Claim.{claimed}
use model_lib.Entry.Directory.{get_cluster_number, get_dentry}
use model_lib.Entry.Directory.Find.{find_file, dirent_at, get_dentry-find_file}
use model_lib.Entry.Directory.Free.{alloc_new_dirent-free_slot}
use model_lib.Entry.Directory.Slot.{put_at}
use model_lib.Entry.Directory.Insert.{find_file-put_at}
use model_lib.Entry.Directory.Put.{file_short}
use model_lib.Entry.Directory.New as New
use model_lib.Entry.Directory.New.{Ready, Holds}
use model_lib.File.{new_file_entry, create}

pub new_file_entry-made :
    (name : List ℕ) (head : ℕ) → length name < 59 → new_file_entry name head ≡ ok (made 1 name head)
unfolding new_file_entry made set_attribute
new_file_entry-made name head h = rw (set_name_fits name _ h) refl

-- `__mfs_create` up to the call of `alloc_new_dirent`.
pub create-claimed :
    {stack : Bytes} {fuel s : ℕ} {v : Volume} {c : ℕ} {cs name : List ℕ} {c' n head : ℕ}
    (r : Ready stack fuel s v c cs name c' n head) (route : List ℕ)
    → get_cluster_number fuel v route ≡ ok c
    → create stack fuel v route name ≡ ok (true, put_at s (claimed v head) c' n (made 1 name head))
unfolding create
create-claimed {stack} {fuel} {s} {v} {c} {cs} {name} {c'} {n} {head} r route at =
    rw
      (
        layout_end r.layout,
        at,
        r.free_cluster,
        new_file_entry-made name head (omega (arith, r.short)),
        write_in_fat_index-ok r.layout head r.cluster.in_fat end_mark
            (omega (arith, r.cluster.in_fat, r.layout.few)),
        alloc_new_dirent-free_slot stack fuel s (claimed v head) c cs (made 1 name head) c' n
            (New.layout1 r) (New.chain1 r r.chain) (New.tidy1 r) r.rounds (New.free_entry1 r),
      )
      refl

module _ {stack : Bytes} {fuel s : ℕ} {v : Volume} {c : ℕ} {cs name : List ℕ} {c' n head : ℕ}
    (r : Ready stack fuel s v c cs name c' n head) where
  pub plain_file : is_long_file_name (attribute (made 1 name head)) ≡ false
  plain_file = file_short (made 1 name head) (made_file name head)

  abbrev pub created : Volume
  created = New.created r 1 plain_file

  pub created-Holds : Holds s created c cs c' n head (made 1 name head)
  created-Holds = New.created-Holds r 1 plain_file

  pub created_there :
      (last : ℕ) → find_file s v name cs ≡ inr last → find_file s created name cs ≡ inl (c', n)
  created_there last missing =
      find_file-put_at (New.layout1 r) c cs (made 1 name head) name c' n last (New.chain1 r r.chain)
        (New.tidy1 r) (New.slot_of r 1 plain_file).0 (New.slot_of r 1 plain_file).1
        (New.find1 r name cs ∙ missing) (made_file name head) (New.new_named r 1 plain_file)

-- For a route to a directory with a free entry (on a formatted volume with two-byte indices and a free
-- cluster; entries with short names that end; a name that fits into its field, of no file there; more
-- rounds than the directory has clusters), `__mfs_create` succeeds, and on the volume that it leaves
-- `get_dentry` finds the file, with size 0 and the free cluster as its head, which the table links to
-- nothing; the directory's chain and the layout stay.
pub create-get_dentry :
    (stack : Bytes) (fuel s : ℕ) (v : Volume) (route : List ℕ) (c : ℕ) (cs name : List ℕ)
    (c' n head last : ℕ)
    → Ready stack fuel s v c cs name c' n head
    → get_cluster_number fuel v route ≡ ok c
    → find_file s v name cs ≡ inr last
    → (v' : Volume) × (e : Dirent) × (create stack fuel v route name ≡ ok (true, v'))
      × (get_dentry fuel v' c name ≡ ok (some e))
      × (head_cluster_number e ≡ head)
      × (size e ≡ 0)
      × Chain s v' head (head ∷ [])
      × Chain s v' c cs
      × Layout 2 s v'
create-get_dentry stack fuel s v route c cs name c' n head last r at missing =
    let h = created-Holds r in
    let e = entry_in (view (created r) (cluster_pos s c')) n in
    let small : head < u32_mod = omega (arith, r.cluster.in_fat, r.layout.few) in
    (
      created r,
      e,
      create-claimed r route at,
      get_dentry-find_file fuel s (created r) c cs name h.layout h.chain h.tidy r.rounds
          ∙ ap (λ x. ok (dirent_at s (created r) x)) (created_there r last missing),
      head_same (made 1 name head) e h.entry_bytes ∙ made_head 1 name head small,
      size_same (made 1 name head) e h.entry_bytes ∙ made_size 1 name head,
      h.own_chain,
      h.chain,
      h.layout,
    )
