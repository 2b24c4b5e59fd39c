-- ===== src/Sqlite/RoundTrip.antt =====
-- sqliteio.c: what `write_sqlite_file` writes to a file of the root directory, `read_sqlite_file` reads.
use mathlib.Core.List.{Memᴰ}
use mathlib.Core.Path.{subst}
use model_lib.Prelude.{
  ℕ, ◌+◌, ◌*◌, ◌/◌, ◌%◌, ◌^◌, ◌≤◌, ◌<◌, ◌≡◌, ◌≢◌, ◌⊎◌, inl, refl, sym, ◌∙◌, arith, List, some, ok,
  length,
}
use model_lib.Memory.{Bytes, c_string}
use model_lib.Memory.Laws.{copy_to_in, copy_to_out}
use model_lib.Memory.Strings.{c_string-same}
use model_lib.Volume.{Volume, read_at}
use model_lib.Volume.Layout.{Layout, read_at_inside, write_at_lem}
use model_lib.Fat.{u32_mod}
use model_lib.Entry.Dirent.{Dirent, attribute, entry_in, head_cluster_number, size, set_size}
use model_lib.Entry.Walk.Clusters.{cluster_pos, view}
use model_lib.Entry.Walk.Chain.{Chain, IsCluster}
use model_lib.Entry.Walk.Slots.{All}
use model_lib.Entry.Directory.Find.{TidyAt, find_file, get_dentry-find_file}
use model_lib.Entry.Directory.Slot.{Chain-IsCluster}
use model_lib.Entry.Directory.Renew as Renew
use model_lib.Entry.Directory.Update.{renew_at, renewed, alloc_new_entry-find_file}
use model_lib.Entry.Walk.First.{first_in-inl}
use model_lib.File.Seek.{nth, nth-IsCluster}
use model_lib.File.RoundTrip as File
use model_lib.Entry.Made.{head_same, size_same}
use model_lib.Sqlite.{write_sqlite_file, read_sqlite_file}
use model_lib.Sqlite.Root.{
  root_route, get_cluster_number_root, attribute-set_size, name-set_size, name-set_size_short,
  named_kind, tidy-written, find_file-written, set_size-byte, view-byte,
}

-- A file of the root directory, and a request that lies in one of its clusters.
pub record Request (fuel s : ℕ) (v : Volume) (t dir cs : List ℕ) (c n x len offset : ℕ)
    : Type 0 where
  pub layout : Layout 2 s v
  pub root : Chain s v 2 dir
  pub tidy : All (TidyAt s v) dir
  pub root_rounds : length dir < fuel
  pub there : find_file s v t dir ≡ inl (c, n)
  pub short_name : c_string 24 (entry_in (view v (cluster_pos s c)) n) 5 ≡ some t
  pub chain : Chain s v (head_cluster_number (entry_in (view v (cluster_pos s c)) n)) cs
  pub at : nth cs (offset / 512) ≡ some x
  pub rounds : offset / 512 < fuel
  pub apart : (c' : ℕ) → Memᴰ c' dir → c' ≢ x
  pub some_bytes : 0 < len
  pub inside : offset % 512 + len ≤ 512
  pub fits : offset + 512 < u32_mod
  pub no_gap : offset ≤ size (entry_in (view v (cluster_pos s c)) n)
  pub small : size (entry_in (view v (cluster_pos s c)) n) + len < u32_mod

module _ {fuel s : ℕ} {v : Volume} {t dir cs : List ℕ} {c n x len offset : ℕ}
    (r : Request fuel s v t dir cs c n x len offset) (buf : Bytes)
    (byte : (i : ℕ) → buf i < 256) where
  abbrev pub d0 : Dirent
  d0 = entry_in (view v (cluster_pos s c)) n

  abbrev pub d1 : Dirent
  d1 = set_size (size d0 + len) d0

  abbrev pub v1 : Volume
  v1 =
      File.written r.layout fuel d0 cs x len offset r.chain r.at r.rounds r.some_bytes r.inside
        r.fits buf

  pub l1 : Layout 2 s v1
  l1 =
      File.Layout-written r.layout fuel d0 cs x len offset r.chain r.at r.rounds r.some_bytes
        r.inside r.fits buf byte

  pub is : IsCluster s v x
  is = nth-IsCluster (offset / 512) x r.chain r.at

  pub other : (c' : ℕ) → Memᴰ c' dir → IsCluster s v c' × (c' ≢ x)
  other c' m = (Chain-IsCluster r.root c' m, r.apart c' m)

  pub root1 : Chain s v1 2 dir
  root1 =
      File.Chain-written r.layout fuel d0 cs x len offset r.chain r.at r.rounds r.some_bytes
        r.inside r.fits buf r.root

  pub chain1 : Chain s v1 (head_cluster_number d0) cs
  chain1 =
      File.Chain-written r.layout fuel d0 cs x len offset r.chain r.at r.rounds r.some_bytes
        r.inside r.fits buf r.chain

  pub tidy1 : All (TidyAt s v1) dir
  tidy1 = tidy-written r.layout x (offset % 512) len buf is r.some_bytes r.inside dir other r.tidy

  pub there1 : find_file s v1 t dir ≡ inl (c, n)
  there1 =
      find_file-written r.layout x (offset % 512) len buf is r.some_bytes r.inside t dir other
      ∙ r.there

  d0_byte : (i : ℕ) → d0 i < 256
  d0_byte i = view-byte v (cluster_pos s c) (n * 64 + i) r.layout.byte

  pub d1_byte : (i : ℕ) → d1 i < 256
  d1_byte = set_size-byte (size d0 + len) d0 d0_byte

  pub kind1 : attribute d1 ≡ 1
  kind1 =
      attribute-set_size (size d0 + len) d0
      ∙ named_kind t (view v (cluster_pos s c)) n (first_in-inl _ 0 dir c n r.there).2

  pub name1 : c_string 59 d1 5 ≡ some t
  name1 = name-set_size (size d0 + len) d0 t r.short_name

  abbrev pub v2 : Volume
  v2 = renew_at s v1 c n d1

  pub l2 : Layout 2 s v2
  l2 = Renew.behind-Layout l1 2 dir root1 tidy1 d1 t d1_byte kind1 name1 c n there1

  abbrev pub d2 : Dirent
  d2 = entry_in (view v2 (cluster_pos s c)) n

  pub d2_same : (i : ℕ) → i < 64 → d2 i ≡ d1 i
  d2_same = Renew.renewed_same l1 2 dir root1 tidy1 d1 t d1_byte kind1 name1 c n there1

  pub head2 : head_cluster_number d2 ≡ head_cluster_number d0
  head2 = head_same d1 d2 d2_same ∙ File.head-set_size (size d0 + len) d0

  pub size2 : size d2 ≡ size d0 + len
  size2 = size_same d1 d2 d2_same ∙ File.size-set_size (size d0 + len) d0 r.small

  pub chain2 : Chain s v2 (head_cluster_number d2) cs
  chain2 =
      subst (λ h. Chain s v2 h cs) (sym head2)
        (Renew.behind-Chain l1 2 dir root1 tidy1 d1 t d1_byte kind1 name1 c n there1 chain1)

  pub root2 : Chain s v2 2 dir
  root2 = Renew.behind-Chain l1 2 dir root1 tidy1 d1 t d1_byte kind1 name1 c n there1 root1

  pub tidy2 : All (TidyAt s v2) dir
  tidy2 = Renew.behind-tidy l1 2 dir root1 tidy1 d1 t d1_byte kind1 name1 c n there1

  pub there2 : find_file s v2 t dir ≡ inl (c, n)
  there2 = Renew.behind_found l1 2 dir root1 tidy1 d1 t d1_byte kind1 name1 c n there1

  pub short2 : c_string 24 d2 5 ≡ some t
  short2 =
      c_string-same 24 d1 d2 5 5 (λ i h. d2_same (5 + i) (omega arith))
      ∙ name-set_size_short (size d0 + len) d0 t r.short_name

  abbrev place : ℕ
  place = cluster_pos s x + offset % 512

  wrapped : offset % u32_mod ≡ offset
  wrapped = omega (arith, r.fits)

  grown : (size d0 + len) % 2 ^ 64 ≡ size d0 + len
  grown = omega (arith, r.small)

  pub written_lem :
      (stack garbage : Bytes)
      → write_sqlite_file stack garbage fuel v root_route t (some buf) len offset
        ≡ ok (some len, v2)
  unfolding write_sqlite_file
  written_lem stack garbage =
      rw
        (
          get_cluster_number_root fuel s v r.layout (omega (arith, r.rounds)),
          get_dentry-find_file fuel s v 2 dir t r.layout r.root r.tidy r.root_rounds,
          r.there,
          wrapped,
          File.write_file-written r.layout fuel d0 cs x len offset r.chain r.at r.rounds
              r.some_bytes r.inside r.fits stack buf,
          grown,
          alloc_new_entry-find_file fuel s v1 2 dir t d1 c n l1 root1 tidy1 r.root_rounds there1,
        )
        refl

  read_lem :
      (garbage out : Bytes)
      → read_sqlite_file garbage fuel v2 root_route t (some out) len offset
        ≡ ok (some (len, read_at v2 place out len))
  unfolding read_sqlite_file
  read_lem garbage out =
      rw
        (
          get_cluster_number_root fuel s v2 l2 (omega (arith, r.rounds)),
          Renew.get_dentry-behind l1 2 dir root1 tidy1 d1 t d1_byte kind1 name1 c n there1 fuel
              r.root_rounds,
          wrapped,
          File.read_file-inside l2 fuel d2 cs x len offset chain2 r.at r.rounds r.some_bytes
              r.inside r.fits out (omega (arith, size2, r.no_gap)) (omega (arith, size2, r.small)),
        )
        refl

  in_dir : IsCluster s v c × (c ≢ x)
  in_dir = other c (first_in-inl _ 0 dir c n r.there).0

  clear :
      (i : ℕ)
      → i < len
      → 2 ≤ c
      → 2 ≤ x
      → c ≢ x
      → offset % 512 + len ≤ 512
      → (place + i < cluster_pos s c) ⊎ (cluster_pos s c + 512 ≤ place + i)
  clear i h low low' ne inside = ground arith

  bytes_lem : (out : Bytes) (i : ℕ) → i < len → read_at v2 place out len i ≡ buf i
  bytes_lem out i h =
      let place1 =
        write_at_lem v place len buf r.some_bytes (omega (arith, is.in_fat, r.layout.few)) in
      let place2 =
        write_at_lem v1 (cluster_pos s c) 512 (renewed (view v1 (cluster_pos s c)) n d1)
          (omega arith) (omega (arith, in_dir.0.in_fat, r.layout.few)) in
      let kept : v2.bytes (place + i) ≡ v1.bytes (place + i) = rw place2 (
        copy_to_out v1.bytes (cluster_pos s c) (renewed (view v1 (cluster_pos s c)) n d1) 512
          (place + i) (clear i h in_dir.0.in_fat.0 is.in_fat.0 in_dir.1 r.inside)) in
      let put : v1.bytes (place + i) ≡ buf i =
        rw place1 (copy_to_in v.bytes place buf len (place + i) i (omega arith) h) in
      read_at_inside v2 place len out i
        (rw place2 (rw place1 (omega (arith, is.in_file, r.inside))))
        (omega (arith, is.in_fat, r.layout.few)) h
      ∙ kept
      ∙ put

-- For a request on a file of the root directory (a formatted volume with two-byte indices; a root
-- directory whose entries all have short names that end; a file of the name in it, whose name fits into
-- its field; a request that is not empty, begins no later than the file ends and lies in one cluster of
-- the file, which is none of the directory's; numbers of 32 bits; enough rounds) and bytes to write:
-- `write_sqlite_file` says that it wrote all of them, and then `read_sqlite_file` of the same route,
-- name, length and offset says that it read as many, and gives the same bytes.
pub write_sqlite_file-read_sqlite_file :
    (stack garbage buf out : Bytes) (fuel s : ℕ) (v : Volume) (t dir cs : List ℕ)
    (c n x len offset : ℕ)
    → Request fuel s v t dir cs c n x len offset
    → ((i : ℕ) → buf i < 256)
    → (v' : Volume) × (out' : Bytes) × (write_sqlite_file stack garbage fuel v root_route t
          (some buf)
          len
          offset
        ≡ ok (some len, v'))
      × (read_sqlite_file garbage fuel v' root_route t (some out) len offset
          ≡ ok (some (len, out')))
      × ((i : ℕ) → i < len → out' i ≡ buf i)
write_sqlite_file-read_sqlite_file stack garbage buf out fuel s v t dir cs c n x len offset r byte =
    (
      v2 r buf byte,
      read_at (v2 r buf byte) (cluster_pos s x + offset % 512) out len,
      written_lem r buf byte stack garbage,
      read_lem r buf byte garbage out,
      bytes_lem r buf byte out,
    )
