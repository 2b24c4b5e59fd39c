-- ===== src/Sqlite/Inside.antt =====
-- sqliteio.c: `write_sqlite_file` behind the last byte of a file, in the file's last cluster.
use mathlib.Core.List.{Memᴰ}
use mathlib.Core.Path.{subst}
use model_lib.Prelude.{
  ℕ, ◌+◌, ◌-◌, ◌/◌, ◌%◌, ◌≤◌, ◌<◌, ◌==◌, ◌≡◌, inl, inr, sym, ◌∙◌, ap, arith, ltb, List, some, ok,
  length, if◌then◌else◌, Bool-cases, ltb→lt, ltb→le, ==→eq, ==→ne,
}
use model_lib.Memory.{Bytes, copy_to}
use model_lib.Memory.Laws.{copy_to_in, copy_to_out}
use model_lib.Volume.{Volume, write_at}
use model_lib.Volume.Layout.{write_at_lem}
use model_lib.Fat.{u32_mod}
use model_lib.Entry.Walk.Clusters.{view, cluster_pos}
use model_lib.Entry.Walk.Chain.{IsCluster}
use model_lib.Entry.Walk.Claim.{contents}
use model_lib.Entry.Walk.First.{first_in-inl}
use model_lib.Entry.Walk.Spare.{Spare, Spare-write_at}
use model_lib.Entry.Directory.Slot.{Chain-IsCluster, view_lem}
use model_lib.Entry.Directory.Update.{renewed}
use model_lib.File.Append.{nth-Mem, nth-inside}
use model_lib.File.Seek.{nth}
use model_lib.Sqlite.{write_sqlite_file}
use model_lib.Sqlite.Root.{root_route, view-other}
use model_lib.Sqlite.RoundTrip as Trip
use model_lib.Sqlite.RoundTrip.{Request}
use model_lib.Sqlite.Content.{FileAt, Chain-once}

-- Bytes, and others behind the first `len`.
abbrev pub append : Bytes → (len : ℕ) → Bytes → Bytes
append content len buf i = if ltb i len then content i else buf (i - len)

module _ {s : ℕ} {v : Volume} {t dir : List ℕ} {c n : ℕ} {cs : List ℕ} {len : ℕ} {content : Bytes}
    (f : FileAt s v t dir c n cs len content) (fuel m x : ℕ) (buf : Bytes)
    (byte : (i : ℕ) → buf i < 256) (rounds : length dir < fuel) (at : nth cs (len / 512) ≡ some x)
    (enough : len / 512 < fuel) (some_bytes : 0 < m) (inside : len % 512 + m ≤ 512)
    (fits : len + 512 < u32_mod) where
  pub request : Request fuel s v t dir cs c n x m len
  request = record {
    layout = f.layout;
    root = f.root;
    tidy = f.tidy;
    root_rounds = rounds;
    there = f.there;
    short_name = f.short_name;
    chain = f.chain;
    at = at;
    rounds = enough;
    apart = λ z in_dir e.
        f.apart z in_dir (subst (λ w. Memᴰ w cs) (sym e) (nth-Mem cs (len / 512) x at));
    some_bytes = some_bytes;
    inside = inside;
    fits = fits;
    no_gap = omega (arith, f.size_is);
    small = omega (arith, f.size_is);
  }

  abbrev pub behind : Volume
  behind = Trip.v2 request buf byte

  in_dir : Memᴰ c dir
  in_dir = (first_in-inl _ 0 dir c n f.there).0

  -- The write of the entry leaves the clusters of the file.
  entry_apart : (z : ℕ) → Memᴰ z cs → contents s behind z ≡ contents s (Trip.v1 request buf byte) z
  entry_apart z in_file =
      let l1 = Trip.l1 request buf byte in
      let is_c : IsCluster s (Trip.v1 request buf byte) c =
        Chain-IsCluster (Trip.root1 request buf byte) c in_dir in
      let start : cluster_pos s c + 0 ≡ cluster_pos s c = omega arith in
      let cluster : Bytes =
        renewed (view (Trip.v1 request buf byte) (cluster_pos s c)) n (Trip.d1 request buf byte) in
      subst
        (λ p.
          view (write_at (Trip.v1 request buf byte) p cluster 512) (cluster_pos s z)
          ≡ contents s (Trip.v1 request buf byte) z)
        start
        (view-other l1 c 0 512 cluster is_c (omega arith) (omega arith) z
          (Chain-IsCluster (Trip.chain1 request buf byte) z in_file)
          (λ e. f.apart z (subst (λ w. Memᴰ w dir) (sym e) in_dir) in_file))

  is_x : IsCluster s v x
  is_x = Trip.is request buf byte

  bytes_lem : (Trip.v1 request buf byte).bytes ≡ copy_to v.bytes (cluster_pos s x + len % 512) buf m
  bytes_lem =
      ap (λ (w : Volume). w.bytes)
        (write_at_lem v (cluster_pos s x + len % 512) m buf some_bytes
          (omega (arith, is_x.in_fat, f.layout.few)))

  -- The cluster of the write, byte for byte.
  in_cluster :
      (j : ℕ)
      → j < 512
      → contents s (Trip.v1 request buf byte) x j
        ≡ copy_to v.bytes (cluster_pos s x + len % 512) buf m (cluster_pos s x + j)
  in_cluster j h =
      view_lem (Trip.v1 request buf byte) (cluster_pos s x) j h
      ∙ ap (λ (b : Bytes). b (cluster_pos s x + j)) bytes_lem

  same_block : (i : ℕ) → len ≤ i → i < len + m → i / 512 ≡ len / 512
  same_block i low high = omega arith

  new_byte :
      (i z : ℕ)
      → len ≤ i
      → i < len + m
      → nth cs (i / 512) ≡ some z
      → contents s (Trip.v1 request buf byte) z (i % 512) ≡ buf (i - len)
  new_byte i z low high e =
      let block = same_block i low high in
      let here : z ≡ x = let e' : nth cs (len / 512) ≡ some z = rw (← block) e in cc in
      rw here (
        in_cluster (i % 512) (omega arith)
        ∙ copy_to_in v.bytes (cluster_pos s x + len % 512) buf m (cluster_pos s x + i % 512)
            (i - len) (omega arith) (omega arith))

  old_byte :
      (i z : ℕ)
      → i < len
      → nth cs (i / 512) ≡ some z
      → contents s (Trip.v1 request buf byte) z (i % 512) ≡ contents s v z (i % 512)
  old_byte i z h e = elim (Bool-cases (z == x)) [
    | inr other ↦
        ap (λ (u : Bytes). u (i % 512))
          (view-other f.layout x (len % 512) m buf is_x some_bytes inside z
            (Chain-IsCluster f.chain z (nth-Mem cs (i / 512) z e)) (==→ne z x other))
    | inl same ↦
        let here = ==→eq z x same in
        let block : i / 512 ≡ len / 512 =
          Chain-once (i / 512) (len / 512) x f.chain (e ∙ ap some here) at in
        rw here (
          in_cluster (i % 512) (omega arith)
          ∙ copy_to_out v.bytes (cluster_pos s x + len % 512) buf m (cluster_pos s x + i % 512)
              (inl (omega arith))
          ∙ sym (view_lem v (cluster_pos s x) (i % 512) (omega arith)))
  ]

  grown_holds :
      (i z : ℕ)
      → i < len + m
      → nth cs (i / 512) ≡ some z
      → contents s behind z (i % 512) ≡ append content len buf i
  grown_holds i z h e =
      ap (λ (u : Bytes). u (i % 512)) (entry_apart z (nth-Mem cs (i / 512) z e))
      ∙ elim (Bool-cases (ltb i len)) [
        | inl old ↦ rw old (old_byte i z (ltb→lt i len old) e ∙ f.holds i z (ltb→lt i len old) e)
        | inr new ↦ rw new (new_byte i z (ltb→le i len new) h e)
      ]

  reached : len / 512 < length cs
  reached = nth-inside cs (len / 512) x at

  -- The file is as it was, with the bytes behind its own.
  pub FileAt-behind : FileAt s behind t dir c n cs (len + m) (append content len buf)
  FileAt-behind = record {
    layout = Trip.l2 request buf byte;
    root = Trip.root2 request buf byte;
    tidy = Trip.tidy2 request buf byte;
    there = Trip.there2 request buf byte;
    short_name = Trip.short2 request buf byte;
    chain = Trip.chain2 request buf byte;
    size_is = Trip.size2 request buf byte ∙ ap (λ k. k + m) f.size_is;
    apart = f.apart;
    covered = omega (arith, reached);
    holds = grown_holds;
  }

  pub write_sqlite_file-behind :
      (stack garbage : Bytes)
      → write_sqlite_file stack garbage fuel v root_route t (some buf) m len ≡ ok (some m, behind)
  write_sqlite_file-behind stack garbage = Trip.written_lem request buf byte stack garbage

  pub Spare-behind : {a k : ℕ} → Spare s v a k → Spare s behind a k
  Spare-behind sp =
      let l1 = Trip.l1 request buf byte in
      let is_c = Chain-IsCluster (Trip.root1 request buf byte) c in_dir in
      let cluster : Bytes =
        renewed (view (Trip.v1 request buf byte) (cluster_pos s c)) n (Trip.d1 request buf byte) in
      Spare-write_at l1 (cluster_pos s c) 512 cluster (omega arith) (omega arith)
        (omega (arith, is_c.in_fat, f.layout.few))
        (Spare-write_at f.layout (cluster_pos s x + len % 512) m buf (omega arith) some_bytes
          (omega (arith, is_x.in_fat, f.layout.few)) sp)
