-- ===== src/File/Append.antt =====
-- file.c: `write_file` at the end of a file whose clusters are full takes a cluster more.
use mathlib.Core.List.{Memᴰ}
use model_lib.Prelude.{
  ℕ, zero, suc, ◌+◌, ◌*◌, ◌%◌, ◌≤◌, ◌<◌, ◌==◌, ◌≡◌, refl, sym, ap, ◌∙◌, arith, ltb, leb, true,
  false, ok, ne→==, eq→==, le→ltb, List, [], ◌∷◌, ◌++◌, some, Outcome, length,
}
use model_lib.Memory.{Bytes}
use model_lib.Volume.{Volume}
use model_lib.Volume.Layout.{Layout, layout_end}
use model_lib.Fat.{u32_mod, find_empty_fat_index}
use model_lib.Fat.Entries.{entry, write_in_fat_index-ok, Layout-set_entry}
use model_lib.Entry.Dirent.{Dirent, head_cluster_number}
use model_lib.Entry.Walk.Chain.{Chain, stop, link, IsCluster, end_mark}
use model_lib.Entry.Walk.Extend.{extended, extended-Layout, Chain-extended}
use model_lib.Entry.Directory.Slot.{Chain-IsCluster}
use model_lib.File.{valid_len_of, extend_chain, seek_or_extend, write_file}
use model_lib.File.Seek.{seek_or_extend-nth, nth, one_further, next_entry, head_not_end}

-- The last cluster of a chain is the one that the end mark follows.
pub last-end_mark :
    {s : ℕ} {v : Volume} {c : ℕ} {cs : List ℕ} (k y : ℕ)
    → Chain s v c cs
    → nth cs k ≡ some y
    → length cs ≡ suc k
    → entry 2 v y ≡ end_mark
unfolding nth
last-end_mark k y (stop e) at h = cc
last-end_mark zero y (link {c} is (stop e)) at h = let here : c ≡ y = cc in rw (← here) e
last-end_mark zero y (link is (link is' rest)) at h = absurd (omega arith)
last-end_mark (suc k) y (link is rest) at h = last-end_mark k y rest at (omega arith)

pub nth-Mem : (cs : List ℕ) (k y : ℕ) → nth cs k ≡ some y → Memᴰ y cs
unfolding nth
nth-Mem [] k y e = cc
nth-Mem (c ∷ cs) zero y e = let here : c ≡ y = cc in Memᴰ.head (sym here)
nth-Mem (c ∷ cs) (suc k) y e = Memᴰ.tail (nth-Mem cs k y e)

pub nth-inside : (cs : List ℕ) (k y : ℕ) → nth cs k ≡ some y → k < length cs
unfolding nth
nth-inside [] k y e = cc
nth-inside (c ∷ cs) zero y e = omega arith
nth-inside (c ∷ cs) (suc k) y e = omega (arith, nth-inside cs k y e)

pub nth-snoc : (cs : List ℕ) (x : ℕ) → nth (cs ++ x ∷ []) (length cs) ≡ some x
unfolding nth
nth-snoc [] x = refl
nth-snoc (c ∷ cs) x = nth-snoc cs x

pub nth-last : (cs : List ℕ) (k : ℕ) → length cs ≡ suc k → (y : ℕ) × (nth cs k ≡ some y)
unfolding nth
nth-last [] k h = absurd (omega arith)
nth-last (c ∷ cs) zero h = (c, refl)
nth-last (c ∷ cs) (suc k) h = nth-last cs k (omega arith)

module _ {s : ℕ} {v : Volume} (l : Layout 2 s v) (stack : Bytes) (x : ℕ)
    (found : find_empty_fat_index stack v ≡ ok x) (is_x : IsCluster s v x) where
  extend_chain_lem :
      (y : ℕ) → IsCluster s v y → extend_chain stack v end_mark y ≡ ok (x, extended v y x)
  unfolding extend_chain
  extend_chain_lem y is_y =
      let small : y % u32_mod ≡ y = omega (arith, is_y.in_fat, l.few) in
      rw
        (
          found,
          small,
          write_in_fat_index-ok l y is_y.in_fat x (omega (arith, is_y.in_fat, l.few)),
          write_in_fat_index-ok (Layout-set_entry l y x is_y.in_fat) x is_x.in_fat end_mark
              (omega (arith, is_x.in_fat, l.few)),
        )
        refl

  -- At the end of a chain, a cluster more is linked.
  pub seek_or_extend-end :
      (k fuel offset pos c y : ℕ) (cs : List ℕ)
      → Chain s v c cs
      → nth cs k ≡ some y
      → length cs ≡ suc k
      → offset ≡ pos + 512 * suc k
      → offset + 512 < u32_mod
      → k < fuel
      → seek_or_extend stack fuel v end_mark offset pos c ≡ ok (x, extended v y x)
  unfolding seek_or_extend nth
  seek_or_extend-end k zero offset pos c y cs chain at whole end fits h = absurd (omega arith)
  seek_or_extend-end k (suc fuel) offset pos c y [] chain at whole end fits h = cc
  seek_or_extend-end zero (suc fuel) offset pos c y cs (link is rest) at whole end fits h =
      let here : c ≡ y = cc in
      let small : (pos + 512) % u32_mod ≡ pos + 512 = omega arith in
      let more : leb (pos + 512) offset ≡ true = ground arith in
      let mark : (entry 2 v c == end_mark) ≡ true =
        eq→== (entry 2 v c) end_mark
          (ap (entry 2 v) here ∙ last-end_mark zero y (link is rest) at whole) in
      let last : ◌≡◌ {A = Outcome (ℕ × Volume)}
          (elim (entry 2 v c == end_mark) [
            | true ↦ extend_chain stack v end_mark c
            | false ↦
                seek_or_extend stack fuel v end_mark offset ((pos + 512) % u32_mod) (entry 2 v c)
          ])
          (ok (x, extended v y x)) =
        rw mark (extend_chain_lem c is ∙ ap (λ z. ok (x, extended v z x)) here) in
      rw (seek_or_extend, small, more, next_entry l offset c is) last
  seek_or_extend-end (suc k) (suc fuel) offset pos c y cs (link {cs = cs'} is rest) at whole end
        fits h =
      let small : (pos + 512) % u32_mod ≡ pos + 512 = omega arith in
      let more : leb (pos + 512) offset ≡ true = ground arith in
      one_further l offset stack fuel pos c (entry 2 v c) (next_entry l offset c is)
        (head_not_end l offset (entry 2 v c) k y cs' rest at) small more
      ∙ seek_or_extend-end k fuel offset (pos + 512) (entry 2 v c) y cs' rest at (omega arith)
          (omega arith) fits (omega arith)

-- A longer request at the start of a cluster writes as if only what fits into the cluster was asked for.
pub write_file-first :
    (stack : Bytes) (fuel : ℕ) (v : Volume) (d : Dirent) (buf : Bytes) (len m offset : ℕ)
    → 0 < m
    → m ≤ len
    → valid_len_of len (offset % 512) ≡ m
    → valid_len_of m (offset % 512) ≡ m
    → write_file stack fuel v d buf len offset ≡ write_file stack fuel v d buf m offset
unfolding write_file
write_file-first stack fuel v d buf len m offset some_bytes no_more part whole =
    let long : (len == 0) ≡ false = ne→== len 0 (omega arith) in
    let short : (m == 0) ≡ false = ne→== m 0 (omega arith) in
    let enough : ltb len m ≡ false = le→ltb len m (omega arith) in
    let enough' : ltb m m ≡ false = le→ltb m m (omega arith) in
    rw (long, short, part, whole, enough, enough') refl

-- At the end of a file whose clusters are full, `write_file` does as on the volume where the file has a
-- cluster more already.
pub write_file-extended :
    {s : ℕ} {v : Volume} (l : Layout 2 s v) (stack : Bytes) (x : ℕ)
    (found : find_empty_fat_index stack v ≡ ok x) (is : IsCluster s v x) (free : entry 2 v x ≡ 0)
    (small : x < 65536) (k fuel : ℕ) (d : Dirent) (buf : Bytes) (m y : ℕ) (cs : List ℕ)
    → Chain s v (head_cluster_number d) cs
    → nth cs k ≡ some y
    → length cs ≡ suc k
    → 0 < m
    → 512 * suc k + 512 < u32_mod
    → suc k < fuel
    → write_file stack fuel v d buf m (512 * suc k)
      ≡ write_file stack fuel (extended v y x) d buf m (512 * suc k)
unfolding write_file
write_file-extended {s} {v} l stack x found is free small k fuel d buf m y cs chain at whole
      some_bytes fits enough =
    let more : (m == 0) ≡ false = ne→== m 0 (omega arith) in
    let is_y : IsCluster s v y = Chain-IsCluster chain y (nth-Mem cs k y at) in
    let ends : entry 2 v y ≡ end_mark = last-end_mark k y chain at whole in
    let l0 = extended-Layout l y x is_y.in_fat is ends free small in
    let chain0 = Chain-extended l y x is_y.in_fat is ends free small chain (nth-Mem cs k y at) in
    let at0 : nth (cs ++ x ∷ []) (suc k) ≡ some x =
      ap (nth (cs ++ x ∷ [])) (sym whole) ∙ nth-snoc cs x in
    rw
      (
        layout_end l,
        layout_end l0,
        more,
        seek_or_extend-end l stack x found is k fuel (512 * suc k) 0 (head_cluster_number d) y cs
            chain at whole (omega arith) fits (omega arith),
        seek_or_extend-nth l0 (512 * suc k) stack (suc k) fuel 0 (head_cluster_number d) x
            (cs ++ x ∷ []) chain0 at0 (omega arith) (omega arith) fits enough,
      )
      refl
