-- ===== src/File/Seek.antt =====
-- file.c: `read_file` and `write_file` go to the cluster of an offset.
use model_lib.Prelude.{
  ℕ, zero, suc, ◌+◌, ◌*◌, ◌%◌, ◌≤◌, ◌<◌, ◌==◌, ◌≡◌, refl, arith, leb, true, false, ok, ne→==, List,
  [], ◌∷◌, Option, none, some, ◌∙◌, Outcome,
}
use model_lib.Memory.{Bytes}
use model_lib.Volume.{Volume}
use model_lib.Volume.Layout.{Layout}
use model_lib.Fat.{u32_mod, u128_mod, read_fat_index}
use model_lib.Fat.Entries.{entry, read_fat_index-entry}
use model_lib.Entry.Walk.Chain.{Chain, stop, link, IsCluster, end_mark}
use model_lib.File.{extend_chain, seek_cluster, seek_or_extend}

-- The cluster of a number in a chain.
unfoldable pub nth : List ℕ → ℕ → Option ℕ
nth [] k = none
nth (c ∷ cs) zero = some c
nth (c ∷ cs) (suc k) = nth cs k

pub nth-IsCluster :
    {s : ℕ} {v : Volume} {c : ℕ} {cs : List ℕ} (k x : ℕ)
    → Chain s v c cs
    → nth cs k ≡ some x
    → IsCluster s v x
unfolding nth
nth-IsCluster k x (stop e) at = cc
nth-IsCluster zero x (link {c} is rest) at = let here : c ≡ x = cc in rw (← here) is
nth-IsCluster (suc k) x (link is rest) at = nth-IsCluster k x rest at

module _ {s : ℕ} {v : Volume} (l : Layout 2 s v) (offset : ℕ) where
  pub next_entry : (c : ℕ) → IsCluster s v c → read_fat_index v c ≡ ok (entry 2 v c)
  next_entry c is =
      let few : c < u128_mod = omega (arith, is.in_fat, l.few) in
      read_fat_index-entry l c is.in_fat few (omega arith)

  pub seek_cluster-nth :
      (k fuel pos c x : ℕ) (cs : List ℕ)
      → Chain s v c cs
      → nth cs k ≡ some x
      → pos + 512 * k ≤ offset
      → offset < pos + 512 * k + 512
      → k < fuel
      → seek_cluster fuel v offset pos c ≡ ok x
  unfolding seek_cluster nth
  seek_cluster-nth k zero pos c x cs chain at low high h = absurd (omega arith)
  seek_cluster-nth k (suc fuel) pos c x [] chain at low high h = cc
  seek_cluster-nth zero (suc fuel) pos c x cs (link is rest) at low high h =
      let done : leb (pos + 512) offset ≡ false = ground arith in
      let here : c ≡ x = cc in rw (seek_cluster, done, here) refl
  seek_cluster-nth (suc k) (suc fuel) pos c x cs (link {cs = cs'} is rest) at low high h =
      let more : leb (pos + 512) offset ≡ true = ground arith in
      rw (seek_cluster, more, next_entry c is)
        (seek_cluster-nth k fuel (pos + 512) (entry 2 v c) x cs' rest at (omega arith) (omega arith)
          (omega arith))

  pub head_not_end :
      (c k x : ℕ) (cs : List ℕ) → Chain s v c cs → nth cs k ≡ some x → (c == end_mark) ≡ false
  unfolding nth
  head_not_end c k x _ (stop e) at = cc
  head_not_end c k x _ (link is rest) at = ne→== c end_mark is.not_end

  pub one_further :
      (stack : Bytes) (fuel pos c next : ℕ)
      → read_fat_index v c ≡ ok next
      → (next == end_mark) ≡ false
      → (pos + 512) % u32_mod ≡ pos + 512
      → leb (pos + 512) offset ≡ true
      → seek_or_extend stack (suc fuel) v end_mark offset pos c
        ≡ seek_or_extend stack fuel v end_mark offset (pos + 512) next
  unfolding seek_or_extend
  one_further stack fuel pos c next read other small more =
      let last : ◌≡◌ {A = Outcome (ℕ × Volume)}
          (elim (next == end_mark) [
            | true ↦ extend_chain stack v end_mark c
            | false ↦ seek_or_extend stack fuel v end_mark offset ((pos + 512) % u32_mod) next
          ])
          (seek_or_extend stack fuel v end_mark offset (pos + 512) next) =
        rw (other, small) refl in
      rw (seek_or_extend, small, more, read) last

  pub seek_or_extend-nth :
      (stack : Bytes) (k fuel pos c x : ℕ) (cs : List ℕ)
      → Chain s v c cs
      → nth cs k ≡ some x
      → pos + 512 * k ≤ offset
      → offset < pos + 512 * k + 512
      → offset + 512 < u32_mod
      → k < fuel
      → seek_or_extend stack fuel v end_mark offset pos c ≡ ok (x, v)
  unfolding seek_or_extend nth
  seek_or_extend-nth stack k zero pos c x cs chain at low high fits h = absurd (omega arith)
  seek_or_extend-nth stack k (suc fuel) pos c x [] chain at low high fits h = cc
  seek_or_extend-nth stack zero (suc fuel) pos c x cs (link is rest) at low high fits h =
      let small : (pos + 512) % u32_mod ≡ pos + 512 = omega arith in
      let done : leb (pos + 512) offset ≡ false = ground arith in
      let here : c ≡ x = cc in rw (seek_or_extend, small, done, here) refl
  seek_or_extend-nth stack (suc k) (suc fuel) pos c x cs (link {cs = cs'} is rest) at low high fits
        h =
      let small : (pos + 512) % u32_mod ≡ pos + 512 = omega arith in
      let more : leb (pos + 512) offset ≡ true = ground arith in
      one_further stack fuel pos c (entry 2 v c) (next_entry c is)
        (head_not_end (entry 2 v c) k x cs' rest at) small more
      ∙ seek_or_extend-nth stack k fuel (pos + 512) (entry 2 v c) x cs' rest at (omega arith)
          (omega arith) fits (omega arith)
