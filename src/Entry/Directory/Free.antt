-- ===== src/Entry/Directory/Free.antt =====
-- entry.c: `alloc_new_dirent` takes the first free entry of a directory.
use model_lib.Prelude.{
  ℕ, ◌+◌, ◌*◌, ◌<◌, ◌≡◌, ◌⊎◌, inl, refl, Bool, true, false, ◌||◌, List, [], ◌∷◌, ok, length,
}
use model_lib.Memory.{Bytes, zeroed}
use model_lib.Volume.{Volume}
use model_lib.Volume.Layout.{Layout, layout_end}
use model_lib.Entry.Dirent.{Dirent, is_deleted_file, is_deleted_dir, attribute, entry_in}
use model_lib.Entry.Walk.Clusters.{cluster_pos, view}
use model_lib.Entry.Walk.Chain.{Chain, walk_clusters-walk_list}
use model_lib.Entry.Walk.Slots.{first_in, All, DecidesAt, walk_list-first_in}
use model_lib.Entry.Directory.{visit_free, alloc_new_dirent}
use model_lib.Entry.Directory.Slot.{put_at}
use model_lib.Entry.Directory.Find.{TidyAt}

-- An entry that may be written.
abbrev pub is_free : Bytes → ℕ → Bool
is_free cluster n =
    is_deleted_file (attribute (entry_in cluster n))
    || is_deleted_dir (attribute (entry_in cluster n))

-- The first of them in a directory.
abbrev pub free_slot : (s : ℕ) → Volume → List ℕ → (ℕ × ℕ) ⊎ ℕ
free_slot s v cs = first_in (λ c. is_free (view v (cluster_pos s c))) 0 cs

visit_free-All :
    (s : ℕ) (v : Volume) (cs : List ℕ)
    → All (TidyAt s v) cs
    → All
        (DecidesAt visit_free s v
          (λ c. is_free (view v (cluster_pos s c)))
          (λ c n. cluster_pos s c + n * 64))
        cs
unfolding visit_free
visit_free-All s v [] t = tt
visit_free-All s v (c ∷ cs) (t, ts) = (
  record { short = t.short; hits = λ n st h e. rw e refl; misses = λ n st h e. (st, rw e refl) },
  visit_free-All s v cs ts,
)

-- On a formatted volume with two-byte indices, for a directory whose entries all have short names that
-- end and of which one is free, `alloc_new_dirent`, given more rounds than the directory has clusters,
-- succeeds, and changes the volume by the write of the entry to the first free one.
pub alloc_new_dirent-free_slot :
    (stack : Bytes) (fuel s : ℕ) (v : Volume) (c : ℕ) (cs : List ℕ) (d : Dirent) (c' n : ℕ)
    → Layout 2 s v
    → Chain s v c cs
    → All (TidyAt s v) cs
    → length cs < fuel
    → free_slot s v cs ≡ inl (c', n)
    → alloc_new_dirent stack fuel v c d ≡ ok (true, put_at s v c' n d)
unfolding alloc_new_dirent
alloc_new_dirent-free_slot stack fuel s v c cs d c' n l chain tidy h free =
    rw
      (
        layout_end l,
        walk_clusters-walk_list visit_free l fuel zeroed 0 c cs false tt chain h (λ i k. refl),
        walk_list-first_in visit_free s v (λ c1. is_free (view v (cluster_pos s c1)))
            (λ c1 m. cluster_pos s c1 + m * 64) cs 0 tt (visit_free-All s v cs tidy),
        free,
      )
      refl
