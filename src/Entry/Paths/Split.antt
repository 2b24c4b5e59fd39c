-- ===== src/Entry/Paths/Split.antt =====
-- entry.c: the two parts of a path put together again.
use model_lib.Prelude.{
  ℕ, ◌≡◌, refl, Bool, false, ◌||◌, arith, List, [], ◌∷◌, ◌++◌, Option, none, some, ◌==◌, ◌↔◌,
}
use model_lib.Entry.Paths.{separator, before, split_last, get_dir_path, get_file_name}

unfoldable pub has_separator : List ℕ → Bool
has_separator [] = false
has_separator (c ∷ s) = (c == separator) || has_separator s

split_last-none : (s : List ℕ) → has_separator s ≡ false → split_last s ≡ none
unfolding split_last has_separator
split_last-none [] h = refl
split_last-none (c ∷ s) h = ground (arith, split_last-none s)

split_last_join :
    (dir name : List ℕ)
    → has_separator name ≡ false
    → split_last (dir ++ separator ∷ name) ≡ some (dir, name)
unfolding split_last
split_last_join [] name h = rw (split_last-none name h)
split_last_join (c ∷ dir) name h = rw (split_last_join dir name h)

-- A directory and a name with no '/' in it, joined by a '/', are taken apart into just these.
pub parts_of_join :
    (dir name : List ℕ)
    → has_separator name ≡ false
    → (get_dir_path (dir ++ separator ∷ name) ≡ some dir)
      × (get_file_name (dir ++ separator ∷ name) ≡ some name)
unfolding get_dir_path get_file_name
parts_of_join dir name h =
    (rw (get_dir_path, split_last_join dir name h), rw (get_file_name, split_last_join dir name h))

before-none :
    (c : ℕ) (s : List ℕ) (r : Option (List ℕ × List ℕ))
    → (r ≡ none → has_separator s ≡ false)
    → before c s r ≡ none
    → has_separator (c ∷ s) ≡ false
unfolding has_separator
before-none c s none rest e = let ih = rest refl in ground arith
before-none c s (some (dir, name)) rest e = cc

no_separator : (s : List ℕ) → split_last s ≡ none → has_separator s ≡ false
unfolding split_last has_separator
no_separator [] e = refl
no_separator (c ∷ s) e = before-none c s (split_last s) (no_separator s) e

before-some :
    (c : ℕ) (s dir name : List ℕ) (r : Option (List ℕ × List ℕ))
    → (r ≡ none → has_separator s ≡ false)
    → ((dir' name' : List ℕ)
        → r ≡ some (dir', name')
        → (s ≡ dir' ++ separator ∷ name') × (has_separator name' ≡ false))
    → before c s r ≡ some (dir, name)
    → (c ∷ s ≡ dir ++ separator ∷ name) × (has_separator name ≡ false)
before-some c s dir name none clean rest e = let ih = clean refl in ground arith
before-some c s dir name (some (dir', name')) clean rest e =
    let ih = rest dir' name' refl in ground arith

split_last_sound :
    (path dir name : List ℕ)
    → split_last path ≡ some (dir, name)
    → (path ≡ dir ++ separator ∷ name) × (has_separator name ≡ false)
unfolding split_last
split_last_sound [] dir name e = cc
split_last_sound (c ∷ s) dir name e =
    before-some c s dir name (split_last s) (no_separator s) (split_last_sound s) e

both_parts :
    (path dir name : List ℕ)
    → get_dir_path path ≡ some dir
    → get_file_name path ≡ some name
    → split_last path ≡ some (dir, name)
unfolding get_dir_path get_file_name
both_parts path dir name d n = go (split_last path) d n
  where
    go :
        (r : Option (List ℕ × List ℕ))
        → (let x : Option (List ℕ) = elim r [ none ↦ none | some (dir', name') ↦ some dir' ] in x)
          ≡ some dir
        → (let x : Option (List ℕ) = elim r [ none ↦ none | some (dir', name') ↦ some name' ] in x)
          ≡ some name
        → r ≡ some (dir, name)
    go none d n = cc
    go (some (dir', name')) d n = ground arith

-- `get_dir_path` and `get_file_name` take a path apart at its last '/', and only there: they return
-- `dir` and `name` exactly if the path is `dir`, a '/' and `name`, and `name` holds no '/'.
pub parts_iff-join :
    (path dir name : List ℕ)
    → ((get_dir_path path ≡ some dir) × (get_file_name path ≡ some name))
      ↔ ((path ≡ dir ++ separator ∷ name) × (has_separator name ≡ false))
parts_iff-join path dir name = (
  λ h. split_last_sound path dir name (both_parts path dir name h.0 h.1),
  λ h. rw h.0 (parts_of_join dir name h.1),
)
