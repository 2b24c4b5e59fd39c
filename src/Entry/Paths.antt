-- ===== src/Entry/Paths.antt =====
-- entry.c: `get_dir_path` and `get_file_name`, the two parts of a path at its last '/'.
pub mod Split
use model_lib.Prelude.{ℕ, ◌==◌, if◌then◌else◌, List, [], ◌∷◌, Option, none, some}

abbrev pub separator : ℕ
separator = b'/'

-- One character more in front of a string that was searched.
abbrev pub before : ℕ → List ℕ → Option (List ℕ × List ℕ) → Option (List ℕ × List ℕ)
before c s none = if c == separator then some ([], s) else none
before c s (some (dir, name)) = some (c ∷ dir, name)

-- `strrchr(path, '/')`: what stands before the last '/' and what stands behind it.
unfoldable pub split_last : List ℕ → Option (List ℕ × List ℕ)
split_last [] = none
split_last (c ∷ s) = before c s (split_last s)

-- `none` is FALSE. The buffer is zeroed by its callers, so that the copy ends in a NUL.
unfoldable pub get_dir_path : List ℕ → Option (List ℕ)
unfolding split_last
get_dir_path file_path = elim (split_last file_path) [ none ↦ none | some (dir, name) ↦ some dir ]

unfoldable pub get_file_name : List ℕ → Option (List ℕ)
unfolding split_last
get_file_name file_path = elim (split_last file_path) [ none ↦ none | some (dir, name) ↦ some name ]
