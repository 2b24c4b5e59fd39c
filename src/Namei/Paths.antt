-- ===== src/Namei/Paths.antt =====
-- util.c and entry.c: the path that is built of a VFS dentry, and the parts that it is taken into.
use mathlib.Core.List.{append_assoc, append-nil}
use model_lib.Prelude.{
  ℕ, ◌+◌, ◌≤◌, ◌<◌, ◌≡◌, refl, arith, ltb, le→ltb, false, List, [], ◌∷◌, ◌++◌, length,
  length-append, some, ok, ap, ◌∙◌,
}
use model_lib.Entry.Paths.{separator, get_dir_path, get_file_name}
use model_lib.Entry.Paths.Split.{has_separator, parts_of_join}
use model_lib.Namei.{VfsDentry, climb, get_file_path_from_dentry}

-- The path of a dentry: the names from the root down, a '/' before each.
unfoldable pub path_of : VfsDentry → List ℕ
path_of [] = []
path_of (name ∷ parents) = path_of parents ++ separator ∷ name

climb-path_of :
    (len : ℕ) (dentry : VfsDentry) (buf : List ℕ)
    → length (path_of dentry ++ buf) < len
    → len ≤ 1024
    → climb len dentry buf ≡ ok (path_of dentry ++ buf)
unfolding climb path_of
climb-path_of len [] buf h k = refl
climb-path_of len (name ∷ parents) buf h k =
    let again : (path_of parents ++ separator ∷ name) ++ buf
        ≡ path_of parents ++ (separator ∷ name ++ buf) =
      append_assoc (path_of parents) (separator ∷ name) buf in
    let short : length (path_of parents ++ (separator ∷ name ++ buf)) < len = rw again at h in
    let total = length-append (path_of parents) (separator ∷ name ++ buf) in
    let fits : ltb 1024 (length (separator ∷ name ++ buf) + 1) ≡ false = le→ltb _ _ (omega arith) in
    let fits' : ltb len (length (separator ∷ name ++ buf) + 1) ≡ false = le→ltb _ _ (omega arith) in
    rw (fits, fits', again) (climb-path_of len parents (separator ∷ name ++ buf) short k)

-- For a dentry below the root whose name holds no '/' and whose path is shorter than the buffer of 512
-- bytes, the path that `get_file_path_from_dentry` builds is taken apart by `get_dir_path` into the
-- path of the parent and by `get_file_name` into the name.
pub get_file_path_from_dentry-parts :
    (name : List ℕ) (parents : VfsDentry)
    → has_separator name ≡ false
    → length (path_of (name ∷ parents)) < 512
    → (p : List ℕ) × (get_file_path_from_dentry (name ∷ parents) 512 ≡ ok p)
      × (get_dir_path p ≡ some (path_of parents))
      × (get_file_name p ≡ some name)
unfolding get_file_path_from_dentry path_of
get_file_path_from_dentry-parts name parents h short =
    let whole : path_of (name ∷ parents) ++ [] ≡ path_of (name ∷ parents) =
      append-nil (path_of (name ∷ parents)) in
    let short' : length (path_of (name ∷ parents) ++ []) < 512 = rw whole short in
    (
      path_of (name ∷ parents),
      climb-path_of 512 (name ∷ parents) [] short' (omega arith) ∙ ap ok whole,
      (parts_of_join (path_of parents) name h).0,
      (parts_of_join (path_of parents) name h).1,
    )
