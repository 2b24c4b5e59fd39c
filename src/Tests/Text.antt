-- ===== src/Tests/Text.antt =====
-- The theorems on texts and on lengths at small inputs.
use model_lib.Prelude.{
  ℕ, ◌+◌, ◌%◌, ◌-◌, ◌≡◌, ◌≤◌, ◌⊎◌, ◌↔◌, ◌++◌, refl, false, arith, ok, halt, List, [], ◌∷◌, some,
  ltb, min, if◌then◌else◌, ◌*◌, ◌^◌,
}
use model_lib.Util.{
  strtoull, starts_number, take_sign, skip_space, digits_from, mult_of, parse_size, suffix_mult,
  is_negative,
}
use model_lib.Util.Size.{parse_size-product}
use model_lib.Util.Tokens.{tokens, components, tokens-components}
use model_lib.Entry.Paths.{separator, get_dir_path, get_file_name}
use model_lib.Entry.Paths.Split.{has_separator, parts_iff-join}
use model_lib.File.{clip_len, local_len_of, valid_len_of}
use model_lib.File.Lengths.{local_len-min, valid_len-fits_iff}

-- "/d/f"
abbrev path : List ℕ
path = b'/' ∷ b'd' ∷ b'/' ∷ b'f' ∷ []

-- "4k"
abbrev four_k : List ℕ
four_k = b'4' ∷ b'k' ∷ []

four_k_read : strtoull four_k ≡ some (record { value = 4; rest = b'k' ∷ []; erange = false })
unfolding strtoull starts_number take_sign skip_space digits_from
four_k_read = refl

k_mult : suffix_mult (b'k' ∷ []) ≡ ok 1024
unfolding suffix_mult mult_of
k_mult = refl

not_negative : is_negative four_k ≡ false
unfolding is_negative
not_negative = refl

parse_size-product_example :
    parse_size four_k ≡ (if ltb (4 * 1024) (2 ^ 64) then ok (4 * 1024) else halt)
parse_size-product_example =
    parse_size-product four_k (record { value = 4; rest = b'k' ∷ []; erange = false }) 1024
      not_negative four_k_read refl k_mult

tokens-components_example :
    tokens 6 (separator ∷ []) (some path) ≡ ok (components (separator ∷ []) path)
tokens-components_example = tokens-components 6 (separator ∷ []) path (omega arith)

parts_iff-join_example :
    ((get_dir_path path ≡ some (b'/' ∷ b'd' ∷ [])) × (get_file_name path ≡ some (b'f' ∷ [])))
    ↔ ((path ≡ (b'/' ∷ b'd' ∷ []) ++ separator ∷ b'f' ∷ []) × (has_separator (b'f' ∷ []) ≡ false))
parts_iff-join_example = parts_iff-join path (b'/' ∷ b'd' ∷ []) (b'f' ∷ [])

-- 100 bytes at offset 1000 of a file of 1050 bytes.
local_len-min_example :
    local_len_of (clip_len 1050 100 1000) (1000 % 512)
    ≡ min (min 100 (1050 - 1000)) (512 - 1000 % 512)
local_len-min_example = local_len-min 1050 100 1000 (omega arith) (omega arith) (omega arith)

valid_len-fits_iff_example :
    ((valid_len_of 100 480 ≤ 100) × (480 + valid_len_of 100 480 ≤ 512))
    ↔ ((480 + 100 ≤ 512) ⊎ ◌≡◌ {A = ℕ} 480 0)
valid_len-fits_iff_example = valid_len-fits_iff 100 480 (omega arith) (omega arith)
