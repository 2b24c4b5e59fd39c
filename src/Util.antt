-- ===== src/Util.antt =====
-- util.c: the tokens of a path, sizes with a suffix, and the path of a dentry.
pub mod Size
pub mod Tokens
use model_lib.Prelude.{
  ℕ, zero, suc, ◌+◌, ◌-◌, ◌*◌, ◌%◌, ◌^◌, ◌==◌, ltb, leb, if◌then◌else◌, Bool, true, false, ◌&&◌,
  ◌||◌, List, [], ◌∷◌, Option, none, some, Outcome, ok, halt, ◌>>=◌,
}

-- Whether a character is one of `delim`: the loops over `spanp`.
abbrev pub is_delim : List ℕ → ℕ → Bool
is_delim [] c = false
is_delim (sc ∷ delim) c = (c == sc) || is_delim delim c

-- `cont:` skip leading delimiters.
unfoldable pub skip_delims : List ℕ → List ℕ → List ℕ
skip_delims delim [] = []
skip_delims delim (c ∷ s) = if is_delim delim c then skip_delims delim s else c ∷ s

-- The scan behind `tok`: the token, and `*last`, which is NULL where the string ended.
unfoldable pub scan_token : List ℕ → List ℕ → List ℕ × Option (List ℕ)
scan_token delim [] = ([], none)
scan_token delim (c ∷ s) =
    let (tok, last) = scan_token delim s in
    if is_delim delim c then ([], some s) else (c ∷ tok, last)

-- A token and the value left in `*last`.
abbrev token_of : List ℕ → List ℕ → Option (List ℕ) × Option (List ℕ)
unfolding scan_token
token_of delim [] = (none, none)
token_of delim (c ∷ s) = let (tok, last) = scan_token delim (c ∷ s) in (some tok, last)

-- `strtok_r(s, delim, &last)`. The string is the one to read: `s`, or what `last` holds where `s` is
-- NULL, and `none` where both are NULL.
unfoldable pub strtok_r : List ℕ → Option (List ℕ) → Option (List ℕ) × Option (List ℕ)
unfolding skip_delims token_of
strtok_r delim none = (none, none)
strtok_r delim (some s) = token_of delim (skip_delims delim s)

-- `x << i & (1ULL << 63)` for the `u64_t` x
abbrev top_bit : ℕ → ℕ → Bool
top_bit x i = leb (2 ^ 63) (x * 2 ^ i % 2 ^ 64)

-- The loop of `fls64`, with `n` rounds left: `i` is `64 - n`.
unfoldable pub fls64_from : ℕ → ℕ → ℕ
fls64_from zero x = 0
fls64_from (suc n) x = if top_bit x (64 - suc n) then suc n else fls64_from n x

unfoldable pub fls64 : ℕ → ℕ
unfolding fls64_from
fls64 x = fls64_from 64 x

-- `isspace`, `isdigit` and `tolower` of the C locale.
abbrev is_space : ℕ → Bool
is_space c = (c == b' ') || (leb 9 c && leb c 13)

abbrev is_digit : ℕ → Bool
is_digit c = leb b'0' c && leb c b'9'

abbrev pub to_lower : ℕ → ℕ
to_lower c = if leb b'A' c && leb c b'Z' then c + 32 else c

-- What `strtoull(s, &endptr, 10)` gives: the value, whether it set `errno` to ERANGE, and the text at
-- `endptr`, or `none` where `endptr == s`.
pub record Parsed : Type 0 where
  pub value : ℕ
  pub erange : Bool
  pub rest : List ℕ

unfoldable pub skip_space : List ℕ → List ℕ
skip_space [] = []
skip_space (c ∷ s) = if is_space c then skip_space s else c ∷ s

-- The digits of a number: its value, without bound, and the text behind it.
unfoldable pub digits_from : ℕ → List ℕ → ℕ × List ℕ
digits_from acc [] = (acc, [])
digits_from acc (c ∷ s) =
    let more = digits_from (acc * 10 + (c - b'0')) s in if is_digit c then more else (acc, c ∷ s)

unfoldable pub starts_number : List ℕ → Bool
starts_number [] = false
starts_number (c ∷ s) = is_digit c

abbrev pub ullong_max : ℕ
ullong_max = 2 ^ 64 - 1

-- The sign: `true` for a minus.
unfoldable pub take_sign : List ℕ → Bool × List ℕ
take_sign [] = (false, [])
take_sign (c ∷ s) =
    if c == b'-' then (true, s) else if c == b'+' then (false, s) else (false, c ∷ s)

unfoldable pub strtoull : List ℕ → Option Parsed
strtoull s =
    let (minus, t) = take_sign (skip_space s) in
    let (n, rest) = digits_from 0 t in
    if starts_number t
    then some (
        if ltb ullong_max n
        then record { value = ullong_max; erange = true; rest = rest }
        else record {
          value = if minus then (2 ^ 64 - n) % 2 ^ 64 else n;
          erange = false;
          rest = rest;
        })
    else none

-- The `switch` with its falling through: the multiplier of a suffix.
unfoldable pub mult_of : ℕ → Outcome ℕ
mult_of c =
    if c == b'e'
    then ok (1024 ^ 6)
    else if c == b'p'
    then ok (1024 ^ 5)
    else if c == b't'
    then ok (1024 ^ 4)
    else if c == b'g'
    then ok (1024 ^ 3)
    else if c == b'm'
    then ok (1024 ^ 2)
    else if c == b'k'
    then ok 1024
    else if c == b'b'
    then ok 1
    else halt

-- `endptr[0]` and `endptr[1]`
unfoldable pub suffix_mult : List ℕ → Outcome ℕ
suffix_mult [] = ok 1
suffix_mult (c ∷ []) = mult_of (to_lower c)
suffix_mult (c ∷ d ∷ rest) = halt

-- The last test and the product.
unfoldable pub scale : ℕ → ℕ → Outcome ℕ
scale ret mult = if ltb 64 (fls64 ret + fls64 mult - 1) then halt else ok (ret * mult % 2 ^ 64)

-- `s[0] == '-'`
unfoldable pub is_negative : List ℕ → Bool
is_negative [] = false
is_negative (c ∷ s) = c == b'-'

-- The text is not NULL. `errno` is 0 before the call.
unfoldable pub parse_size : List ℕ → Outcome ℕ
parse_size s = if is_negative s then halt else elim (strtoull s) [
  | none ↦ halt
  | some p ↦ do mult ← suffix_mult p.rest; if p.erange then halt else scale p.value mult
]
