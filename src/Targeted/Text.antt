-- ===== src/Targeted/Text.antt =====
-- The text helpers of src/targeted_rd.cc: `trim_ascii_space`, `split_tab`, `split_comma`,
-- `shell_quote`, and the C functions `isspace` and `strtol` where they read numbers.
pub mod Quote
pub mod Digits
pub mod Fields
use rd_spe_tool.Base.{
  ℕ, zero, suc, ◌+◌, ◌-◌, ◌*◌, ◌%◌, ◌^◌, Bool, true, false, ◌&&◌, ◌||◌, if◌then◌else◌, ltb, leb,
  ◌==◌, List, [], ◌∷◌, ◌++◌, map, Option, none, some, Text, is_empty,
}
use rd_spe_tool.Base.Int.{ℤ, pos, negsuc}

-- `isspace` in the C locale.
unfoldable pub isspace : ℕ → Bool
isspace c = c == 32 || (leb 9 c && leb c 13)

unfoldable pub trim_left : Text → Text
unfolding isspace
trim_left [] = []
trim_left (c ∷ s) = if isspace c then trim_left s else c ∷ s

unfoldable pub trim_right : Text → Text
unfolding isspace is_empty
trim_right [] = []
trim_right (c ∷ s) = let rest = trim_right s in if is_empty rest && isspace c then [] else c ∷ rest

unfoldable pub trim_ascii_space : Text → Text
unfolding trim_left trim_right
trim_ascii_space s = trim_right (trim_left s)

prepend : ℕ → List Text → List Text
prepend c [] = (c ∷ []) ∷ []
prepend c (word ∷ words) = (c ∷ word) ∷ words

-- `getline` up to a delimiter, until the stream ends: nothing follows a final delimiter.
unfoldable pub split_on : ℕ → Text → List Text
unfolding prepend
split_on delim [] = []
split_on delim (c ∷ s) =
    let rest = split_on delim s in if c == delim then [] ∷ rest else prepend c rest

unfoldable pub split_tab : Text → List Text
split_tab line = split_on 9 line

unfoldable pub split_comma : Text → List Text
split_comma line = map trim_ascii_space (split_on b',' line)

-- `find` of a byte: what stands before it and after it.
unfoldable pub split_at : ℕ → Text → Option (Text × Text)
split_at c [] = none
split_at c (d ∷ s) =
    let rest = split_at c s in
    if d == c
    then some ([], s)
    else elim rest [ none ↦ none | some (before, after) ↦ some (d ∷ before, after) ]

-- The loop of `shell_quote`: each quote becomes `'\''`.
unfoldable pub quote_body : Text → Text
quote_body [] = []
quote_body (c ∷ s) =
    let rest = quote_body s in if c == b'\'' then b'\'' ∷ b'\\' ∷ b'\'' ∷ b'\'' ∷ rest else c ∷ rest

unfoldable pub shell_quote : Text → Text
unfolding quote_body
shell_quote s = b'\'' ∷ (quote_body s ++ b'\'' ∷ [])

-- The value of a digit in the bases up to 36; other bytes have 36.
unfoldable pub digit_value : ℕ → ℕ
digit_value c =
    if leb b'0' c && leb c b'9'
    then c - b'0'
    else if leb b'a' c && leb c b'z'
    then c - b'a' + 10
    else if leb b'A' c && leb c b'Z'
    then c - b'A' + 10
    else 36

-- The digits at the start of a text, and what follows them.
unfoldable pub read_digits : ℕ → ℕ → Text → ℕ × Text
unfolding digit_value
read_digits base acc [] = (acc, [])
read_digits base acc (c ∷ s) =
    let rest = read_digits base (acc * base + digit_value c) s in
    if ltb (digit_value c) base then rest else (acc, c ∷ s)

pub record Number : Type 0 where
  pub negative : Bool
  pub magnitude : ℕ
  pub rest : Text

-- An optional sign.
unfoldable pub read_sign : Text → Bool × Text
read_sign [] = (false, [])
read_sign (c ∷ s) =
    if c == b'-' then (true, s) else if c == b'+' then (false, s) else (false, c ∷ s)

-- A number begins here.
unfoldable pub starts_number : Text → Bool
unfolding digit_value
starts_number [] = false
starts_number (c ∷ s) = ltb (digit_value c) 10

-- Where a number ends: without a digit, nothing is read, not even the spaces and the sign.
unfoldable pub end_of : Text → Text → Text → Text
unfolding starts_number
end_of s digits rest = if starts_number digits then rest else s

-- What `strtol` and its kin read with base 10.
unfoldable pub read_decimal : Text → Number
unfolding trim_left read_sign read_digits end_of
read_decimal s =
    let (negative, digits) = read_sign (trim_left s) in
    let (value, rest) = read_digits 10 0 digits in
    record { negative = negative; magnitude = value; rest = end_of s digits rest }

-- With base 0: `0x` before a hexadecimal digit, else a leading 0 for octal, else decimal.
unfoldable pub read_any_base : Text → ℕ × Text
unfolding read_digits digit_value
read_any_base [] = (0, [])
read_any_base (c ∷ []) = read_digits 10 0 (c ∷ [])
read_any_base (c ∷ x ∷ []) = read_digits (if c == b'0' then 8 else 10) 0 (c ∷ x ∷ [])
read_any_base (c ∷ x ∷ h ∷ s) =
    if c == b'0' && (x == b'x' || x == b'X') && ltb (digit_value h) 16
    then read_digits 16 0 (h ∷ s)
    else read_digits (if c == b'0' then 8 else 10) 0 (c ∷ x ∷ h ∷ s)

unfoldable pub read_number : Text → Number
unfolding trim_left read_sign read_any_base end_of
read_number s =
    let (negative, digits) = read_sign (trim_left s) in
    let (value, rest) = read_any_base digits in
    record { negative = negative; magnitude = value; rest = end_of s digits rest }
