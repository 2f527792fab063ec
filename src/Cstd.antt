-- ===== src/Cstd.antt =====
-- What the programs use of the C library on strings: `strtok`, `strchr`, `basename`, and `sscanf`
-- with one conversion. A string is its bytes before the terminating NUL, so a byte read at or
-- behind the end is 0.
pub mod Bounds
use advanced_unix_progr.Base.{
  ℕ, ◌+◌, ◌-◌, ◌*◌, ◌%◌, ◌^◌, ℤ, pos, negsuc, ltb, Bool, false, ◌&&◌, ◌||◌, Option, none, some,
  List, [], ◌∷◌, ◌++◌, Text, leb, ◌==◌, if◌then◌else◌, drop, get_or,
}

abbrev pub byte_at : Text → ℕ → ℕ
byte_at s i = get_or s i 0

-- `strchr(delims, c) != NULL`
unfoldable pub is_in : ℕ → Text → Bool
is_in c [] = false
is_in c (d ∷ ds) = (c == d) || is_in c ds

-- A token that has been read so far, put before the tokens behind it.
abbrev pub emit : Text → List Text → List Text
emit [] rest = rest
emit (c ∷ cur) rest = (c ∷ cur) ∷ rest

-- The tokens that the calls of `strtok` return one after the other.
unfoldable pub split_from : Text → Text → Text → List Text
unfolding is_in
split_from delims cur [] = emit cur []
split_from delims cur (c ∷ s) =
    let same_token = split_from delims (cur ++ (c ∷ [])) s in
    let next_token = split_from delims [] s in
    if is_in c delims then emit cur next_token else same_token

unfoldable pub strtok : Text → Text → List Text
unfolding split_from
strtok delims s = split_from delims [] s

-- The part before the first byte `c`, which is what is left of the string once that byte is
-- overwritten by NUL; `none` where `strchr` returns `NULL`.
unfoldable pub before_char : ℕ → Text → Option Text
before_char c [] = none
before_char c (d ∷ s) =
    let rest = before_char c s in
    if d == c then some [] else elim rest [ none ↦ none | some t ↦ some (d ∷ t) ]

-- The part behind the first byte `c`.
unfoldable pub after_char : ℕ → Text → Text
after_char c [] = []
after_char c (d ∷ s) = let rest = after_char c s in if d == c then s else rest

-- The part behind the last byte `/`.
unfoldable pub after_slash : Text → Text → Text
after_slash acc [] = acc
after_slash acc (c ∷ s) = after_slash (if c == b'/' then [] else acc ++ (c ∷ [])) s

unfoldable pub drop_slashes : Text → Text
drop_slashes [] = []
drop_slashes (c ∷ s) =
    let rest = drop_slashes s in
    elim rest [ [] ↦ (if c == b'/' then [] else c ∷ []) | d ∷ t ↦ c ∷ (d ∷ t) ]

-- `basename` of <libgen.h>: trailing slashes do not count.
unfoldable pub basename : Text → Text
unfolding after_slash drop_slashes
basename [] = b'.' ∷ []
basename (c ∷ s) = elim (drop_slashes (c ∷ s)) [ [] ↦ b'/' ∷ [] | d ∷ t ↦ after_slash [] (d ∷ t) ]

abbrev pub hex_digit : ℕ → Option ℕ
hex_digit c =
    if leb b'0' c && leb c b'9'
    then some (c - b'0')
    else if leb b'a' c && leb c b'f'
    then some (c - b'a' + 10)
    else if leb b'A' c && leb c b'F'
    then some (c - b'A' + 10)
    else none

abbrev pub dec_digit : ℕ → Option ℕ
dec_digit c = if leb b'0' c && leb c b'9' then some (c - b'0') else none

-- Digits up to the first byte that is none, as a number; `none` if there is no digit.
unfoldable pub digits_from : (ℕ → Option ℕ) → ℕ → Option ℕ → Text → Option ℕ
digits_from digit radix acc [] = acc
digits_from digit radix acc (c ∷ s) = elim (digit c) [
  | none ↦ acc
  | some d ↦ digits_from digit radix (some (elim acc [ none ↦ d | some n ↦ n * radix + d ])) s
]

unfoldable pub is_space : ℕ → Bool
is_space c = (c == 32) || (leb 9 c && leb c 13)

unfoldable pub skip_spaces : Text → Text
unfolding is_space
skip_spaces [] = []
skip_spaces (c ∷ s) = let rest = skip_spaces s in if is_space c then rest else c ∷ s

abbrev pub u64_max : ℕ
u64_max = 2 ^ 64 - 1

-- `strtoull` stops at the largest value.
abbrev pub saturate : ℕ → ℕ
saturate n = if leb n u64_max then n else u64_max

abbrev pub skip_0x : Text → Text
skip_0x s =
    if (byte_at s 0 == b'0') && ((byte_at s 1 == b'x') || (byte_at s 1 == b'X'))
    then drop 2 s
    else s

abbrev pub hex_value : Text → Option ℕ
hex_value s = elim (digits_from hex_digit 16 none (skip_0x s)) [
  | none ↦ none
  | some n ↦ some (saturate n)
]

-- `-x` in `unsigned long long`
abbrev pub negate : Option ℕ → Option ℕ
negate none = none
negate (some n) = some ((2 ^ 64 - n) % 2 ^ 64)

abbrev pub signed_hex : Text → Option ℕ
signed_hex s =
    if byte_at s 0 == b'-'
    then negate (hex_value (drop 1 s))
    else if byte_at s 0 == b'+'
    then hex_value (drop 1 s)
    else hex_value s

-- `sscanf(s, "%llx", &n)`: what it writes to `n`; `none` where it writes nothing.
unfoldable pub scan_hex : Text → Option ℕ
unfolding digits_from skip_spaces
scan_hex s = signed_hex (skip_spaces s)

abbrev pub dec_value : Text → Option ℕ
dec_value s = digits_from dec_digit 10 none s

abbrev pub saturated : Option ℕ → Option ℕ
saturated none = none
saturated (some n) = some (saturate n)

-- `sscanf(s, "%llu", &n)`
unfoldable pub scan_dec : Text → Option ℕ
unfolding digits_from skip_spaces
scan_dec s =
    let t = skip_spaces s in
    if byte_at t 0 == b'-'
    then negate (saturated (dec_value (drop 1 t)))
    else if byte_at t 0 == b'+'
    then saturated (dec_value (drop 1 t))
    else saturated (dec_value t)

-- A 32-bit pattern as an `int`
abbrev pub int_of_u32 : ℕ → ℤ
int_of_u32 n = if ltb n (2 ^ 31) then pos n else negsuc (2 ^ 32 - 1 - n)

-- `strtol` stops at the least and the greatest `long`; an `int` keeps 32 bits of it.
abbrev pub positive_int : Option ℕ → Option ℤ
positive_int none = none
positive_int (some n) = some (int_of_u32 ((if ltb n (2 ^ 63) then n else 2 ^ 63 - 1) % 2 ^ 32))

abbrev pub negative_int : Option ℕ → Option ℤ
negative_int none = none
negative_int (some n) =
    some (int_of_u32 ((2 ^ 64 - (if ltb n (2 ^ 63) then n else 2 ^ 63)) % 2 ^ 32))

-- `sscanf(s, "%d", &n)`
unfoldable pub scan_int : Text → Option ℤ
unfolding digits_from skip_spaces
scan_int s =
    let t = skip_spaces s in
    if byte_at t 0 == b'-'
    then negative_int (dec_value (drop 1 t))
    else if byte_at t 0 == b'+'
    then positive_int (dec_value (drop 1 t))
    else positive_int (dec_value t)

-- The words of a line, as `%s` reads them.
unfoldable pub words : Text → List Text
unfolding strtok
words s = strtok (9 ∷ 10 ∷ 11 ∷ 12 ∷ 13 ∷ 32 ∷ []) s
