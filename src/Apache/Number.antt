-- ===== src/Apache/Number.antt =====
-- servers/apache/mod_mesi.c: parse_nonneg_int, parse_nonneg_off and parse_nonneg_int_bounded, the
-- decimal parsers of the directives. An error is the message that the source formats; its text is
-- left out.
pub mod Numeral
pub mod Exact
use go_mesi.Base.{
  ℕ, ◌+◌, ◌-◌, ◌*◌, ◌/◌, ◌^◌, Bool, not, ◌||◌, List, [], ◌∷◌, Option, none, some, Bytes, ltb, leb,
  if◌then◌else◌, or_else, null, length, drop_while, take_while, is_blank, is_digit,
}

pub data NumError : Type 0 where
  requires_argument : NumError
  not_an_integer : NumError
  no_digit : NumError
  exceeds_maximum : NumError
  out_of_range : NumError
  -- what C leaves undefined: the sum passes the signed 64-bit range
  undefined : NumError

pub data Parsed : Type 0 where
  ok : ℕ → Parsed
  err : NumError → Parsed

abbrev pub int64_max : ℕ
int64_max = 2 ^ 63 - 1

-- val * 10 + d in a signed 64-bit integer
unfoldable pub step : ℕ → ℕ → Option ℕ
step val c = let next = val * 10 + (c - b'0') in if leb next int64_max then some next else none

-- for (i = 0; i < n; i++) val = val * 10 + (digits[i] - '0');
unfoldable pub sum_digits : ℕ → Bytes → Option ℕ
sum_digits val [] = some val
sum_digits val (c ∷ s) = elim (step val c) [ none ↦ none | some v ↦ sum_digits v s ]

-- val < min || val > max
unfoldable pub in_range : ℕ → ℕ → Option ℕ → Parsed
in_range min max none = err undefined
in_range min max (some val) = if ltb val min || ltb max val then err out_of_range else ok val

unfoldable pub parse_nonneg_int : Option Bytes → ℕ → ℕ → Parsed
parse_nonneg_int arg min max =
    let p = drop_while is_blank (or_else arg []) in
    let digits = take_while is_digit p in
    let rest = drop_while is_digit p in
    if null p
    then err requires_argument
    else if not (null rest)
    then err not_an_integer
    else if null digits
    then err no_digit
    else if ltb 9 (length digits)
    then err exceeds_maximum
    else in_range min max (sum_digits 0 digits)

-- The loop of parse_nonneg_off: the guard stands before the multiplication.
pub scan_off : ℕ → ℕ → ℕ → Bytes → Parsed
unfolding step
scan_off min max val [] = in_range min max (some val)
scan_off min max val (c ∷ s) =
    if ltb ((max - (c - b'0')) / 10) val
    then err exceeds_maximum
    else elim (step val c) [ none ↦ err undefined | some v ↦ scan_off min max v s ]

pub parse_nonneg_off : Option Bytes → ℕ → ℕ → Parsed
parse_nonneg_off arg min max =
    let p = drop_while is_blank (or_else arg []) in
    let digits = take_while is_digit p in
    let rest = drop_while is_digit p in
    if null p
    then err requires_argument
    else if not (null rest)
    then err not_an_integer
    else if null digits
    then err no_digit
    else scan_off min max 0 digits

-- The text is the range [arg, end) of a string; NULL and an empty range are refused alike.
pub parse_nonneg_int_bounded : Option Bytes → ℕ → ℕ → Parsed
parse_nonneg_int_bounded none min max = err requires_argument
parse_nonneg_int_bounded (some arg) min max =
    let p = drop_while is_blank arg in
    let digits = take_while is_digit p in
    let rest = drop_while is_digit p in
    if null arg
    then err requires_argument
    else if null p
    then err requires_argument
    else if not (null rest)
    then err not_an_integer
    else if null digits
    then err no_digit
    else if ltb 9 (length digits)
    then err exceeds_maximum
    else in_range min max (sum_digits 0 digits)
