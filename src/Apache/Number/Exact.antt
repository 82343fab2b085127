-- ===== src/Apache/Number/Exact.antt =====
-- What the decimal parsers accept, and the number that they return.
use go_mesi.Base.{
  ℕ, zero, suc, ◌+◌, ◌-◌, ◌*◌, ◌/◌, ◌^◌, ◌≤◌, ◌<◌, [], ◌∷◌, Option, or_else, none, some, Bytes,
  length, drop_while, take_while, is_blank, is_digit, ◌≡◌, ◌≢◌, refl, sym, arith, Each, ◌∙◌, ◌↔◌,
  Each-take_while,
}
use go_mesi.Apache.Number.{
  ok, err, undefined, no_digit, int64_max, step, sum_digits, in_range, scan_off, parse_nonneg_int,
  parse_nonneg_off, parse_nonneg_int_bounded,
}
use go_mesi.Apache.Number.Numeral.{
  value, Numeral, digit-le, value-grows, digits_whole, Numeral-intro, drop_while-Numeral,
  take_while-Numeral, drop_while_digits-Numeral,
}

-- A value below this leaves room for `k` more digits below 10 ^ 9.
room : ℕ → ℕ
room zero = 10 ^ 9
room (suc k) = room k / 10

room-le : (k : ℕ) → room k ≤ 10 ^ 9
unfolding room
room-le zero = omega arith
room-le (suc k) = omega (arith, room-le k)

sum_digits-value :
    (s : Bytes) (n k : ℕ)
    → Each is_digit s
    → length s ≤ k
    → n < room k
    → sum_digits n s ≡ some (value n s)
unfolding sum_digits step
sum_digits-value [] n k h le b = refl
sum_digits-value (c ∷ s) n zero h le b = absurd (omega arith)
sum_digits-value (c ∷ s) n (suc k) (hc, hs) le b =
    let below : n * 10 + (c - b'0') < room k = unfold room in omega (arith, digit-le c hc) in
    ground (arith, room-le k, sum_digits-value s (n * 10 + (c - b'0')) k hs)

-- A numeral of at most nine digits with its value in a range.
pub record Accepted (s : Bytes) (min max v : ℕ) : Type 0 where
  pub numeral : Numeral s v
  pub short : length numeral.digits ≤ 9
  pub lower : min ≤ v
  pub upper : v ≤ max

module _ (s : Bytes) (min max v : ℕ) where
  int_parts :
      parse_nonneg_int (some s) min max ≡ ok v
      → (drop_while is_blank s ≢ [])
        × (drop_while is_digit (drop_while is_blank s) ≡ [])
        × (length (take_while is_digit (drop_while is_blank s)) ≤ 9)
        × (sum_digits 0 (take_while is_digit (drop_while is_blank s)) ≡ some v)
        × (min ≤ v)
        × (v ≤ max)
  unfolding parse_nonneg_int in_range
  int_parts h = ground arith

  int_sound : parse_nonneg_int (some s) min max ≡ ok v → Accepted s min max v
  unfolding Numeral-intro
  int_sound h =
      let (ne, whole, short, sum, lo, hi) = int_parts h in
      let digits = take_while is_digit (drop_while is_blank s) in
      let exact =
        sum_digits-value digits 0 9 (Each-take_while is_digit _) short
          (unfold room in omega arith) in
      record {
        numeral = Numeral-intro s v ne whole (cc (sum, exact));
        short = rw (digits_whole (drop_while is_blank s) whole) at short;
        lower = lo;
        upper = hi;
      }

  int_complete : Accepted s min max v → parse_nonneg_int (some s) min max ≡ ok v
  unfolding parse_nonneg_int in_range
  int_complete a =
      let n = a.numeral in
      let sum = sum_digits-value n.digits 0 9 n.all_digit a.short (unfold room in omega arith) in
      rw (drop_while-Numeral n, take_while-Numeral n, drop_while_digits-Numeral n)
        (ground (arith, sum, n.exact))

-- parse_nonneg_int accepts exactly blanks before one to nine digits whose value lies in
-- [min, max], and the result is that value.
pub parse_nonneg_int-Accepted :
    (s : Bytes) (min max v : ℕ) → (parse_nonneg_int (some s) min max ≡ ok v) ↔ Accepted s min max v
parse_nonneg_int-Accepted s min max v = (int_sound s min max v, int_complete s min max v)

-- A numeral of any length with its value in a range.
pub record AcceptedOff (s : Bytes) (min max v : ℕ) : Type 0 where
  pub numeral : Numeral s v
  pub lower : min ≤ v
  pub upper : v ≤ max

module _ (min max : ℕ) where
  scan_sound :
      (s : Bytes) (n v : ℕ)
      → Each is_digit s
      → scan_off min max n s ≡ ok v
      → (v ≡ value n s) × (min ≤ v) × (v ≤ max)
  unfolding scan_off in_range
  scan_sound [] n v d h = ground arith
  scan_sound (c ∷ s) n v (hc, hd) h = ground (arith, scan_sound s (n * 10 + (c - b'0')) v hd)

  scan_complete :
      (s : Bytes) (n : ℕ)
      → max ≤ int64_max
      → Each is_digit s
      → min ≤ value n s
      → value n s ≤ max
      → scan_off min max n s ≡ ok (value n s)
  unfolding scan_off in_range
  scan_complete [] n fits d lo hi = ground arith
  scan_complete (c ∷ s) n fits (hc, hd) lo hi =
      let m = n * 10 + (c - b'0') in
      ground (arith, digit-le c hc, value-grows m s, scan_complete s m fits hd lo hi)

  scan-defined :
      (s : Bytes) (n : ℕ) → max ≤ int64_max → Each is_digit s → scan_off min max n s ≢ err undefined
  unfolding scan_off in_range
  scan-defined [] n fits d h = ground arith
  scan-defined (c ∷ s) n fits (hc, hd) h =
      ground (arith, digit-le c hc, scan-defined s (n * 10 + (c - b'0')) fits hd)

module _ (s : Bytes) (min max v : ℕ) (fits : max ≤ int64_max) where
  off_parts :
      parse_nonneg_off (some s) min max ≡ ok v
      → (drop_while is_blank s ≢ [])
        × (drop_while is_digit (drop_while is_blank s) ≡ [])
        × (scan_off min max 0 (take_while is_digit (drop_while is_blank s)) ≡ ok v)
  unfolding parse_nonneg_off
  off_parts h = ground arith

  off_sound : parse_nonneg_off (some s) min max ≡ ok v → AcceptedOff s min max v
  off_sound h =
      let (ne, whole, scan) = off_parts h in
      let digits = take_while is_digit (drop_while is_blank s) in
      let (exact, lo, hi) = scan_sound min max digits 0 v (Each-take_while is_digit _) scan in
      record { numeral = Numeral-intro s v ne whole exact; lower = lo; upper = hi }

  off_complete : AcceptedOff s min max v → parse_nonneg_off (some s) min max ≡ ok v
  unfolding parse_nonneg_off
  off_complete a =
      let n = a.numeral in
      let scan = scan_complete min max n.digits 0 fits n.all_digit in
      rw (drop_while-Numeral n, take_while-Numeral n, drop_while_digits-Numeral n)
        (ground (arith, scan, n.exact))

-- For a maximum in the signed 64-bit range parse_nonneg_off accepts exactly blanks before one or
-- more digits, however many, whose value lies in [min, max], and the result is that value.
pub parse_nonneg_off-AcceptedOff :
    (s : Bytes) (min max v : ℕ)
    → max ≤ int64_max
    → (parse_nonneg_off (some s) min max ≡ ok v) ↔ AcceptedOff s min max v
parse_nonneg_off-AcceptedOff s min max v fits =
    (off_sound s min max v fits, off_complete s min max v fits)

-- A range test on a sum that stayed in range ends in a value or in the range error.
in_range-sum :
    (min max : ℕ) (o : Option ℕ) (v : ℕ)
    → o ≡ some v
    → (in_range min max o ≢ err undefined) × (in_range min max o ≢ err no_digit)
unfolding in_range
in_range-sum min max o v e = rw e (ground arith, ground arith)

scan-ne-no_digit : (min max n : ℕ) (s : Bytes) → scan_off min max n s ≢ err no_digit
unfolding scan_off in_range
scan-ne-no_digit min max n [] h = ground arith
scan-ne-no_digit min max n (c ∷ s) h =
    ground (arith, scan-ne-no_digit min max (n * 10 + (c - b'0')) s)

-- Without a digit, what is left after the blanks is refused by the test before.
digits-or-rest : (p : Bytes) → p ≢ [] → drop_while is_digit p ≡ [] → take_while is_digit p ≢ []
digits-or-rest p ne whole e = ne (sym (digits_whole p whole) ∙ e)

module _ (arg : Option Bytes) (min max : ℕ) where
  abbrev text : Bytes
  text = drop_while is_blank (or_else arg [])

  int_defined :
      (parse_nonneg_int arg min max ≢ err undefined) × (parse_nonneg_int arg min max ≢ err no_digit)
  unfolding parse_nonneg_int
  int_defined =
      let sum = λ (le : length (take_while is_digit text) ≤ 9). in_range-sum min max _ _ (
        sum_digits-value (take_while is_digit text) 0 9 (Each-take_while is_digit _) le
          (unfold room in omega arith)) in
      (
        λ h. ground (
          arith,
          digits-or-rest text,
          λ (le : length (take_while is_digit text) ≤ 9). (sum le).0,
        ),
        λ h. ground (
          arith,
          digits-or-rest text,
          λ (le : length (take_while is_digit text) ≤ 9). (sum le).1,
        ),
      )

  off_defined :
      max ≤ int64_max
      → (parse_nonneg_off arg min max ≢ err undefined)
        × (parse_nonneg_off arg min max ≢ err no_digit)
  unfolding parse_nonneg_off
  off_defined fits =
      let digits = take_while is_digit text in
      let defined = scan-defined min max digits 0 fits (Each-take_while is_digit _) in
      (
        λ h. ground (arith, digits-or-rest text, defined),
        λ h. ground (arith, digits-or-rest text, scan-ne-no_digit min max 0 digits),
      )

-- For a maximum in the signed 64-bit range no argument makes a parser leave that range, and
-- none reaches the message on a missing digit.
pub parsers_defined :
    (arg : Option Bytes) (min max : ℕ)
    → max ≤ int64_max
    → (parse_nonneg_int arg min max ≢ err undefined)
      × (parse_nonneg_int arg min max ≢ err no_digit)
      × (parse_nonneg_off arg min max ≢ err undefined)
      × (parse_nonneg_off arg min max ≢ err no_digit)
parsers_defined arg min max fits =
    let (a, b) = int_defined arg min max in
    let (c, d) = off_defined arg min max fits in (a, b, c, d)

-- The parser over a range and the parser over a string decide alike, on every argument.
pub parse_nonneg_int_bounded-eq :
    (arg : Option Bytes) (min max : ℕ)
    → parse_nonneg_int_bounded arg min max ≡ parse_nonneg_int arg min max
unfolding parse_nonneg_int_bounded parse_nonneg_int drop_while
parse_nonneg_int_bounded-eq none min max = refl
parse_nonneg_int_bounded-eq (some []) min max = refl
parse_nonneg_int_bounded-eq (some (c ∷ s)) min max = refl
