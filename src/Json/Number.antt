-- ===== src/Json/Number.antt =====
-- Decimal numbers: what the format "%d" writes, and a reader of them.
use mathlib.Core.List.{foldl}
use go_mesi.Base.{
  ℕ, zero, suc, ◌+◌, ◌-◌, ◌*◌, ◌/◌, ◌%◌, ◌<◌, true, false, [], ◌∷◌, ◌++◌, Option, none, some, Bytes,
  ◌==◌, if◌then◌else◌, ◌≡◌, refl, ap, ◌∙◌, arith, is_digit, Each, Stops, take_while, drop_while,
  take_while-append, drop_while-append, drop_while-Stops, ℤ, pos, negsuc, Bool-cases, inl, inr,
  null,
}

-- The digits of a number in front of a text; the fuel is the number of rounds.
unfoldable pub digits : ℕ → ℕ → Bytes → Bytes
digits zero n out = out
digits (suc fuel) n out =
    let d = (b'0' + n % 10) ∷ out in
    let rest = digits fuel (n / 10) d in if n / 10 == 0 then d else rest

-- %d of a number that is not negative
unfoldable pub show_nat : ℕ → Bytes
unfolding digits
show_nat n = digits (suc n) n []

-- %d
unfoldable pub show_int : ℤ → Bytes
show_int (pos n) = show_nat n
show_int (negsuc n) = b'-' ∷ show_nat (suc n)

abbrev value : ℕ → Bytes → ℕ
value = foldl (λ n c. n * 10 + (c - b'0'))

digits-Each : (fuel n : ℕ) (out : Bytes) → Each is_digit out → Each is_digit (digits fuel n out)
unfolding digits
digits-Each zero n out h = h
digits-Each (suc fuel) n out h =
    let more : Each is_digit ((b'0' + n % 10) ∷ out) = (ground arith, h) in
    elim (Bool-cases (n / 10 == 0)) [
      | inl e ↦ rw e more
      | inr e ↦ rw e (digits-Each fuel (n / 10) _ more)
    ]

digits-ne-nil : (fuel n : ℕ) (out : Bytes) → null out ≡ false → null (digits fuel n out) ≡ false
unfolding digits
digits-ne-nil zero n out h = h
digits-ne-nil (suc fuel) n out h =
    ground (arith, digits-ne-nil fuel (n / 10) ((b'0' + n % 10) ∷ out) refl)

value-digits : (fuel n : ℕ) (out : Bytes) → n < fuel → value 0 (digits fuel n out) ≡ value n out
unfolding digits
value-digits zero n out h = absurd (omega arith)
value-digits (suc fuel) n out h = elim (Bool-cases (n / 10 == 0)) [
  | inl e ↦ rw e (ap (λ (m : ℕ). value m out) (unit_digit n e))
  | inr e ↦
      rw e
        (value-digits fuel (n / 10) _ (ground arith) ∙ ap (λ (m : ℕ). value m out) (last_digit n))
]
  where
    unit_digit : (n : ℕ) → (n / 10 == 0) ≡ true → 0 * 10 + (b'0' + n % 10 - b'0') ≡ n
    unit_digit n e = ground arith

    last_digit : (n : ℕ) → n / 10 * 10 + (b'0' + n % 10 - b'0') ≡ n
    last_digit n = omega arith

value-show_nat : (n : ℕ) → value 0 (show_nat n) ≡ n
unfolding show_nat
value-show_nat n = value-digits (suc n) n [] (omega arith)

pub show_nat-Each : (n : ℕ) → Each is_digit (show_nat n)
unfolding show_nat
show_nat-Each n = digits-Each (suc n) n [] tt

show_nat-ne-nil : (n : ℕ) → null (show_nat n) ≡ false
unfolding show_nat digits
show_nat-ne-nil n = ground (arith, digits-ne-nil n (n / 10) ((b'0' + n % 10) ∷ []) refl)

-- The number at the start of a text, and the text behind it.
read_nat : Bytes → Option (ℕ × Bytes)
read_nat s =
    let d = take_while is_digit s in
    if null d then none else some (value 0 d, drop_while is_digit s)

negate : ℕ → ℤ
negate zero = pos 0
negate (suc n) = negsuc n

unfoldable pub read_int : Bytes → Option (ℤ × Bytes)
unfolding read_nat negate
read_int [] = none
read_int (c ∷ s) =
    if c == b'-'
    then elim (read_nat s) [ none ↦ none | some (n, rest) ↦ some (negate n, rest) ]
    else elim (read_nat (c ∷ s)) [ none ↦ none | some (n, rest) ↦ some (pos n, rest) ]

read_nat-show :
    (n : ℕ) (rest : Bytes) → Stops is_digit rest → read_nat (show_nat n ++ rest) ≡ some (n, rest)
unfolding read_nat
read_nat-show n rest st =
    rw
      (
        take_while-append is_digit (show_nat n) rest (show_nat-Each n) st,
        drop_while-append is_digit (show_nat n) rest (show_nat-Each n),
        drop_while-Stops is_digit rest st,
        show_nat-ne-nil n,
      )
      (ap (λ (m : ℕ). some (m, rest)) (value-show_nat n))

-- A number does not begin with a minus sign, a quote, a bracket or a letter.
pub show_nat-head : (n : ℕ) → (c : ℕ) × (s : Bytes) × (show_nat n ≡ c ∷ s) × (is_digit c ≡ true)
show_nat-head n = head (show_nat n) (show_nat-Each n) (show_nat-ne-nil n)
  where
    head :
        (t : Bytes)
        → Each is_digit t
        → null t ≡ false
        → (c : ℕ) × (s : Bytes) × (t ≡ c ∷ s) × (is_digit c ≡ true)
    head [] h e = absurd (cc)
    head (c ∷ s) (hc, hs) e = (c, s, refl, hc)

-- A number reads back, in front of a text that does not go on with a digit.
pub read_int-show_int :
    (z : ℤ) (rest : Bytes) → Stops is_digit rest → read_int (show_int z ++ rest) ≡ some (z, rest)
unfolding read_int show_int
read_int-show_int (pos n) rest st =
    let (c, s, e, d) = show_nat-head n in
    let read : read_nat (c ∷ s ++ rest) ≡ some (n, rest) = rw e at (read_nat-show n rest st) in
    rw e (ground (arith, read))
read_int-show_int (negsuc n) rest st = rw (read_nat-show (suc n) rest st)
