-- ===== src/Nginx/Setters/Exact.antt =====
-- What the setters of numbers accept, what they store, and why they refuse.
use go_mesi.Base.{
  ℕ, ◌+◌, ◌-◌, ◌*◌, ◌≤◌, true, false, [], ◌∷◌, ◌++◌, none, some, Bytes, is_set, null, is_digit,
  if◌then◌else◌, Each, ◌≡◌, ◌≢◌, ◌↔◌, inl, inr, refl, sym, ◌∙◌, ap, arith, Bool-cases,
}
use go_mesi.Apache.Number.Numeral.{value, value-grows}
use go_mesi.Nginx.Setters.Loops.{BadByte, TooLarge}
use mathlib.Core.Path.{subst}
use mathlib.Core.Bool.{true≢false}
use go_mesi.Nginx.Config.{
  LocConf, Outcome, Refusal, duplicate, no_argument, not_digits, out_of_range,
}
use go_mesi.Nginx.Setters.{Scanned, ok, err, store, refuse, Numeric, set_number}
use go_mesi.Nginx.Setters.Ranges.{
  field_of, with_field, lowest, highest, scanned, set_number-scanned, OutOfRange, Verdict,
  scanned-Verdict,
}

value-append : (n : ℕ) (p t : Bytes) → value n (p ++ t) ≡ value (value n p) t
value-append n [] t = refl
value-append n (c ∷ p) t = value-append (n * 10 + (c - b'0')) p t

digit-middle : (p t : Bytes) (c : ℕ) → Each is_digit (p ++ c ∷ t) → is_digit c ≡ true
digit-middle [] t c (h, _) = h
digit-middle (x ∷ p) t c (_, h) = digit-middle p t c h

-- What a number in range rules out.
not_TooLarge : (max : ℕ) (s : Bytes) → value 0 s ≤ max → TooLarge max 0 s → ⊥
not_TooLarge max s le (p, t, e, _, lt) =
    let whole : value 0 s ≡ value (value 0 p) t = ap (value 0) e ∙ value-append 0 p t in
    absurd (omega (arith, whole, value-grows (value 0 p) t))

not_BadByte : (max : ℕ) (s : Bytes) → Each is_digit s → BadByte max 0 s → ⊥
not_BadByte max s h (p, c, t, e, _, bad, _) =
    true≢false (sym (digit-middle p t c (subst (Each is_digit) e h)) ∙ bad)

scanned-ok :
    (d : Numeric) (s : Bytes) (r : Scanned)
    → Verdict d s r
    → Each is_digit s
    → lowest d ≤ value 0 s
    → value 0 s ≤ highest d
    → r ≡ ok (value 0 s)
scanned-ok d s (ok v) (_, e, _, _) digits lo hi = ap ok e
scanned-ok d s (err not_digits) h digits lo hi = absurd (not_BadByte _ s digits h)
scanned-ok d s (err out_of_range) (inl h) digits lo hi = absurd (not_TooLarge _ s hi h)
scanned-ok d s (err out_of_range) (inr (_, lt)) digits lo hi = absurd (omega arith)
scanned-ok d s (err duplicate) h digits lo hi = absurd h
scanned-ok d s (err no_argument) h digits lo hi = absurd h
scanned-ok d s (err _) h digits lo hi = absurd h

-- The directive is not set, its argument is a number in range, and only its field changes.
pub record Accepts (d : Numeric) (lcf : LocConf) (s : Bytes) (lcf' : LocConf) : Type 0 where
  pub first : is_set (field_of d lcf) ≡ false
  pub some_digit : s ≢ []
  pub digits : Each is_digit s
  pub lower : lowest d ≤ value 0 s
  pub upper : value 0 s ≤ highest d
  pub stored : lcf' ≡ with_field d lcf (value 0 s)

-- Why a directive is refused.
abbrev pub Reason : Numeric → LocConf → Bytes → Refusal → Type 0
Reason d lcf s duplicate = is_set (field_of d lcf) ≡ true
Reason d lcf s no_argument = s ≡ []
Reason d lcf s not_digits = BadByte (highest d) 0 s
Reason d lcf s out_of_range = OutOfRange d s
Reason d lcf s _ = ⊥

-- What a setter's outcome says.
abbrev Means : Numeric → LocConf → Bytes → Outcome → Type 0
Means d lcf s (lcf', none) = Accepts d lcf s lcf'
Means d lcf s (lcf', some why) = (lcf' ≡ lcf) × Reason d lcf s why

store-Means :
    (d : Numeric) (lcf : LocConf) (s : Bytes) (r : Scanned)
    → is_set (field_of d lcf) ≡ false
    → s ≢ []
    → Verdict d s r
    → Means d lcf s (store lcf r (with_field d lcf))
store-Means d lcf s (ok v) new ne (digits, e, lo, hi) = record {
  first = new;
  some_digit = ne;
  digits = digits;
  lower = lo;
  upper = hi;
  stored = ap (with_field d lcf) e;
}
store-Means d lcf s (err not_digits) new ne h = (refl, h)
store-Means d lcf s (err out_of_range) new ne h = (refl, h)
store-Means d lcf s (err duplicate) new ne h = absurd h
store-Means d lcf s (err no_argument) new ne h = absurd h
store-Means d lcf s (err _) new ne h = absurd h

set_number-Means : (d : Numeric) (lcf : LocConf) (s : Bytes) → Means d lcf s (set_number d lcf s)
set_number-Means d lcf [] =
    rw (set_number-scanned d lcf []) (elim (Bool-cases (is_set (field_of d lcf))) [
      | inl e ↦ rw e (refl, e)
      | inr e ↦ rw e (refl, refl)
    ])
set_number-Means d lcf (c ∷ s) =
    rw (set_number-scanned d lcf (c ∷ s)) (elim (Bool-cases (is_set (field_of d lcf))) [
      | inl e ↦ rw e (refl, e)
      | inr e ↦ rw e (
          store-Means d lcf (c ∷ s) (scanned d (c ∷ s)) e (λ (h : c ∷ s ≡ []). cc)
            (scanned-Verdict d (c ∷ s)))
    ])

-- A directive that takes a number is accepted exactly if it is not set yet and its argument is one
-- or more digits, however many, whose value lies in its range; then its field takes that value and
-- no other field changes.
pub set_number-Accepts :
    (d : Numeric) (lcf : LocConf) (s : Bytes) (lcf' : LocConf)
    → (set_number d lcf s ≡ (lcf', none)) ↔ Accepts d lcf s lcf'
set_number-Accepts d lcf s lcf' = (
  λ h. subst (Means d lcf s) h (set_number-Means d lcf s),
  λ a. set_number-scanned d lcf s ∙ stores s a,
)
  where
    stores :
        (s : Bytes)
        → Accepts d lcf s lcf'
        → (if is_set (field_of d lcf)
            then refuse lcf duplicate
            else if null s
            then refuse lcf no_argument
            else store lcf (scanned d s) (with_field d lcf))
          ≡ (lcf', none)
    stores [] a = absurd (a.some_digit refl)
    stores (c ∷ s) a =
        rw
          (
            a.first,
            scanned-ok d (c ∷ s) (scanned d (c ∷ s)) (scanned-Verdict d (c ∷ s)) a.digits a.lower
                a.upper,
          )
          (ap (λ (l : LocConf). (l, none)) (sym a.stored))

-- A directive that takes a number and is refused leaves the configuration as it was, and the message
-- is true: the directive was set before, or the argument is empty, or a byte behind digits in range
-- is not a digit, or digits at the start spell a number above the range, or the argument is a number
-- below it. No argument makes a sum pass the signed 64-bit range.
pub set_number-Reason :
    (d : Numeric) (lcf : LocConf) (s : Bytes) (lcf' : LocConf) (why : Refusal)
    → set_number d lcf s ≡ (lcf', some why)
    → (lcf' ≡ lcf) × Reason d lcf s why
set_number-Reason d lcf s lcf' why h = subst (Means d lcf s) h (set_number-Means d lcf s)
