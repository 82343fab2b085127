-- ===== src/Apache/Number/Numeral.antt =====
-- Decimal numerals: blanks before digits, and the number that the digits spell.
use mathlib.Core.List.{foldl}
use go_mesi.Base.{
  ℕ, ◌+◌, ◌-◌, ◌*◌, ◌≤◌, true, [], ◌∷◌, ◌++◌, Bytes, drop_while, take_while, is_blank, is_digit,
  ◌≡◌, ◌≢◌, refl, sym, ap, arith, Each, Stops, take_while-append-drop_while, ◌∙◌, Each-take_while,
  drop_while-append, drop_while-Stops, take_while-append, append-nil,
}

-- The number that digits spell behind `n`, with no bound.
abbrev pub value : ℕ → Bytes → ℕ
value = foldl (λ n c. n * 10 + (c - b'0'))

-- `s` is blanks and then one or more digits, which spell `v`.
pub record Numeral (s : Bytes) (v : ℕ) : Type 0 where
  pub blanks : Bytes
  pub digits : Bytes
  pub splits : s ≡ blanks ++ digits
  pub all_blank : Each is_blank blanks
  pub all_digit : Each is_digit digits
  pub digits_ne_nil : digits ≢ []
  pub exact : v ≡ value 0 digits

-- More digits never make the number smaller.
pub value-grows : (acc : ℕ) (more : Bytes) → acc ≤ value acc more
value-grows acc [] = omega arith
value-grows acc (d ∷ more) =
    let next = acc * 10 + (d - b'0') in omega (arith, value-grows next more)

pub digit-le : (c : ℕ) → is_digit c ≡ true → c - b'0' ≤ 9
digit-le c h = ground arith

pub digits_whole : (p : Bytes) → drop_while is_digit p ≡ [] → take_while is_digit p ≡ p
digits_whole p e = sym (append-nil _) ∙ rw e at (take_while-append-drop_while is_digit p)

-- What is left after the blanks is digits only.
unfoldable pub Numeral-intro :
    (s : Bytes) (v : ℕ)
    → drop_while is_blank s ≢ []
    → drop_while is_digit (drop_while is_blank s) ≡ []
    → v ≡ value 0 (take_while is_digit (drop_while is_blank s))
    → Numeral s v
Numeral-intro s v ne e exact = record {
  blanks = take_while is_blank s;
  digits = drop_while is_blank s;
  splits = sym (take_while-append-drop_while is_blank s);
  all_blank = Each-take_while is_blank s;
  all_digit =
      rw (digits_whole (drop_while is_blank s) e) at
        (Each-take_while is_digit (drop_while is_blank s));
  digits_ne_nil = ne;
  exact = rw (digits_whole (drop_while is_blank s) e) at exact;
}

digits-Stops : (d : Bytes) → Each is_digit d → Stops is_blank d
digits-Stops [] h = tt
digits-Stops (c ∷ d) (hc, hd) = ground arith

module _ {s : Bytes} {v : ℕ} (n : Numeral s v) where
  -- The loop over the blanks of an accepted text stops at its digits.
  pub drop_while-Numeral : drop_while is_blank s ≡ n.digits
  drop_while-Numeral = rw n.splits (
      drop_while-append is_blank n.blanks n.digits n.all_blank
      ∙ drop_while-Stops is_blank n.digits (digits-Stops n.digits n.all_digit))

  pub take_while-Numeral : take_while is_digit n.digits ≡ n.digits
  take_while-Numeral =
      ap (take_while is_digit) (sym (append-nil n.digits))
      ∙ take_while-append is_digit n.digits [] n.all_digit tt

  pub drop_while_digits-Numeral : drop_while is_digit n.digits ≡ []
  drop_while_digits-Numeral =
      ap (drop_while is_digit) (sym (append-nil n.digits))
      ∙ drop_while-append is_digit n.digits [] n.all_digit
      ∙ (unfold drop_while in refl)
