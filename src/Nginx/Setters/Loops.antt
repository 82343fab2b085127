-- ===== src/Nginx/Setters/Loops.antt =====
-- What the two loops over the digits of an argument find, and that they find the same.
use go_mesi.Base.{
  ℕ, ◌+◌, ◌-◌, ◌*◌, ◌/◌, ◌≤◌, ◌<◌, true, false, [], ◌∷◌, ◌++◌, Bytes, ltb, leb, is_digit, Each, ◌≡◌,
  inl, inr, refl, ap, arith, Bool-cases,
}
use go_mesi.Apache.Number.{step, int64_max}
use go_mesi.Apache.Number.Numeral.{value, digit-le}
use go_mesi.Nginx.Config.{duplicate, no_argument, not_digits, out_of_range}
use go_mesi.Nginx.Setters.{Scanned, ok, err, scan_after, scan_before}

-- Some byte behind digits that stay in range is not a digit.
abbrev pub BadByte : ℕ → ℕ → Bytes → Type 0
BadByte max n s =
    (p : Bytes) × (c : ℕ) × (t : Bytes) × (s ≡ p ++ c ∷ t)
    × Each is_digit p
    × (is_digit c ≡ false)
    × (value n p ≤ max)

-- The text starts with digits that spell a number above the maximum.
abbrev pub TooLarge : ℕ → ℕ → Bytes → Type 0
TooLarge max n s = (p : Bytes) × (t : Bytes) × (s ≡ p ++ t) × Each is_digit p × (max < value n p)

-- What a loop over the text finds, from the number `n` on.
abbrev pub Reads : ℕ → ℕ → Bytes → Scanned → Type 0
Reads max n s (ok v) = Each is_digit s × (v ≡ value n s) × (v ≤ max)
Reads max n s (err not_digits) = BadByte max n s
Reads max n s (err out_of_range) = TooLarge max n s
Reads max n s (err _) = ⊥

module _ (max : ℕ) (fits : max ≤ int64_max) where
  Reads-digit :
      (n c : ℕ) (s : Bytes) (r : Scanned)
      → is_digit c ≡ true
      → Reads max (n * 10 + (c - b'0')) s r
      → Reads max n (c ∷ s) r
  Reads-digit n c s (ok v) h (d, e, le) = ((h, d), e, le)
  Reads-digit n c s (err not_digits) h (p, x, t, e, d, bad, le) =
      (c ∷ p, x, t, ap (◌∷◌ c) e, (h, d), bad, le)
  Reads-digit n c s (err out_of_range) h (p, t, e, d, lt) = (c ∷ p, t, ap (◌∷◌ c) e, (h, d), lt)
  Reads-digit n c s (err duplicate) h r = absurd r
  Reads-digit n c s (err no_argument) h r = absurd r
  Reads-digit n c s (err _) h r = absurd r

  -- The loop with the guard in front of the multiplication.
  pub scan_before-Reads :
      (n : ℕ) (s : Bytes) → 9 ≤ max → n ≤ max → Reads max n s (scan_before max n s)
  unfolding scan_before step
  scan_before-Reads n [] nine le = (tt, refl, le)
  scan_before-Reads n (c ∷ s) nine le = elim (Bool-cases (is_digit c)) [
    | inr e ↦ rw e ([], c, s, refl, tt, e, le)
    | inl e ↦
        let small = digit-le c e in
        elim (Bool-cases (ltb ((max - (c - b'0')) / 10) n)) [
          | inl g ↦ rw (e, g) (c ∷ [], s, refl, (e, tt), ground arith)
          | inr g ↦
              let next : n * 10 + (c - b'0') ≤ max = ground arith in
              let room : leb (n * 10 + (c - b'0')) int64_max ≡ true = ground arith in
              rw (e, g)
                (rw room (
                  Reads-digit n c s (scan_before max (n * 10 + (c - b'0')) s) e
                    (scan_before-Reads (n * 10 + (c - b'0')) s nine next)))
        ]
  ]

  -- The loop with the range test behind the multiplication finds the same.
  pub scan_after-before :
      (n : ℕ) (s : Bytes)
      → 9 ≤ max
      → max * 10 + 9 ≤ int64_max
      → n ≤ max
      → scan_after max n s ≡ scan_before max n s
  unfolding scan_before scan_after step
  scan_after-before n [] nine far le = refl
  scan_after-before n (c ∷ s) nine far le = elim (Bool-cases (is_digit c)) [
    | inr e ↦ rw e refl
    | inl e ↦
        let small = digit-le c e in
        let room : leb (n * 10 + (c - b'0')) int64_max ≡ true = ground arith in
        elim (Bool-cases (ltb ((max - (c - b'0')) / 10) n)) [
          | inl g ↦
              let over : ltb max (n * 10 + (c - b'0')) ≡ true = ground arith in
              rw (e, g, room, over) refl
          | inr g ↦
              let under : ltb max (n * 10 + (c - b'0')) ≡ false = ground arith in
              rw (e, g, room, under)
                (scan_after-before (n * 10 + (c - b'0')) s nine far (ground arith))
        ]
  ]
