-- ===== src/Apache/Hosts/White.antt =====
-- White space as Go has it, unicode.IsSpace of the runes of UTF-8, and that the tables of the
-- module find the same.
use go_mesi.Base.{
  ℕ, ◌+◌, ◌-◌, ◌*◌, Bool, false, ◌&&◌, ◌||◌, [], ◌∷◌, Bytes, ltb, leb, ◌==◌, if◌then◌else◌, ◌≡◌,
  refl, arith, Bool-cases, inl, inr,
}
use go_mesi.Apache.Hosts.{unicode_space, is_space}

-- A byte 10xxxxxx.
abbrev continues : ℕ → Bool
continues b = leb 0x80 b && leb b 0xbf

-- The rune of two bytes 110xxxxx 10xxxxxx, and of three bytes 1110xxxx 10xxxxxx 10xxxxxx.
abbrev rune_2 : ℕ → ℕ → ℕ
rune_2 a b = (a - 0xc0) * 64 + (b - 0x80)

abbrev rune_3 : ℕ → ℕ → ℕ → ℕ
rune_3 a b c = (a - 0xe0) * 4096 + (b - 0x80) * 64 + (c - 0x80)

-- The white space of Unicode: U+0009 to U+000D, space, NEL, NBSP, and the categories Zs, Zl and Zp.
abbrev pub rune_space : ℕ → Bool
rune_space r =
    leb 0x09 r && leb r 0x0d
    || r == 0x20
    || r == 0x85
    || r == 0xa0
    || r == 0x1680
    || leb 0x2000 r && leb r 0x200a
    || r == 0x2028
    || r == 0x2029
    || r == 0x202f
    || r == 0x205f
    || r == 0x3000

-- The width of a rune, if it is white space and not written in more bytes than it needs.
abbrev one : ℕ → ℕ
one a = if ltb a 0x80 && rune_space a then 1 else 0

abbrev two : ℕ → ℕ → ℕ
two a b =
    if leb 0xc0 a && leb a 0xdf && continues b && leb 0x80 (rune_2 a b) && rune_space (rune_2 a b)
    then 2
    else one a

abbrev three : ℕ → ℕ → ℕ → ℕ
three a b c =
    if leb 0xe0 a
      && leb a 0xef
      && continues b
      && continues c
      && leb 0x800 (rune_3 a b c)
      && rune_space (rune_3 a b c)
    then 3
    else two a b

-- The width of the white space at the start of the bytes, or 0. A rune of four bytes is none.
abbrev pub white_width : Bytes → ℕ
white_width [] = 0
white_width (a ∷ []) = one a
white_width (a ∷ b ∷ []) = two a b
white_width (a ∷ b ∷ c ∷ s) = three a b c

-- The width that the tests of the module find.
abbrev pub space_width : Bytes → ℕ
space_width [] = 0
space_width (c ∷ s) = if is_space c then 1 else unicode_space (c ∷ s)

-- Three bytes by their first one.
lead_e1 : (b c : ℕ) → three 0xe1 b c ≡ (if b == 0x9a && c == 0x80 then 3 else 0)
lead_e1 b c = ground arith

lead_e2 :
    (b c : ℕ)
    → three 0xe2 b c ≡ (
        if b == 0x80 && (leb 0x80 c && leb c 0x8a || c == 0xa8 || c == 0xa9 || c == 0xaf)
        then 3
        else if b == 0x81 && c == 0x9f
        then 3
        else 0)
lead_e2 b c = ground arith

lead_e3 : (b c : ℕ) → three 0xe3 b c ≡ (if b == 0x80 && c == 0x80 then 3 else 0)
lead_e3 b c = ground arith

other_rune :
    (a b c : ℕ)
    → ((a == 0xe1) || (a == 0xe2) || (a == 0xe3)) ≡ false
    → (leb 0xe0 a
        && leb a 0xef
        && continues b
        && continues c
        && leb 0x800 (rune_3 a b c)
        && rune_space (rune_3 a b c))
      ≡ false
other_rune a b c h = ground arith

two_bytes : (a b : ℕ) → two a b ≡ space_width (a ∷ b ∷ [])
unfolding unicode_space
two_bytes a b = ground arith

-- Two bytes that no rune of three bytes begins with.
short_rune :
    (a b c : ℕ) (s : Bytes)
    → (a == 0xe1) ≡ false
    → (a == 0xe2) ≡ false
    → (a == 0xe3) ≡ false
    → two a b ≡ space_width (a ∷ b ∷ c ∷ s)
unfolding unicode_space
short_rune a b c s h1 h2 h3 = rw (h1, h2, h3) (two_bytes a b)

pub white_width-space_width : (s : Bytes) → white_width s ≡ space_width s
unfolding unicode_space
white_width-space_width [] = refl
white_width-space_width (a ∷ []) = ground arith
white_width-space_width (a ∷ b ∷ []) = two_bytes a b
white_width-space_width (a ∷ b ∷ c ∷ s) = elim (Bool-cases (a == 0xe1)) [
  | inl e ↦ (let v : a ≡ 0xe1 = ground arith in rw (v, lead_e1 b c) refl)
  | inr e1 ↦ elim (Bool-cases (a == 0xe2)) [
    | inl e ↦ (let v : a ≡ 0xe2 = ground arith in rw (v, lead_e2 b c) refl)
    | inr e2 ↦ elim (Bool-cases (a == 0xe3)) [
      | inl e ↦ (let v : a ≡ 0xe3 = ground arith in rw (v, lead_e3 b c) refl)
      | inr e3 ↦ rw (other_rune a b c (rw (e1, e2, e3) refl)) (short_rune a b c s e1 e2 e3)
    ]
  ]
]
