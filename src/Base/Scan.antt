-- ===== src/Base/Scan.antt =====
-- Loops that walk a string while a test holds, and the character classes of the source.
use Prim.Native.Nat.{ℕ, ◌+◌, ◌≤◌}
use mathlib.Core.Path.{◌≡◌, refl, ap}
use mathlib.Core.Logic.{inl, inr}
use mathlib.Core.Bool.{true≢false, not, Bool, false, ◌&&◌, ◌||◌}
use mathlib.Core.List.{List, [], ◌∷◌, ◌++◌}
use native.Mathlib.Omega.{arith}
use go_mesi.Base.Tests.{◌==◌, leb, ltb, if◌then◌else◌, Bool-cases}
use go_mesi.Base.Lists.{Bytes, All, NoneOf, Each, length}

-- while (*p is in the class) p++;
unfoldable pub drop_while : (ℕ → Bool) → Bytes → Bytes
drop_while p [] = []
drop_while p (c ∷ s) = if p c then drop_while p s else c ∷ s

-- the bytes that such a loop passes over
unfoldable pub take_while : (ℕ → Bool) → Bytes → Bytes
take_while p [] = []
take_while p (c ∷ s) = if p c then c ∷ take_while p s else []

-- The first byte is outside the class, or there is none.
abbrev pub Stops : (ℕ → Bool) → Bytes → Type 0
Stops p [] = Unit
Stops p (c ∷ s) = p c ≡ false

module _ (p : ℕ → Bool) where
  pub take_while-append-drop_while : (s : Bytes) → take_while p s ++ drop_while p s ≡ s
  unfolding take_while drop_while
  take_while-append-drop_while [] = refl
  take_while-append-drop_while (c ∷ s) = ground (arith, take_while-append-drop_while s)

  pub Each-take_while : (s : Bytes) → Each p (take_while p s)
  unfolding take_while
  Each-take_while [] = tt
  Each-take_while (c ∷ s) = elim (Bool-cases (p c)) [
    | inl h ↦ rw h (h, Each-take_while s)
    | inr h ↦ rw h tt
  ]

  pub Stops-drop_while : (s : Bytes) → Stops p (drop_while p s)
  unfolding drop_while
  Stops-drop_while [] = tt
  Stops-drop_while (c ∷ s) = elim (Bool-cases (p c)) [
    | inl h ↦ rw h (Stops-drop_while s)
    | inr h ↦ rw h h
  ]

  pub drop_while-append :
      (xs rest : Bytes) → Each p xs → drop_while p (xs ++ rest) ≡ drop_while p rest
  unfolding drop_while
  drop_while-append [] rest h = refl
  drop_while-append (x ∷ xs) rest (hx, hs) = rw hx (drop_while-append xs rest hs)

  pub drop_while-Stops : (s : Bytes) → Stops p s → drop_while p s ≡ s
  unfolding drop_while
  drop_while-Stops [] h = refl
  drop_while-Stops (c ∷ s) h = rw h

  pub take_while-append :
      (xs rest : Bytes) → Each p xs → Stops p rest → take_while p (xs ++ rest) ≡ xs
  unfolding take_while
  take_while-append [] [] h st = refl
  take_while-append [] (c ∷ rest) h st = rw st
  take_while-append (x ∷ xs) rest (hx, hs) st = rw hx (ap (◌∷◌ x) (take_while-append xs rest hs st))

  pub length-drop_while : (s : Bytes) → length (drop_while p s) ≤ length s
  unfolding drop_while
  length-drop_while [] = omega arith
  length-drop_while (c ∷ s) = ground (arith, length-drop_while s)

-- What holds of every byte of a text holds in the two parts that such a loop leaves.
module _ (P : ℕ → Type 0) (p : ℕ → Bool) where
  pub All-take_while : (s : Bytes) → All P s → All P (take_while p s)
  unfolding take_while
  All-take_while [] h = tt
  All-take_while (c ∷ s) (hc, hs) = elim (Bool-cases (p c)) [
    | inl e ↦ rw e (hc, All-take_while s hs)
    | inr e ↦ rw e tt
  ]

  pub All-drop_while : (s : Bytes) → All P s → All P (drop_while p s)
  unfolding drop_while
  All-drop_while [] h = tt
  All-drop_while (c ∷ s) (hc, hs) = elim (Bool-cases (p c)) [
    | inl e ↦ rw e (All-drop_while s hs)
    | inr e ↦ rw e (hc, hs)
  ]

-- A byte of the class stands in the text: strchr, strpbrk and loops that return at the first.
unfoldable pub any_byte : (ℕ → Bool) → Bytes → Bool
any_byte p [] = false
any_byte p (c ∷ s) = p c || any_byte p s

pub NoneOf-any_byte : (p : ℕ → Bool) (s : Bytes) → any_byte p s ≡ false → NoneOf p s
unfolding any_byte
NoneOf-any_byte p [] h = tt
NoneOf-any_byte p (c ∷ s) h = elim (Bool-cases (p c)) [
  | inl e ↦ absurd (true≢false (rw e at h))
  | inr e ↦ (e, NoneOf-any_byte p s (rw e at h))
]

-- ' ' and '\t'
abbrev pub is_blank : ℕ → Bool
is_blank c = c == b' ' || c == b'\t'

abbrev pub is_digit : ℕ → Bool
is_digit c = leb b'0' c && leb c b'9'

-- a control character, below 0x20
abbrev pub is_control : ℕ → Bool
is_control c = ltb c 0x20

-- tolower of the C locale
abbrev pub to_lower : ℕ → ℕ
to_lower c = if leb b'A' c && leb c b'Z' then c + 32 else c

-- The parts of a text between the separators; there is always one more than there are separators.
abbrev pub into_first : ℕ → List Bytes → List Bytes
into_first c [] = (c ∷ []) ∷ []
into_first c (p ∷ ps) = (c ∷ p) ∷ ps

unfoldable pub split_at : ℕ → Bytes → List Bytes
split_at sep [] = [] ∷ []
split_at sep (c ∷ s) = if c == sep then [] ∷ split_at sep s else into_first c (split_at sep s)

abbrev pub parts_after : ℕ → Bytes → List Bytes
parts_after sep [] = []
parts_after sep (c ∷ s) = split_at sep s

-- The first part ends before the first separator, and the others come behind it.
pub split_at-part :
    (sep : ℕ) (s : Bytes)
    → split_at sep s
      ≡ take_while (λ c. not (c == sep)) s ∷ parts_after sep (drop_while (λ c. not (c == sep)) s)
unfolding split_at take_while drop_while
split_at-part sep [] = refl
split_at-part sep (c ∷ s) = elim (Bool-cases (c == sep)) [
  | inl e ↦ rw e refl
  | inr e ↦ rw e (ap (into_first c) (split_at-part sep s))
]
