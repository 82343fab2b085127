-- ===== src/Apache/Headers/Signals.antt =====
-- The elements between commas by which an Edge-control value signals ESI.
use go_mesi.Base.{split_at}
use go_mesi.Base.{
  ℕ, Bool, false, List, [], ◌∷◌, some, Bytes, if◌then◌else◌, null, drop, take_while, drop_while,
  ◌≡◌, refl, arith, Bool-cases, inl, inr, ◌⊎◌, ◌↔◌, All, Each, NoneOf, Stops, map, to_lower, codes,
  ◌++◌, ◌&&◌, true, sym, ap, ◌∙◌, if-elim, ◌<◌, bytes_eq_iff, take_while-append-drop_while,
  Each-take_while, drop_while-append, drop_while-Stops,
}
use mathlib.Core.Bool.{true≢false}
use go_mesi.Apache.Directive.{eq_ignore_case}
use go_mesi.Apache.Headers.{mesi_is_header_space, trim_end, is_signal, mesi_header_signals_esi}
use go_mesi.Apache.Headers.Scan.{trim_space, any_signal, mesi_header_signals_esi-any}

-- Space, tab, CR, LF, vertical tab and form feed.
abbrev pub White : ℕ → Type 0
White c = (c ≡ b' ') ⊎ (c ≡ b'\t') ⊎ (c ≡ b'\r') ⊎ (c ≡ b'\n') ⊎ (c ≡ 0x0b) ⊎ (c ≡ 0x0c)

-- White space, dca=esi in some case of letters, and white space.
pub record Signal (element : Bytes) : Type 0 where
  pub before : Bytes
  pub word : Bytes
  pub behind : Bytes
  pub splits : element ≡ before ++ (word ++ behind)
  pub white_before : All White before
  pub white_behind : All White behind
  pub is_dca_esi : map to_lower word ≡ codes "dca=esi"

abbrev pub SomeSignal : List Bytes → Type 0
SomeSignal [] = ⊥
SomeSignal (p ∷ ps) = Signal p ⊎ SomeSignal ps

space-White : (c : ℕ) → (mesi_is_header_space c ≡ true) ↔ White c
space-White c = ((λ h. ground arith), (λ h. ground arith))

Each-White : (s : Bytes) → Each mesi_is_header_space s → All White s
Each-White [] h = tt
Each-White (c ∷ s) h = ((space-White c).0 h.0, Each-White s h.1)

White-Each : (s : Bytes) → All White s → Each mesi_is_header_space s
White-Each [] h = tt
White-Each (c ∷ s) h = ((space-White c).1 h.0, White-Each s h.1)

-- What is cut off the end is white space.
trim_end-splits :
    (s : Bytes) → (cut : Bytes) × (s ≡ trim_end s ++ cut) × Each mesi_is_header_space cut
unfolding trim_end
trim_end-splits [] = ([], refl, tt)
trim_end-splits (c ∷ s) =
    let (cut, e, white) = trim_end-splits s in
    elim (Bool-cases (mesi_is_header_space c)) [
      | inr n ↦ rw (n, both_false (null (trim_end s))) (cut, ap (◌∷◌ c) e, white)
      | inl w ↦ rw w (split_cons c s (trim_end s) cut w e white)
    ]
  where
    both_false : (b : Bool) → (b && false) ≡ false
    both_false b = ground arith

    split_cons :
        (c : ℕ) (s rest cut : Bytes)
        → mesi_is_header_space c ≡ true
        → s ≡ rest ++ cut
        → Each mesi_is_header_space cut
        → (cut : Bytes) × (c ∷ s ≡ (if null rest && true then [] else c ∷ rest) ++ cut)
          × Each mesi_is_header_space cut
    split_cons c s [] cut w e white = (c ∷ cut, ap (◌∷◌ c) e, (w, white))
    split_cons c s (x ∷ rest) cut w e white = (cut, ap (◌∷◌ c) e, white)

trim_end-white : (s : Bytes) → Each mesi_is_header_space s → trim_end s ≡ []
unfolding trim_end
trim_end-white [] h = refl
trim_end-white (c ∷ s) h = rw (trim_end-white s h.1, h.0) refl

trim_end-append : (s cut : Bytes) → trim_end cut ≡ [] → trim_end (s ++ cut) ≡ trim_end s
unfolding trim_end
trim_end-append [] cut h = h
trim_end-append (c ∷ s) cut h = rw (trim_end-append s cut h) refl

trim_end-NoneOf : (s : Bytes) → NoneOf mesi_is_header_space s → trim_end s ≡ s
unfolding trim_end
trim_end-NoneOf [] h = refl
trim_end-NoneOf (c ∷ s) h = rw (trim_end-NoneOf s h.1, h.0) (both (null s) c s)
  where
    both : (b : Bool) (c : ℕ) (s : Bytes) → (if b && false then [] else c ∷ s) ≡ c ∷ s
    both b c s =
        if-elim (λ x. x ≡ c ∷ s) (b && false) [] (c ∷ s) (λ e. absurd (ground arith)) (λ e. refl)

head_or_0 : Bytes → ℕ
head_or_0 [] = 0
head_or_0 (c ∷ s) = c

-- A word whose letters are visible in lower case has no white space.
visible-NoneOf :
    (s t : Bytes) → All (λ x. b' ' < x) t → map to_lower s ≡ t → NoneOf mesi_is_header_space s
unfolding head_or_0
visible-NoneOf [] t h e = tt
visible-NoneOf (c ∷ s) [] h e = absurd cc
visible-NoneOf (c ∷ s) (x ∷ t) h e =
    let first : to_lower c ≡ x = ap head_or_0 e in
    let shown = h.0 in (ground (arith, first, shown), visible-NoneOf s t h.1 (ap (drop 1) e))

word-NoneOf : (s : Bytes) → map to_lower s ≡ codes "dca=esi" → NoneOf mesi_is_header_space s
word-NoneOf s e =
    visible-NoneOf s (codes "dca=esi")
      (
        omega arith,
        (
          omega arith,
          (omega arith, (omega arith, (omega arith, (omega arith, (omega arith, tt))))),
        ),
      )
      e

NoneOf-Stops :
    (s rest : Bytes)
    → map to_lower s ≡ codes "dca=esi"
    → NoneOf mesi_is_header_space s
    → Stops mesi_is_header_space (s ++ rest)
NoneOf-Stops [] rest e h = absurd cc
NoneOf-Stops (c ∷ s) rest e h = h.0

is_signal-word : (s : Bytes) → (is_signal s ≡ true) ↔ (map to_lower s ≡ codes "dca=esi")
unfolding is_signal eq_ignore_case
is_signal-word s = bytes_eq_iff (map to_lower s) (codes "dca=esi")

trimmed-Signal : (p : Bytes) → is_signal (trim_space p) ≡ true → Signal p
trimmed-Signal p h =
    let rest = drop_while mesi_is_header_space p in
    let (cut, e, white) = trim_end-splits rest in
    record {
      before = take_while mesi_is_header_space p;
      word = trim_end rest;
      behind = cut;
      splits =
          sym (take_while-append-drop_while mesi_is_header_space p)
          ∙ ap (λ u. take_while mesi_is_header_space p ++ u) e;
      white_before = Each-White _ (Each-take_while mesi_is_header_space p);
      white_behind = Each-White cut white;
      is_dca_esi = (is_signal-word (trim_end rest)).0 h;
    }

Signal-trimmed : (p : Bytes) → Signal p → is_signal (trim_space p) ≡ true
Signal-trimmed p m =
    let shown = word-NoneOf m.word m.is_dca_esi in
    let skip : drop_while mesi_is_header_space p ≡ m.word ++ m.behind =
      ap (drop_while mesi_is_header_space) m.splits
      ∙ drop_while-append mesi_is_header_space m.before (m.word ++ m.behind)
          (White-Each m.before m.white_before)
      ∙ drop_while-Stops mesi_is_header_space (m.word ++ m.behind)
          (NoneOf-Stops m.word m.behind m.is_dca_esi shown) in
    let trim : trim_end (m.word ++ m.behind) ≡ m.word =
      trim_end-append m.word m.behind (trim_end-white m.behind (White-Each m.behind m.white_behind))
      ∙ trim_end-NoneOf m.word shown in
    ap (λ u. is_signal (trim_end u)) skip
    ∙ ap is_signal trim
    ∙ (is_signal-word m.word).1 m.is_dca_esi

any_signal-SomeSignal : (ps : List Bytes) → (any_signal ps ≡ true) ↔ SomeSignal ps
unfolding any_signal
any_signal-SomeSignal [] = ((λ h. absurd cc), (λ h. absurd h))
any_signal-SomeSignal (p ∷ ps) =
    let later = any_signal-SomeSignal ps in
    elim (Bool-cases (is_signal (trim_space p))) [
      | inl e ↦ rw e ((λ h. inl (trimmed-Signal p e)), (λ h. refl))
      | inr e ↦ rw e (
        (λ h. inr (later.0 h)),
        (λ h. elim h [
          | inl m ↦ absurd (true≢false (sym (Signal-trimmed p m) ∙ e))
          | inr m ↦ later.1 m
        ]),
      )
    ]

-- A value signals ESI exactly if one of its elements between commas is dca=esi in any case of
-- letters, with nothing around it but space, tab, CR, LF, vertical tab and form feed.
pub mesi_header_signals_esi-SomeSignal :
    (value : Bytes)
    → (mesi_header_signals_esi (some value) ≡ true) ↔ SomeSignal (split_at b',' value)
mesi_header_signals_esi-SomeSignal value =
    rw (mesi_header_signals_esi-any value) (any_signal-SomeSignal (split_at b',' value))
