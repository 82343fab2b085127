-- ===== src/Apache/RequestCtx/Cookies.antt =====
-- The loop over the Cookie header finds the cookies of its parts between semicolons.
use go_mesi.Base.{split_at, split_at-part, parts_after}
use go_mesi.Base.{
  ℕ, suc, ◌≤◌, ◌<◌, Bool, true, false, not, ◌&&◌, List, [], ◌∷◌, ◌++◌, Bytes, ◌==◌, if◌then◌else◌,
  null, length, ◌≡◌, ◌⊎◌, refl, sym, ap, ◌∙◌, arith, Bool-cases, inl, inr, take_while, drop_while,
  length-drop_while, is_blank, Stops, Each, drop_while-append, Stops-drop_while, Each-take_while,
  take_while-append-drop_while, append-nil, length-append,
}
use mathlib.Core.Path.{subst}
use go_mesi.Apache.RequestCtx.{
  CookieStep, finished, skipped, found, trim_right, trim, not_semi, in_name, is_separator,
  cookie_value, cookie_name, next_cookie,
}

abbrev not_equal : ℕ → Bool
not_equal c = not (c == b'=')

-- A part with an '=' and a name that is not blank is a cookie.
abbrev pair_of : Bytes → Bytes → List (Bytes × Bytes)
pair_of name [] = []
pair_of name (c ∷ v) = if null (trim name) then [] else (trim name, trim v) ∷ []

unfoldable pub cookie_of : Bytes → List (Bytes × Bytes)
cookie_of part = pair_of (take_while not_equal part) (drop_while not_equal part)

unfoldable pub cookies_in : List Bytes → List (Bytes × Bytes)
unfolding cookie_of
cookies_in [] = []
cookies_in (p ∷ ps) = cookie_of p ++ cookies_in ps

unfoldable pub cookies : Bytes → List (Bytes × Bytes)
unfolding split_at cookies_in
cookies s = cookies_in (split_at b';' s)

pub cookies-nil : cookies [] ≡ []
unfolding cookies split_at cookies_in cookie_of take_while drop_while
cookies-nil = refl

-- Blanks in front of a text do not change what is left of it.
trim-blank : (c : ℕ) (s : Bytes) → is_blank c ≡ true → trim (c ∷ s) ≡ trim s
unfolding trim trim_right drop_while
trim-blank c s h = go (trim_right s)
  where
    go :
        (t : Bytes)
        → drop_while is_blank (if null t && is_blank c then [] else c ∷ t) ≡ drop_while is_blank t
    go [] = rw h refl
    go (x ∷ t) = rw h refl

cookie_of-blank : (c : ℕ) (p : Bytes) → is_blank c ≡ true → cookie_of (c ∷ p) ≡ cookie_of p
unfolding cookie_of take_while drop_while
cookie_of-blank c p h = rw ne (pair (drop_while not_equal p))
  where
    ne : not_equal c ≡ true
    ne = ground arith

    pair : (v : Bytes) → pair_of (c ∷ take_while not_equal p) v ≡ pair_of (take_while not_equal p) v
    pair [] = refl
    pair (x ∷ v) = rw (trim-blank c (take_while not_equal p) h) refl

-- The cookies behind the first semicolon.
abbrev cookies_after : Bytes → List (Bytes × Bytes)
cookies_after [] = []
cookies_after (c ∷ s) = cookies s

-- The first part, and the parts behind it.
cookies-part :
    (s : Bytes)
    → cookies s ≡ cookie_of (take_while not_semi s) ++ cookies_after (drop_while not_semi s)
unfolding cookies cookies_in
cookies-part s =
    ap cookies_in (split_at-part b';' s)
    ∙ ap (λ l. cookie_of (take_while not_semi s) ++ l) (after (drop_while not_semi s))
  where
    after : (t : Bytes) → cookies_in (parts_after b';' t) ≡ cookies_after t
    after [] = refl
    after (x ∷ t) = refl

cookies-cons :
    (c : ℕ) (s : Bytes)
    → (c == b';') ≡ false
    → cookies (c ∷ s)
      ≡ cookie_of (c ∷ take_while not_semi s) ++ cookies_after (drop_while not_semi s)
unfolding take_while drop_while
cookies-cons c s h = cookies-part (c ∷ s) ∙ rw h refl

cookies-semi : (c : ℕ) (s : Bytes) → (c == b';') ≡ true → cookies (c ∷ s) ≡ cookies s
unfolding cookies split_at cookies_in cookie_of take_while drop_while
cookies-semi c s h = rw h refl

cookies-separator : (c : ℕ) (s : Bytes) → is_separator c ≡ true → cookies (c ∷ s) ≡ cookies s
cookies-separator c s h = elim (Bool-cases (c == b';')) [
  | inl e ↦ cookies-semi c s e
  | inr e ↦
      cookies-cons c s e
      ∙ ap (λ l. l ++ cookies_after (drop_while not_semi s))
          (cookie_of-blank c (take_while not_semi s) (ground arith))
      ∙ sym (cookies-part s)
]

cookies-skip : (s : Bytes) → cookies (drop_while is_separator s) ≡ cookies s
unfolding drop_while
cookies-skip [] = refl
cookies-skip (c ∷ s) = elim (Bool-cases (is_separator c)) [
  | inl e ↦ rw e (cookies-skip s ∙ sym (cookies-separator c s e))
  | inr e ↦ rw e refl
]

cookies_after-Stops : (t : Bytes) → Stops not_semi t → cookies_after t ≡ cookies t
unfolding cookies split_at cookies_in cookie_of take_while drop_while
cookies_after-Stops [] h = refl
cookies_after-Stops (c ∷ t) h = sym (cookies-separator c t (ground arith))

take_while-prefix :
    (p : ℕ → Bool) (xs rest : Bytes)
    → Each p xs
    → take_while p (xs ++ rest) ≡ xs ++ take_while p rest
unfolding take_while
take_while-prefix p [] rest h = refl
take_while-prefix p (x ∷ xs) rest (hx, hs) = rw hx (ap (◌∷◌ x) (take_while-prefix p xs rest hs))

name-not_semi : (n : Bytes) → Each in_name n → Each not_semi n
name-not_semi [] h = tt
name-not_semi (c ∷ n) (hc, hs) = (ground arith, name-not_semi n hs)

name-not_equal : (n : Bytes) → Each in_name n → Each not_equal n
name-not_equal [] h = tt
name-not_equal (c ∷ n) (hc, hs) = (ground arith, name-not_equal n hs)

-- A text that begins with the bytes of a name.
cookies-name :
    (n d : Bytes)
    → Each in_name n
    → cookies (n ++ d)
      ≡ pair_of
          (n ++ take_while not_equal (take_while not_semi d))
          (drop_while not_equal (take_while not_semi d))
        ++ cookies (drop_while not_semi d)
unfolding cookie_of
cookies-name n d h =
    let semi = name-not_semi n h in
    let equal = name-not_equal n h in
    let part = take_while not_semi d in
    cookies-part (n ++ d)
    ∙ rw
        (
          take_while-prefix not_semi n d semi,
          drop_while-append not_semi n d semi,
          take_while-prefix not_equal n part equal,
          drop_while-append not_equal n part equal,
        )
        (ap (λ l. pair_of (n ++ take_while not_equal part) (drop_while not_equal part) ++ l)
          (cookies_after-Stops (drop_while not_semi d) (Stops-drop_while not_semi d)))

-- What a round of the loop finds in a text.
abbrev pub Round : Bytes → CookieStep → Type 0
Round s finished = cookies s ≡ []
Round s (skipped rest) = (cookies s ≡ cookies rest) × (length rest < length s)
Round s (found name val rest) = (cookies s ≡ (name, val) ∷ cookies rest) × (length rest < length s)

-- A round that starts behind the separators, at the name n.
module _ (n : Bytes) (h : Each in_name n) where
  value_Round : (t : Bytes) → Round (n ++ b'=' ∷ t) (cookie_value n t)
  unfolding cookie_value take_while drop_while
  value_Round t =
      let e = cookies-name n (b'=' ∷ t) h in
      let len = length-append n (b'=' ∷ t) in
      let short = length-drop_while not_semi t in
      elim (Bool-cases (null (trim n))) [
        | inl b ↦ rw b (e ∙ rw (append-nil, b) refl, omega (arith, len, short))
        | inr b ↦ rw b (e ∙ rw (append-nil, b) refl, omega (arith, len, short))
      ]

  no_value_Round :
      (c : ℕ) (t : Bytes)
      → (c == b'=') ≡ false
      → in_name c ≡ false
      → 1 ≤ length n
      → Round (n ++ c ∷ t) (skipped (drop_while not_semi (c ∷ t)))
  unfolding take_while drop_while
  no_value_Round c t ne stop ln =
      let e = cookies-name n (c ∷ t) h in
      let len = length-append n (c ∷ t) in
      let semi : (c == b';') ≡ true = ground arith in
      rw semi ((e ∙ rw semi refl), omega (arith, len))

  end_Round : 1 ≤ length n → Round (n ++ []) (skipped [])
  unfolding take_while drop_while cookies split_at cookies_in cookie_of
  end_Round ln = (cookies-name n [] h, omega (arith, length-append n []))

  name_Round :
      (d : Bytes)
      → Stops in_name d
      → (1 ≤ length n) ⊎ ((1 ≤ length d) × Stops not_equal d)
      → Round (n ++ d) (cookie_name n d)
  unfolding cookie_name
  name_Round [] st (inl ln) = end_Round ln
  name_Round [] st (inr (ld, eq)) = absurd (omega arith)
  name_Round (c ∷ t) st start = elim (Bool-cases (c == b'=')) [
    | inl e ↦ rw e (value c e)
    | inr e ↦ rw e (no_value_Round c t e st (long start e))
  ]
    where
      value : (c : ℕ) → (c == b'=') ≡ true → Round (n ++ c ∷ t) (cookie_value n t)
      value c e =
          let same : c ≡ b'=' = ground arith in
          subst (λ x. Round (n ++ x ∷ t) (cookie_value n t)) (sym same) (value_Round t)

      long :
          (1 ≤ length n) ⊎ ((1 ≤ suc (length t)) × (not_equal c ≡ false))
          → (c == b'=') ≡ false
          → 1 ≤ length n
      long (inl ln) e = ln
      long (inr (ld, eq)) e = absurd (ground arith)

-- What holds of a round behind the separators holds of one before them.
skip_Round : (s : Bytes) (r : CookieStep) → Round (drop_while is_separator s) r → Round s r
skip_Round s finished e = sym (cookies-skip s) ∙ e
skip_Round s (skipped rest) (e, l) =
    (sym (cookies-skip s) ∙ e, omega (arith, length-drop_while is_separator s))
skip_Round s (found name val rest) (e, l) =
    (sym (cookies-skip s) ∙ e, omega (arith, length-drop_while is_separator s))

-- The name is not empty, or an '=' stands there.
start_of :
    (c : ℕ) (s : Bytes)
    → is_separator c ≡ false
    → (1 ≤ length (take_while in_name (c ∷ s)))
      ⊎ ((1 ≤ length (drop_while in_name (c ∷ s))) × Stops not_equal (drop_while in_name (c ∷ s)))
unfolding take_while drop_while
start_of c s h = elim (Bool-cases (in_name c)) [
  | inl e ↦ rw e (inl (omega arith))
  | inr e ↦ rw e (inr (omega arith, ground arith))
]

start_Round :
    (s : Bytes)
    → Stops is_separator s
    → Round s
        (if null s then finished else cookie_name (take_while in_name s) (drop_while in_name s))
start_Round [] st = unfold cookies split_at cookies_in cookie_of take_while drop_while in refl
start_Round (c ∷ s) st =
    let n = take_while in_name (c ∷ s) in
    let d = drop_while in_name (c ∷ s) in
    subst (λ t. Round t (cookie_name n d)) (take_while-append-drop_while in_name (c ∷ s))
      (name_Round n (Each-take_while in_name (c ∷ s)) d (Stops-drop_while in_name (c ∷ s))
        (start_of c s st))

-- A round ends the loop when no cookie is left, or leaves a shorter text and the cookies of it behind
-- the one that it found, if it found one.
pub next_cookie-Round : (s : Bytes) → Round s (next_cookie s)
unfolding next_cookie
next_cookie-Round s =
    skip_Round s _ (start_Round (drop_while is_separator s) (Stops-drop_while is_separator s))
