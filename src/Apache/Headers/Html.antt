-- ===== src/Apache/Headers/Html.antt =====
-- The media types that is_html_content accepts.
use go_mesi.Base.{
  ℕ, true, [], ◌∷◌, ◌++◌, some, Bytes, codes, ◌==◌, map, length, drop, take_while, drop_while,
  is_blank, to_lower, Each, Stops, ◌≡◌, ◌↔◌, ◌⊎◌, refl, sym, ap, ◌∙◌, arith, Bool-cases, inl, inr,
  take_while-append-drop_while, Each-take_while, drop_while-append, drop_while-Stops,
}
use go_mesi.Apache.Headers.{starts_ignore_case, ends_media_type, is_html_content}

-- A text in two parts, the first of which is a pattern in some case of letters.
record Prefixed (pat s : Bytes) : Type 0 where
  start : Bytes
  rest : Bytes
  splits : s ≡ start ++ rest
  same : map to_lower start ≡ pat
  behind : drop (length pat) s ≡ rest

eq_sound : (a b : ℕ) → (a == b) ≡ true → a ≡ b
eq_sound a b h = ground arith

eq_self : (a : ℕ) → (a == a) ≡ true
eq_self a = ground arith

cons_eq : {a b : ℕ} {u v : Bytes} → a ≡ b → u ≡ v → (a ∷ u) ≡ (b ∷ v)
cons_eq e f = λ i. e i ∷ f i

starts-Prefixed : (pat s : Bytes) → starts_ignore_case pat s ≡ true → Prefixed pat s
unfolding starts_ignore_case
starts-Prefixed [] s h = record { start = []; rest = s; splits = refl; same = refl; behind = refl }
starts-Prefixed (x ∷ pat) [] h = absurd (cc)
starts-Prefixed (x ∷ pat) (c ∷ s) h = elim (Bool-cases (to_lower c == x)) [
  | inr e ↦ absurd (cc (rw e at h))
  | inl e ↦
      let p = starts-Prefixed pat s (rw e at h) in
      record {
        start = c ∷ p.start;
        rest = p.rest;
        splits = ap (λ t. c ∷ t) p.splits;
        same = cons_eq (eq_sound (to_lower c) x e) p.same;
        behind = p.behind;
      }
]

prefix_starts :
    (start rest : Bytes)
    → (starts_ignore_case (map to_lower start) (start ++ rest) ≡ true)
      × (drop (length (map to_lower start)) (start ++ rest) ≡ rest)
unfolding starts_ignore_case
prefix_starts [] rest = (refl, refl)
prefix_starts (c ∷ start) rest =
    let (same, behind) = prefix_starts start rest in (rw (eq_self (to_lower c)) same, behind)

-- The end of the text, or one of ';', space, tab, CR and LF.
abbrev pub Delimits : Bytes → Type 0
Delimits [] = Unit
Delimits (c ∷ s) = (c ≡ b';') ⊎ (c ≡ b' ') ⊎ (c ≡ b'\t') ⊎ (c ≡ b'\r') ⊎ (c ≡ b'\n')

ends-Delimits : (s : Bytes) → (ends_media_type s ≡ true) ↔ Delimits s
ends-Delimits [] = ((λ h. tt), (λ h. refl))
ends-Delimits (c ∷ s) = ((λ h. ground arith), (λ h. ground arith))

-- Blanks, the type text/html in some case of letters, and the end or a delimiter.
pub record HtmlType (ct : Bytes) : Type 0 where
  pub blanks : Bytes
  pub media_type : Bytes
  pub rest : Bytes
  pub splits : ct ≡ blanks ++ (media_type ++ rest)
  pub all_blank : Each is_blank blanks
  pub is_text_html : map to_lower media_type ≡ codes "text/html"
  pub delimited : Delimits rest

html-HtmlType : (ct : Bytes) → is_html_content (some ct) ≡ true → HtmlType ct
unfolding is_html_content
html-HtmlType ct h =
    let t = drop_while is_blank ct in
    elim (Bool-cases (starts_ignore_case (codes "text/html") t)) [
      | inr e ↦ absurd (cc (rw e at h))
      | inl e ↦
          let p = starts-Prefixed (codes "text/html") t e in
          record {
            blanks = take_while is_blank ct;
            media_type = p.start;
            rest = p.rest;
            splits =
                sym (take_while-append-drop_while is_blank ct)
                ∙ ap (λ u. take_while is_blank ct ++ u) p.splits;
            all_blank = Each-take_while is_blank ct;
            is_text_html = p.same;
            delimited = (ends-Delimits p.rest).0 (sym (ap ends_media_type p.behind) ∙ (rw e at h));
          }
    ]

head_or_0 : Bytes → ℕ
head_or_0 [] = 0
head_or_0 (c ∷ s) = c

-- A text that begins with text/html does not begin with a blank.
type-Stops : (t rest : Bytes) → map to_lower t ≡ codes "text/html" → Stops is_blank (t ++ rest)
unfolding head_or_0
type-Stops [] rest h = absurd (cc)
type-Stops (c ∷ t) rest h = let first : to_lower c ≡ b't' = ap head_or_0 h in ground (arith, first)

HtmlType-html : (ct : Bytes) → HtmlType ct → is_html_content (some ct) ≡ true
unfolding is_html_content
HtmlType-html ct p =
    let skip : drop_while is_blank ct ≡ p.media_type ++ p.rest =
      ap (drop_while is_blank) p.splits
      ∙ drop_while-append is_blank p.blanks (p.media_type ++ p.rest) p.all_blank
      ∙ drop_while-Stops is_blank (p.media_type ++ p.rest)
          (type-Stops p.media_type p.rest p.is_text_html) in
    let (same, behind) = prefix_starts p.media_type p.rest in
    let same' : starts_ignore_case (codes "text/html") (p.media_type ++ p.rest) ≡ true =
      rw p.is_text_html at same in
    let behind' : drop 9 (p.media_type ++ p.rest) ≡ p.rest = rw p.is_text_html at behind in
    rw skip (rw same' (rw behind' ((ends-Delimits p.rest).1 p.delimited)))

-- A Content-Type is taken as HTML exactly if it is blanks, text/html in some case of letters, and
-- then the end or one of ; space, tab, CR and LF.
pub is_html_content-HtmlType : (ct : Bytes) → (is_html_content (some ct) ≡ true) ↔ HtmlType ct
is_html_content-HtmlType ct = (html-HtmlType ct, HtmlType-html ct)
