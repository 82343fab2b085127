-- ===== src/Nginx/Head/Html.antt =====
-- The content types that ngx_test_is_html takes as HTML.
use go_mesi.Base.{
  ℕ, true, false, Bool, if◌then◌else◌, ◌||◌, [], ◌∷◌, ◌++◌, Bytes, codes, map, to_lower, null, ◌==◌,
  ◌≡◌, ◌↔◌, refl, ap, ◌∙◌, arith, Bool-cases, inl, inr,
}
use go_mesi.Apache.Directive.Template.{starts_with, contains}
use go_mesi.Nginx.Head.{Response, ngx_test_is_html}

-- The text text/html, in some case of letters, stands somewhere in a content type.
pub record NamesHtml (content_type : Bytes) : Type 0 where
  pub before : Bytes
  pub after : Bytes
  pub splits : map to_lower content_type ≡ before ++ (codes "text/html" ++ after)

starts-append : (pat s : Bytes) → starts_with pat s ≡ true → (rest : Bytes) × (s ≡ pat ++ rest)
unfolding starts_with
starts-append [] s h = (s, refl)
starts-append (x ∷ pat) [] h = absurd cc
starts-append (x ∷ pat) (c ∷ s) h = elim (Bool-cases (c == x)) [
  | inr e ↦ absurd (ground arith)
  | inl e ↦
      let later : starts_with pat s ≡ true = ground arith in
      let (rest, same) = starts-append pat s later in
      let v : c ≡ x = ground arith in (rest, λ i. v i ∷ same i)
]

append-starts : (pat rest : Bytes) → starts_with pat (pat ++ rest) ≡ true
unfolding starts_with
append-starts [] rest = refl
append-starts (x ∷ pat) rest = ground (arith, append-starts pat rest)

contains-splits :
    (pat s : Bytes)
    → contains pat s ≡ true
    → (before : Bytes) × (after : Bytes) × (s ≡ before ++ (pat ++ after))
unfolding contains
contains-splits pat [] h = absurd cc
contains-splits pat (c ∷ s) h = elim (Bool-cases (starts_with pat (c ∷ s))) [
  | inl e ↦ (let (rest, same) = starts-append pat (c ∷ s) e in ([], rest, same))
  | inr e ↦
      let (before, after, same) = contains-splits pat s (rw e at h) in
      (c ∷ before, after, ap (◌∷◌ c) same)
]

splits-contains :
    (x : ℕ) (pat before after : Bytes) → contains (x ∷ pat) (before ++ ((x ∷ pat) ++ after)) ≡ true
unfolding contains
splits-contains x pat [] after = rw (append-starts (x ∷ pat) after) refl
splits-contains x pat (c ∷ before) after = rw (splits-contains x pat before after) (either _)
  where
    either : (a : Bool) → (a || true) ≡ true
    either a = ground arith

-- With the copy in lower case allocated.
pub is_html-NamesHtml : (r : Response) → (ngx_test_is_html true r ≡ true) ↔ NamesHtml r.content_type
unfolding ngx_test_is_html
is_html-NamesHtml r = by_type r.content_type
  where
    by_type :
        (t : Bytes)
        → ((if null t then false else contains (codes "text/html") (map to_lower t)) ≡ true)
          ↔ NamesHtml t
    by_type [] = ((λ h. absurd cc), (λ p. absurd (nothing p.before p.after p.splits)))
      where
        nothing : (before after : Bytes) → [] ≡ before ++ (codes "text/html" ++ after) → ⊥
        nothing [] after e = absurd cc
        nothing (c ∷ before) after e = absurd cc
    by_type (c ∷ t) = (
      (λ h.
          let (before, after, same) =
            contains-splits (codes "text/html") (map to_lower (c ∷ t)) h in
          record { before = before; after = after; splits = same }),
      (λ p.
          ap (contains (codes "text/html")) p.splits
          ∙ splits-contains b't' (codes "ext/html") p.before p.after),
    )
