-- ===== src/Nginx/Headers/Agree.antt =====
-- The scan for nginx and the scan for Apache decide alike, and the search finds every place.
use go_mesi.Base.{split_at, split_at-part, parts_after}
use go_mesi.Base.{
  ℕ, zero, suc, ◌==◌, ◌&&◌, map, to_lower, codes, ◌+◌, ◌≤◌, Bool, true, false, ◌||◌, [], ◌∷◌, ◌++◌,
  some, Bytes, ltb, if◌then◌else◌, bytes_eq, bytes_eq_iff, null, length, take, drop, take_while,
  drop_while, length-drop_while, length-append, ◌≡◌, ◌↔◌, refl, sym, ap, ◌∙◌, arith, Bool-cases,
  inl, inr,
}
use go_mesi.Apache.Headers
use go_mesi.Apache.Directive.{eq_ignore_case}
use go_mesi.Apache.Headers.{trim_end, not_comma, is_signal, mesi_is_header_space}
use go_mesi.Apache.Headers.Scan.{any_signal, trim_space, mesi_header_signals_esi-any}
use go_mesi.Nginx.Headers.{
  is_white, drop_tail, equal_for, is_dca_esi, signals_round, mesi_header_signals_esi,
  ngx_http_mesi_contains,
}

drop_tail-trim_end : (s : Bytes) → drop_tail s ≡ trim_end s
unfolding drop_tail trim_end
drop_tail-trim_end [] = refl
drop_tail-trim_end (b ∷ s) = rw (drop_tail-trim_end s) (kept b (trim_end s))
  where
    kept :
        (b : ℕ) (rest : Bytes)
        → (elim rest [ [] ↦ if is_white b then [] else b ∷ [] | x ∷ k ↦ b ∷ x ∷ k ])
          ≡ (if null rest && mesi_is_header_space b then [] else b ∷ rest)
    kept b [] = refl
    kept b (x ∷ rest) = refl

equal_for-bytes_eq :
    (s t : Bytes)
    → (length s == length t && equal_for (length t) s t)
      ≡ bytes_eq (map to_lower s) (map to_lower t)
unfolding equal_for bytes_eq
equal_for-bytes_eq [] [] = refl
equal_for-bytes_eq [] (x ∷ t) = ground arith
equal_for-bytes_eq (b ∷ s) [] = ground arith
equal_for-bytes_eq (b ∷ s) (x ∷ t) = ground (arith, equal_for-bytes_eq s t)

is_dca_esi-is_signal : (s : Bytes) → is_dca_esi s ≡ is_signal s
unfolding is_dca_esi is_signal eq_ignore_case
is_dca_esi-is_signal s = equal_for-bytes_eq s (codes "dca=esi")

later_parts :
    (fuel : ℕ) (d : Bytes)
    → length d ≤ fuel
    → ((t : Bytes) → length t + 1 ≤ fuel → signals_round fuel t ≡ any_signal (split_at b',' t))
    → (if null d then false else signals_round fuel (drop 1 d)) ≡ any_signal (parts_after b',' d)
unfolding any_signal
later_parts fuel [] h later = refl
later_parts fuel (c ∷ t) h later = later t (omega arith)

signals_round-any :
    (fuel : ℕ) (s : Bytes)
    → length s + 1 ≤ fuel
    → signals_round fuel s ≡ any_signal (split_at b',' s)
unfolding signals_round any_signal
signals_round-any zero s h = absurd (omega arith)
signals_round-any (suc fuel) s h =
    let d = drop_while not_comma s in
    let short = length-drop_while not_comma s in
    let later = later_parts fuel d (omega arith) (signals_round-any fuel) in
    let part = drop_while mesi_is_header_space (take_while not_comma s) in
    rw (drop_tail-trim_end part, is_dca_esi-is_signal (trim_end part), split_at-part b',' s)
      (elim (Bool-cases (is_signal (trim_space (take_while not_comma s)))) [
        | inl e ↦ rw e refl
        | inr e ↦ rw e later
      ])

empty_value : false ≡ Headers.mesi_header_signals_esi (some [])
unfolding Headers.mesi_header_signals_esi Headers.signals_from trim_end is_signal eq_ignore_case
    bytes_eq drop_while take_while
empty_value = refl

-- The modules for nginx and for Apache take the same values of Edge-control as a signal.
pub mesi_header_signals_esi-Apache :
    (value : Bytes) → mesi_header_signals_esi value ≡ Headers.mesi_header_signals_esi (some value)
unfolding mesi_header_signals_esi
mesi_header_signals_esi-Apache [] = empty_value
mesi_header_signals_esi-Apache (c ∷ s) =
    signals_round-any (suc (length (c ∷ s))) (c ∷ s) (omega arith)
    ∙ sym (mesi_header_signals_esi-any (c ∷ s))

-- A place of the needle in the haystack.
pub record Found (s needle : Bytes) : Type 0 where
  pub before : Bytes
  pub after : Bytes
  pub splits : s ≡ before ++ (needle ++ after)

take-append-drop : (n : ℕ) (s : Bytes) → take n s ++ drop n s ≡ s
take-append-drop zero s = refl
take-append-drop (suc n) [] = refl
take-append-drop (suc n) (c ∷ s) = ap (◌∷◌ c) (take-append-drop n s)

take-prefix : (needle after : Bytes) → take (length needle) (needle ++ after) ≡ needle
take-prefix [] after = refl
take-prefix (c ∷ needle) after = ap (◌∷◌ c) (take-prefix needle after)

contains-Found : (s needle : Bytes) → ngx_http_mesi_contains s needle ≡ true → Found s needle
unfolding ngx_http_mesi_contains
contains-Found [] [] h = record { before = []; after = []; splits = refl }
contains-Found [] (x ∷ needle) h = absurd (cc)
contains-Found (c ∷ s) needle h = elim (Bool-cases (ltb (length (c ∷ s)) (length needle))) [
  | inl e ↦ absurd (cc (rw e at h))
  | inr e ↦ elim (Bool-cases (bytes_eq (take (length needle) (c ∷ s)) needle)) [
    | inl f ↦ record {
      before = [];
      after = drop (length needle) (c ∷ s);
      splits =
          sym (take-append-drop (length needle) (c ∷ s))
          ∙ ap (λ t. t ++ drop (length needle) (c ∷ s))
              ((bytes_eq_iff (take (length needle) (c ∷ s)) needle).0 f);
    }
    | inr f ↦
        let p = contains-Found s needle (rw f at (rw e at h)) in
        record { before = c ∷ p.before; after = p.after; splits = ap (◌∷◌ c) p.splits }
  ]
]

-- The haystack from some place on is long enough, and the rest of the search is to find it.
search_on :
    (c : ℕ) (s needle : Bytes)
    → length needle ≤ length (c ∷ s)
    → (bytes_eq (take (length needle) (c ∷ s)) needle || ngx_http_mesi_contains s needle) ≡ true
    → ngx_http_mesi_contains (c ∷ s) needle ≡ true
unfolding ngx_http_mesi_contains
search_on c s needle long h =
    let fits : ltb (length (c ∷ s)) (length needle) ≡ false = ground arith in rw fits h

or_true : (b : Bool) → (b || true) ≡ true
or_true true = refl
or_true false = refl

found_here : (needle after : Bytes) → ngx_http_mesi_contains (needle ++ after) needle ≡ true
unfolding ngx_http_mesi_contains bytes_eq
found_here [] [] = refl
found_here [] (c ∷ after) = search_on c after [] (omega arith) refl
found_here (x ∷ needle) after =
    search_on x (needle ++ after) (x ∷ needle) (omega (arith, length-append needle after))
      (rw ((bytes_eq_iff _ (x ∷ needle)).1 (take-prefix (x ∷ needle) after)) refl)

Found-contains :
    (before needle after : Bytes)
    → ngx_http_mesi_contains (before ++ (needle ++ after)) needle ≡ true
Found-contains [] needle after = found_here needle after
Found-contains (c ∷ before) needle after =
    let len1 = length-append before (needle ++ after) in
    let len2 = length-append needle after in
    search_on c (before ++ (needle ++ after)) needle (omega (arith, len1, len2))
      (rw (Found-contains before needle after) (or_true _))

-- The bounded search answers yes exactly if the needle stands somewhere in the haystack.
pub ngx_http_mesi_contains-Found :
    (s needle : Bytes) → (ngx_http_mesi_contains s needle ≡ true) ↔ Found s needle
ngx_http_mesi_contains-Found s needle = (
  contains-Found s needle,
  λ p. ap (λ t. ngx_http_mesi_contains t needle) p.splits ∙ Found-contains p.before needle p.after,
)
