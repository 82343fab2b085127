-- ===== src/Apache/Hosts/Fields.antt =====
-- The allowlist as Go's strings.Fields splits it.
use go_mesi.Base.{
  ℕ, zero, suc, ◌≤◌, Bool, true, false, not, List, [], ◌∷◌, ◌++◌, Bytes, if◌then◌else◌, null,
  length, drop_while, take_while, is_blank, ◌≡◌, refl, sym, ap, ◌∙◌, arith, inl, inr, Bool-cases,
  append_assoc, append-nil, take_while-append-drop_while, Stops-drop_while, Stops,
  length-drop_while,
}
use go_mesi.Apache.Hosts.White.{white_width, space_width, white_width-space_width}
use go_mesi.Apache.Hosts.{
  unicode_space, is_space, token_from, has_hostname_token, cut_hosts, hosts_of, join_hosts,
}

abbrev flush : Bytes → List Bytes
flush [] = []
flush (c ∷ s) = (c ∷ s) ∷ []

-- strings.Fields: the token so far, the bytes of a separator still to pass, and the text, with the
-- width of the separator at the start of a text.
fields_by : (Bytes → ℕ) → Bytes → ℕ → Bytes → List Bytes
fields_by width cur k [] = flush cur
fields_by width cur (suc k) (c ∷ s) = fields_by width cur k s
fields_by width cur zero (c ∷ s) = elim (width (c ∷ s)) [
  | zero ↦ fields_by width (cur ++ c ∷ []) 0 s
  | suc w ↦ flush cur ++ fields_by width [] w s
]

-- strings.Fields, with the white space of Unicode.
pub fields : Bytes → List Bytes
unfolding fields_by
fields s = fields_by white_width [] 0 s

-- The same with the tests of the module, for the proofs.
abbrev fields_from : Bytes → ℕ → Bytes → List Bytes
fields_from cur k s = fields_by space_width cur k s

table_fields : Bytes → List Bytes
unfolding fields_by
table_fields s = fields_from [] 0 s

fields-table : (s : Bytes) → fields s ≡ table_fields s
unfolding fields table_fields
fields-table s = λ i. fields_by (λ t. white_width-space_width t i) [] 0 s

-- A token once begun is never lost.
fields-begun : (s : Bytes) (c : ℕ) (cur : Bytes) (k : ℕ) → null (fields_from (c ∷ cur) k s) ≡ false
unfolding fields_by
fields-begun [] c cur k = refl
fields-begun (x ∷ s) c cur (suc k) = fields-begun s c cur k
fields-begun (x ∷ s) c cur zero = ground (arith, fields-begun s c (cur ++ x ∷ []) 0)

token-fields : (s : Bytes) (k : ℕ) → token_from k s ≡ not (null (fields_from [] k s))
unfolding fields_by token_from
token-fields [] zero = refl
token-fields [] (suc k) = refl
token-fields (c ∷ s) (suc k) = token-fields s k
token-fields (c ∷ s) zero = elim (Bool-cases (is_space c)) [
  | inl h ↦ rw (h, token_from, fields_by) (token-fields s 0)
  | inr h ↦
      rw (h, token_from, fields_by)
        ((elim (unicode_space (c ∷ s))
          as (λ w.
            elim w [ zero ↦ true | suc k ↦ token_from k s ]
            ≡ not
                (null (elim w [ zero ↦ fields_from (c ∷ []) 0 s | suc k ↦ fields_from [] k s ]))) [
                  | zero ↦ rw (fields-begun s c [] 0)
                  | suc k ↦ token-fields s k
                ]))
]

-- Behind a blank the reading starts afresh.
space_width-append :
    (c b : ℕ) (s rest : Bytes)
    → is_blank b ≡ true
    → space_width (c ∷ (s ++ b ∷ rest)) ≡ space_width (c ∷ s)
unfolding unicode_space
space_width-append c b [] [] h = ground arith
space_width-append c b [] (d ∷ rest) h = ground arith
space_width-append c b (x ∷ []) rest h = ground arith
space_width-append c b (x ∷ y ∷ s) rest h = refl

space_width-le : (s : Bytes) → space_width s ≤ length s
unfolding unicode_space
space_width-le [] = omega arith
space_width-le (c ∷ []) = ground arith
space_width-le (c ∷ d ∷ []) = ground arith
space_width-le (c ∷ d ∷ e ∷ s) = ground arith

space_width_blank : (b : ℕ) (rest : Bytes) → is_blank b ≡ true → space_width (b ∷ rest) ≡ 1
space_width_blank b rest h = ground arith

fields_from-append :
    (s rest cur : Bytes) (b k : ℕ)
    → is_blank b ≡ true
    → k ≤ length s
    → fields_from cur k (s ++ b ∷ rest) ≡ fields_from cur k s ++ fields_from [] 0 rest
unfolding fields_by
fields_from-append [] rest cur b zero h le = rw (space_width_blank b rest h, fields_by)
fields_from-append [] rest cur b (suc k) h le = absurd (omega arith)
fields_from-append (c ∷ s) rest cur b (suc k) h le =
    fields_from-append s rest cur b k h (omega arith)
fields_from-append (c ∷ s) rest cur b zero h le =
    rw (space_width-append c b s rest h, fields_by)
      ((elim (space_width (c ∷ s))
          as (λ w.
            w ≤ suc (length s)
            → elim w [
              | zero ↦ fields_from (cur ++ c ∷ []) 0 (s ++ b ∷ rest)
              | suc k ↦ flush cur ++ fields_from [] k (s ++ b ∷ rest)
            ]
              ≡ elim w [
                | zero ↦ fields_from (cur ++ c ∷ []) 0 s
                | suc k ↦ flush cur ++ fields_from [] k s
              ]
                ++ fields_from [] 0 rest) [
                  | zero ↦ λ le. fields_from-append s rest (cur ++ c ∷ []) b 0 h (omega arith)
                  | suc k ↦
                      λ le. rw (fields_from-append s rest [] b k h (omega arith)) (rw append_assoc)
                ])
        (space_width-le (c ∷ s)))

fields-append :
    (s rest : Bytes) (b : ℕ)
    → is_blank b ≡ true
    → table_fields (s ++ b ∷ rest) ≡ table_fields s ++ table_fields rest
unfolding table_fields
fields-append s rest b h = fields_from-append s rest [] b 0 h (omega arith)

fields_blank : (b : ℕ) (s : Bytes) → is_blank b ≡ true → table_fields (b ∷ s) ≡ table_fields s
unfolding table_fields
fields_blank b s h = fields_from-append [] s [] b 0 h (omega arith)

fields-drop_while : (s : Bytes) → table_fields (drop_while is_blank s) ≡ table_fields s
unfolding drop_while
fields-drop_while [] = refl
fields-drop_while (c ∷ s) = elim (Bool-cases (is_blank c)) [
  | inl h ↦ rw (h, drop_while) (fields-drop_while s ∙ sym (fields_blank c s h))
  | inr h ↦ rw (h, drop_while) refl
]

-- The table_fields of every host of a list, one after the other.
pub fields_of_all : List Bytes → List Bytes
fields_of_all [] = []
fields_of_all (h ∷ hs) = table_fields h ++ fields_of_all hs

fields-join : (hs : List Bytes) → table_fields (join_hosts hs) ≡ fields_of_all hs
unfolding fields_of_all join_hosts
fields-join [] = unfold table_fields in refl
fields-join (h ∷ []) = sym (append-nil _)
fields-join (h ∷ g ∷ hs) =
    fields-append h (join_hosts (g ∷ hs)) b' ' refl
    ∙ ap (λ l. table_fields h ++ l) (fields-join (g ∷ hs))

abbrev not_blank : ℕ → Bool
not_blank c = not (is_blank c)

-- A token and the rest of the line, which is empty or begins with a blank.
fields_split :
    (p rest : Bytes)
    → Stops not_blank rest
    → table_fields (p ++ rest) ≡ table_fields p ++ table_fields rest
unfolding table_fields
fields_split p [] st = rw append-nil (sym (append-nil _))
fields_split p (b ∷ rest) st =
    let h : is_blank b ≡ true = ground arith in
    fields-append p rest b h ∙ ap (λ l. table_fields p ++ l) (sym (fields_blank b rest h))

abbrev rest_of : Bytes → Bytes
rest_of s = drop_while not_blank (drop_while is_blank s)

length-rest_of : (c : ℕ) (s : Bytes) → length (rest_of (c ∷ s)) ≤ length s
unfolding drop_while
length-rest_of c s = elim (Bool-cases (is_blank c)) [
  | inl h ↦
      rw (h, drop_while)
        (omega (
          arith,
          length-drop_while not_blank (drop_while is_blank s),
          length-drop_while is_blank s,
        ))
  | inr h ↦ rw (h, drop_while) (rw h (length-drop_while not_blank s))
]

fields_of_all-word :
    (t : Bytes) (l : List Bytes)
    → fields_of_all ((if null t then [] else t ∷ []) ++ l) ≡ table_fields t ++ fields_of_all l
unfolding fields_of_all table_fields
fields_of_all-word [] l = refl
fields_of_all-word (c ∷ t) l = refl

fields-cut :
    (fuel : ℕ) (s : Bytes) → length s ≤ fuel → fields_of_all (cut_hosts fuel s) ≡ table_fields s
unfolding cut_hosts fields_of_all table_fields
fields-cut zero [] h = refl
fields-cut (suc fuel) [] h = refl
fields-cut zero (c ∷ s) h = absurd (omega arith)
fields-cut (suc fuel) (c ∷ s) h =
    let p = drop_while is_blank (c ∷ s) in
    let t = take_while not_blank p in
    let rest = drop_while not_blank p in
    let short : length rest ≤ fuel = omega (arith, length-rest_of c s) in
    fields_of_all-word t (cut_hosts fuel rest)
    ∙ ap (λ l. table_fields t ++ l) (fields-cut fuel rest short)
    ∙ sym (fields_split t rest (Stops-drop_while not_blank p))
    ∙ ap table_fields (take_while-append-drop_while not_blank p)
    ∙ fields-drop_while (c ∷ s)

-- The line of MesiAllowedHosts and the joined list of its hosts, which libgomesi gets, have the
-- same fields: cutting and joining lose no host and make none.
pub fields-join-hosts_of : (line : Bytes) → fields (join_hosts (hosts_of line)) ≡ fields line
unfolding hosts_of
fields-join-hosts_of line =
    fields-table _
    ∙ fields-join _
    ∙ fields-cut (length line) line (omega arith)
    ∙ sym (fields-table line)

-- A line passes the test for a host exactly if strings.Fields, with the white space of Unicode, gives
-- a field.
pub has_hostname_token-fields : (line : Bytes) → has_hostname_token line ≡ not (null (fields line))
unfolding has_hostname_token table_fields
has_hostname_token-fields line =
    token-fields line 0 ∙ ap (λ l. not (null l)) (sym (fields-table line))
