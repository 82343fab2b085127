-- ===== src/Nginx/CacheBlobs/Words.antt =====
-- The tokens that the three passes over the list of servers find are its words.
use go_mesi.Base.{
  ℕ, zero, suc, ◌+◌, ◌*◌, ◌≤◌, true, false, List, [], ◌∷◌, ◌++◌, Bytes, ◌==◌, if◌then◌else◌, null,
  length, take_while, drop_while, split_at, split_at-part, parts_after, ◌≡◌, refl, sym, ap, ◌∙◌,
  arith, Bool-cases, inl, inr, Stops, Stops-drop_while,
}
use go_mesi.Apache.CacheConfig.{quoted, more_servers, server_list, servers_size}
use go_mesi.Nginx.CacheBlobs.{is_sp, not_sp, count_tokens, measure_tokens, write_tokens}

-- The parts between the spaces that are not empty.
abbrev non_empty_parts : List Bytes → List Bytes
non_empty_parts [] = []
non_empty_parts (p ∷ ps) = if null p then non_empty_parts ps else p ∷ non_empty_parts ps

unfoldable pub words : Bytes → List Bytes
unfolding split_at
words s = non_empty_parts (split_at b' ' s)

abbrev words_after : Bytes → List Bytes
words_after [] = []
words_after (c ∷ s) = words s

words-space : (c : ℕ) (s : Bytes) → (c == b' ') ≡ true → words (c ∷ s) ≡ words s
unfolding words
words-space c s h = rw h refl

words-skip : (s : Bytes) → words (drop_while is_sp s) ≡ words s
unfolding drop_while
words-skip [] = refl
words-skip (c ∷ s) = elim (Bool-cases (c == b' ')) [
  | inl e ↦ rw e (words-skip s ∙ sym (words-space c s e))
  | inr e ↦ rw e refl
]

parts-words : (t : Bytes) → non_empty_parts (parts_after b' ' t) ≡ words_after t
unfolding words
parts-words [] = refl
parts-words (c ∷ t) = refl

words-stop : (t : Bytes) → Stops not_sp t → words_after t ≡ words t
unfolding words
words-stop [] h = refl
words-stop (c ∷ t) h = sym (words-space c t (ground arith))

token-ne : (c : ℕ) (s : Bytes) → (c == b' ') ≡ false → null (take_while not_sp (c ∷ s)) ≡ false
unfolding take_while
token-ne c s h = rw h refl

pub words-nil : words [] ≡ []
unfolding words split_at
words-nil = refl

-- A text that does not start with a space starts with its first word.
words-token :
    (c : ℕ) (s : Bytes)
    → (c == b' ') ≡ false
    → words (c ∷ s) ≡ take_while not_sp (c ∷ s) ∷ words (drop_while not_sp (c ∷ s))
unfolding words
words-token c s h =
    ap non_empty_parts (split_at-part b' ' (c ∷ s))
    ∙ rw (token-ne c s h) refl
    ∙ ap (λ l. take_while not_sp (c ∷ s) ∷ l)
        (parts-words (drop_while not_sp (c ∷ s))
          ∙ words-stop (drop_while not_sp (c ∷ s)) (Stops-drop_while not_sp (c ∷ s)))

length-token :
    (c : ℕ) (s : Bytes)
    → (c == b' ') ≡ false
    → length (words (c ∷ s)) ≡ suc (length (words (drop_while not_sp s)))
unfolding drop_while
length-token c s h = ap length (words-token c s h) ∙ rw h refl

pub count_tokens-words :
    (s : Bytes)
    → (count_tokens false s ≡ length (words s))
      × (count_tokens true s ≡ length (words (drop_while not_sp s)))
unfolding count_tokens drop_while
count_tokens-words [] = (ap length (sym words-nil), ap length (sym words-nil))
count_tokens-words (c ∷ s) =
    let (out, inside) = count_tokens-words s in
    elim (Bool-cases (c == b' ')) [
      | inl e ↦
          let same : length (words s) ≡ length (words (c ∷ s)) =
            ap length (sym (words-space c s e)) in
          rw e (out ∙ same, out ∙ same)
      | inr e ↦ rw e (ap suc inside ∙ sym (length-token c s e), inside)
    ]

-- The words of a text that has one.
first_word :
    (q : Bytes)
    → 1 ≤ length (words q)
    → words q
      ≡ take_while not_sp (drop_while is_sp q) ∷ words (drop_while not_sp (drop_while is_sp q))
first_word q h = go (drop_while is_sp q) (Stops-drop_while is_sp q) (words-skip q)
  where
    go :
        (start : Bytes)
        → Stops is_sp start
        → words start ≡ words q
        → words q ≡ take_while not_sp start ∷ words (drop_while not_sp start)
    go [] st e = absurd (omega (arith, ap length (sym words-nil ∙ e)))
    go (c ∷ s) st e = sym e ∙ words-token c s st

nil_of : (l : List Bytes) → length l ≡ 0 → l ≡ []
nil_of [] h = refl
nil_of (x ∷ l) h = absurd (omega (arith, h))

later_passes :
    (n : ℕ) (q : Bytes)
    → length (words q) ≡ n
    → (write_tokens false n q ≡ more_servers (words q))
      × (measure_tokens n q ≡ servers_size (words q))
unfolding write_tokens measure_tokens more_servers servers_size
later_passes zero q h = rw (nil_of (words q) h) (refl, refl)
later_passes (suc n) q h =
    let token = take_while not_sp (drop_while is_sp q) in
    let rest = drop_while not_sp (drop_while is_sp q) in
    let split = first_word q (omega arith) in
    let (w, m) = later_passes n rest (omega (arith, ap length split)) in
    rw split (ap (λ t. b',' ∷ (quoted token ++ t)) w, ap (λ k. length token * 2 + 2 + k) m)

-- The second and the third pass on the words of the list.
pub passes :
    (n : ℕ) (q : Bytes)
    → length (words q) ≡ n
    → (write_tokens true n q ≡ server_list (words q))
      × (measure_tokens n q ≡ servers_size (words q))
unfolding write_tokens measure_tokens server_list servers_size
passes zero q h = rw (nil_of (words q) h) (refl, refl)
passes (suc n) q h =
    let token = take_while not_sp (drop_while is_sp q) in
    let rest = drop_while not_sp (drop_while is_sp q) in
    let split = first_word q (omega arith) in
    let (w, m) = later_passes n rest (omega (arith, ap length split)) in
    rw split (ap (λ t. quoted token ++ t) w, ap (λ k. length token * 2 + 2 + k) m)
