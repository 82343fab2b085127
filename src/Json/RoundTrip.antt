-- ===== src/Json/RoundTrip.antt =====
-- Every JSON value reads back from its text.
use go_mesi.Base.{
  ℕ, zero, suc, ◌≤◌, true, false, [], ◌∷◌, ◌++◌, none, some, Bytes, ◌==◌, ◌≡◌, refl, ap, ◌∙◌, arith,
  append_assoc, Stops, is_digit, ℤ, pos, negsuc,
}
use go_mesi.Json.Text.{json_string-append, json_string, read_json_string-escape}
use go_mesi.Json.Number.{read_int, show_int, show_nat, read_int-show_int, show_nat-head}
use go_mesi.Json.Value.{
  Json, str, num, bool, arr, obj, Items, nil, cons, Fields, end, field, print, print_items,
  more_items, print_fields, more_fields, size, size_items, size_fields,
}
use go_mesi.Json.Read.{
  after, other, kind, read_key, read, read_items, read_more_items, read_fields, read_more_fields,
}

-- The first byte of a number, which names its kind.
show_int-head :
    (z : ℤ)
    → (c : ℕ) × (s : Bytes) × (show_int z ≡ c ∷ s) × (kind c ≡ other) × ((c == b']') ≡ false)
unfolding kind show_int
show_int-head (pos n) = let (c, s, e, d) = show_nat-head n in (c, s, e, ground arith, ground arith)
show_int-head (negsuc n) = (b'-', show_nat (suc n), refl, refl, refl)

-- A value does not begin with the bracket that closes a list.
print-head : (j : Json) (rest : Bytes) → after (b']' ∷ []) (print j ++ rest) ≡ none
unfolding print after
print-head (str s) rest = rw json_string-append
print-head (num z) rest = let (c, s, e, k, ne) = show_int-head z in rw e (rw ne refl)
print-head (bool true) rest = refl
print-head (bool false) rest = refl
print-head (arr xs) rest = refl
print-head (obj fs) rest = refl

read-num :
    (z : ℤ) (f : ℕ) (rest : Bytes)
    → Stops is_digit rest
    → read (suc f) (show_int z ++ rest) ≡ some (num z, rest)
unfolding read
read-num z f rest st =
    let (c, s, e, k, ne) = show_int-head z in
    let back : read_int (c ∷ s ++ rest) ≡ some (z, rest) = rw e at (read_int-show_int z rest st) in
    rw e (rw (k, read) (rw back refl))

read_key-print : (k rest : Bytes) → read_key (json_string (some k) ++ b':' ∷ rest) ≡ some (k, rest)
unfolding read_key
read_key-print k rest = rw json_string-append (rw (read_json_string-escape k (b':' ∷ rest)) refl)

size-pos : (j : Json) → 1 ≤ size j
unfolding size
size-pos (arr xs) = omega arith
size-pos (obj fs) = omega arith
size-pos _ = omega arith

more_items-Stops : (xs : Items) (rest : Bytes) → Stops is_digit (more_items xs ++ rest)
unfolding print
more_items-Stops nil rest = refl
more_items-Stops (cons x xs) rest = refl

more_fields-Stops : (fs : Fields) (rest : Bytes) → Stops is_digit (more_fields fs ++ rest)
unfolding print
more_fields-Stops end rest = refl
more_fields-Stops (field k v fs) rest = refl

-- One round of each reader, on what its parts read.
module _ (f : ℕ) (s : Bytes) {r r' : Bytes} where
  read_items-step :
      (x : Json) (xs : Items)
      → after (b']' ∷ []) s ≡ none
      → read f s ≡ some (x, r)
      → read_more_items f r ≡ some (xs, r')
      → read_items (suc f) s ≡ some (cons x xs, r')
  unfolding read
  read_items-step x xs e p q = rw (e, read_items) (rw p (rw q refl))

  read_more_items-step :
      (x : Json) (xs : Items)
      → read f s ≡ some (x, r)
      → read_more_items f r ≡ some (xs, r')
      → read_more_items (suc f) (b',' ∷ s) ≡ some (cons x xs, r')
  unfolding read
  read_more_items-step x xs p q = rw p (rw q refl)

  read_fields-step :
      (k : Bytes) (v : Json) (fs : Fields) (t : Bytes)
      → after (b'}' ∷ []) t ≡ none
      → read_key t ≡ some (k, s)
      → read f s ≡ some (v, r)
      → read_more_fields f r ≡ some (fs, r')
      → read_fields (suc f) t ≡ some (field k v fs, r')
  unfolding read
  read_fields-step k v fs t a e p q = rw (a, read_fields) (rw e (rw p (rw q refl)))

  read_more_fields-step :
      (k : Bytes) (v : Json) (fs : Fields) (t : Bytes)
      → read_key t ≡ some (k, s)
      → read f s ≡ some (v, r)
      → read_more_fields f r ≡ some (fs, r')
      → read_more_fields (suc f) (b',' ∷ t) ≡ some (field k v fs, r')
  unfolding read
  read_more_fields-step k v fs t e p q = rw e (rw p (rw q refl))

-- The text of a list and of an object, cut before what follows it.
module _ (rest : Bytes) where
  print_items-cons :
      (x : Json) (xs : Items) → print_items (cons x xs) ++ rest ≡ print x ++ (more_items xs ++ rest)
  unfolding print
  print_items-cons x xs = append_assoc (print x) (more_items xs) rest

  more_items-cons :
      (x : Json) (xs : Items)
      → more_items (cons x xs) ++ rest ≡ b',' ∷ (print x ++ (more_items xs ++ rest))
  unfolding print
  more_items-cons x xs = ap (λ t. b',' ∷ t) (append_assoc (print x) (more_items xs) rest)

  print_fields-field :
      (k : Bytes) (v : Json) (fs : Fields)
      → print_fields (field k v fs) ++ rest
        ≡ json_string (some k) ++ b':' ∷ (print v ++ (more_fields fs ++ rest))
  unfolding print
  print_fields-field k v fs =
      append_assoc (json_string (some k)) (b':' ∷ (print v ++ more_fields fs)) rest
      ∙ ap (λ t. json_string (some k) ++ b':' ∷ t) (append_assoc (print v) (more_fields fs) rest)

  more_fields-field :
      (k : Bytes) (v : Json) (fs : Fields)
      → more_fields (field k v fs) ++ rest
        ≡ b',' ∷ (json_string (some k) ++ b':' ∷ (print v ++ (more_fields fs ++ rest)))
  unfolding print
  more_fields-field k v fs =
      ap (λ t. b',' ∷ t)
        (append_assoc (json_string (some k)) (b':' ∷ (print v ++ more_fields fs)) rest
          ∙ ap (λ t. json_string (some k) ++ b':' ∷ t)
              (append_assoc (print v) (more_fields fs) rest))

key-head : (k rest : Bytes) → after (b'}' ∷ []) (json_string (some k) ++ rest) ≡ none
unfolding after
key-head k rest = rw json_string-append

-- The parts of a value whose readers are the functions below.
read-leaf :
    (f : ℕ) (j : Json) (rest : Bytes)
    → Stops is_digit rest
    → ((xs : Items) → size_items xs ≤ f → read_items f (print_items xs ++ rest) ≡ some (xs, rest))
    → ((fs : Fields)
        → size_fields fs ≤ f
        → read_fields f (print_fields fs ++ rest) ≡ some (fs, rest))
    → size j ≤ suc f
    → read (suc f) (print j ++ rest) ≡ some (j, rest)
unfolding read print size
read-leaf f (str s) rest st ia fa h =
    rw json_string-append (rw (read_json_string-escape s rest) refl)
read-leaf f (num z) rest st ia fa h = read-num z f rest st
read-leaf f (bool true) rest st ia fa h = refl
read-leaf f (bool false) rest st ia fa h = refl
read-leaf f (arr xs) rest st ia fa h = rw (ia xs (omega arith)) refl
read-leaf f (obj fs) rest st ia fa h = rw (fa fs (omega arith)) refl

bracket_end :
    (f : ℕ) (rest : Bytes)
    → (read_items (suc f) (print_items nil ++ rest) ≡ some (nil, rest))
      × (read_more_items (suc f) (more_items nil ++ rest) ≡ some (nil, rest))
      × (read_fields (suc f) (print_fields end ++ rest) ≡ some (end, rest))
      × (read_more_fields (suc f) (more_fields end ++ rest) ≡ some (end, rest))
unfolding read print
bracket_end f rest = (refl, refl, refl, refl)

size_items-pos : (xs : Items) → 1 ≤ size_items xs
unfolding size
size_items-pos nil = omega arith
size_items-pos (cons x xs) = omega arith

size_fields-pos : (fs : Fields) → 1 ≤ size_fields fs
unfolding size
size_fields-pos end = omega arith
size_fields-pos (field k v fs) = omega arith

size_cons :
    (f : ℕ) (x : Json) (xs : Items)
    → size_items (cons x xs) ≤ suc f
    → (size x ≤ f) × (size_items xs ≤ f)
unfolding size
size_cons f x xs h = omega arith

size_field :
    (f : ℕ) (k : Bytes) (v : Json) (fs : Fields)
    → size_fields (field k v fs) ≤ suc f
    → (size v ≤ f) × (size_fields fs ≤ f)
unfolding size
size_field f k v fs h = omega arith

mutual
  read-print :
      (f : ℕ) (j : Json) (rest : Bytes)
      → size j ≤ f
      → Stops is_digit rest
      → read f (print j ++ rest) ≡ some (j, rest)
  read-print zero j rest h st = absurd (omega (arith, size-pos j))
  read-print (suc f) j rest h st =
      read-leaf f j rest st (λ xs le. read_items-print f xs rest le)
        (λ fs le. read_fields-print f fs rest le) h

  read_items-print :
      (f : ℕ) (xs : Items) (rest : Bytes)
      → size_items xs ≤ f
      → read_items f (print_items xs ++ rest) ≡ some (xs, rest)
  read_items-print zero xs rest h = absurd (omega (arith, size_items-pos xs))
  read_items-print (suc f) nil rest h = (bracket_end f rest).0
  read_items-print (suc f) (cons x xs) rest h = rw print_items-cons (
      read_items-step f _ x xs (print-head x _)
        (read-print f x _ (size_cons f x xs h).0 (more_items-Stops xs rest))
        (read_more-print f xs rest (size_cons f x xs h).1))

  read_more-print :
      (f : ℕ) (xs : Items) (rest : Bytes)
      → size_items xs ≤ f
      → read_more_items f (more_items xs ++ rest) ≡ some (xs, rest)
  read_more-print zero xs rest h = absurd (omega (arith, size_items-pos xs))
  read_more-print (suc f) nil rest h = (bracket_end f rest).1
  read_more-print (suc f) (cons x xs) rest h = rw more_items-cons (
      read_more_items-step f _ x xs
        (read-print f x _ (size_cons f x xs h).0 (more_items-Stops xs rest))
        (read_more-print f xs rest (size_cons f x xs h).1))

  read_fields-print :
      (f : ℕ) (fs : Fields) (rest : Bytes)
      → size_fields fs ≤ f
      → read_fields f (print_fields fs ++ rest) ≡ some (fs, rest)
  read_fields-print zero fs rest h = absurd (omega (arith, size_fields-pos fs))
  read_fields-print (suc f) end rest h = (bracket_end f rest).2
  read_fields-print (suc f) (field k v fs) rest h = rw print_fields-field (
      read_fields-step f _ k v fs _ (key-head k _) (read_key-print k _)
        (read-print f v _ (size_field f k v fs h).0 (more_fields-Stops fs rest))
        (read_more_fields-print f fs rest (size_field f k v fs h).1))

  read_more_fields-print :
      (f : ℕ) (fs : Fields) (rest : Bytes)
      → size_fields fs ≤ f
      → read_more_fields f (more_fields fs ++ rest) ≡ some (fs, rest)
  read_more_fields-print zero fs rest h = absurd (omega (arith, size_fields-pos fs))
  read_more_fields-print (suc f) end rest h = (bracket_end f rest).3
  read_more_fields-print (suc f) (field k v fs) rest h = rw more_fields-field (
      read_more_fields-step f _ k v fs _ (read_key-print k _)
        (read-print f v _ (size_field f k v fs h).0 (more_fields-Stops fs rest))
        (read_more_fields-print f fs rest (size_field f k v fs h).1))

-- A value reads back from its text, in front of a text that does not go on with a digit.
pub read-print_lem :
    (j : Json) (rest : Bytes)
    → Stops is_digit rest
    → read (size j) (print j ++ rest) ≡ some (j, rest)
read-print_lem j rest st = read-print (size j) j rest (omega arith) st
