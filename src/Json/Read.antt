-- ===== src/Json/Read.antt =====
-- A reader of JSON texts without blanks, on fuel.
use go_mesi.Base.{
  ℕ, zero, suc, true, false, [], ◌∷◌, Option, none, some, Bytes, codes, ◌==◌, if◌then◌else◌,
}
use go_mesi.Json.Text.{read_json_string}
use go_mesi.Json.Number.{read_int}
use go_mesi.Json.Value.{Json, str, num, bool, arr, obj, Items, nil, cons, Fields, end, field}

infixl 5 ◌>>=◌
abbrev ◌>>=◌ : {A B : Type 0} → Option A → (A → Option B) → Option B
none >>= f = none
some a >>= f = f a

-- the text behind a given one
unfoldable pub after : Bytes → Bytes → Option Bytes
after [] s = some s
after (x ∷ p) [] = none
after (x ∷ p) (c ∷ s) = if c == x then after p s else none

pub data Kind : Type 0 where
  quote bracket brace letter_t letter_f other : Kind

unfoldable pub kind : ℕ → Kind
kind c =
    if c == b'"'
    then quote
    else if c == b'['
    then bracket
    else if c == b'{'
    then brace
    else if c == b't'
    then letter_t
    else if c == b'f'
    then letter_f
    else other

-- a key with its colon, behind the opening quote
unfoldable pub read_key : Bytes → Option (Bytes × Bytes)
unfolding after
read_key s = do
  q ← after (b'"' ∷ []) s
  (k, r) ← read_json_string q
  v ← after (b':' ∷ []) r
  some (k, v)

unfoldable mutual
  unfolding after kind read_key

  pub read : ℕ → Bytes → Option (Json × Bytes)
  read zero s = none
  read (suc f) [] = none
  read (suc f) (c ∷ s) = elim (kind c) [
    | quote ↦ do (t, r) ← read_json_string s; some (str t, r)
    | bracket ↦ do (xs, r) ← read_items f s; some (arr xs, r)
    | brace ↦ do (fs, r) ← read_fields f s; some (obj fs, r)
    | letter_t ↦ do r ← after (codes "rue") s; some (bool true, r)
    | letter_f ↦ do r ← after (codes "alse") s; some (bool false, r)
    | other ↦ do (z, r) ← read_int (c ∷ s); some (num z, r)
  ]

  pub read_items : ℕ → Bytes → Option (Items × Bytes)
  read_items zero s = none
  read_items (suc f) s = elim (after (b']' ∷ []) s) [
    | some r ↦ some (nil, r)
    | none ↦ do (x, r) ← read f s; (xs, r') ← read_more_items f r; some (cons x xs, r')
  ]

  pub read_more_items : ℕ → Bytes → Option (Items × Bytes)
  read_more_items zero s = none
  read_more_items (suc f) s = elim (after (b']' ∷ []) s) [
    | some r ↦ some (nil, r)
    | none ↦ do
      t ← after (b',' ∷ []) s
      (x, r) ← read f t
      (xs, r') ← read_more_items f r
      some (cons x xs, r')
  ]

  pub read_fields : ℕ → Bytes → Option (Fields × Bytes)
  read_fields zero s = none
  read_fields (suc f) s = elim (after (b'}' ∷ []) s) [
    | some r ↦ some (end, r)
    | none ↦ do
      (k, t) ← read_key s
      (v, r) ← read f t
      (fs, r') ← read_more_fields f r
      some (field k v fs, r')
  ]

  pub read_more_fields : ℕ → Bytes → Option (Fields × Bytes)
  read_more_fields zero s = none
  read_more_fields (suc f) s = elim (after (b'}' ∷ []) s) [
    | some r ↦ some (end, r)
    | none ↦ do
      u ← after (b',' ∷ []) s
      (k, t) ← read_key u
      (v, r) ← read f t
      (fs, r') ← read_more_fields f r
      some (field k v fs, r')
  ]
