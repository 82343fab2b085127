-- ===== src/Json/Text.antt =====
-- JSON strings: the escape that servers/apache/parse_json_config.h and mod_mesi.c write, and a
-- reader of such strings.
use go_mesi.Base.{
  ℕ, ◌+◌, ◌-◌, ◌*◌, ◌/◌, ◌%◌, ◌≤◌, ◌<◌, ◌&&◌, ◌||◌, [], ◌∷◌, ◌++◌, Option, none, some, Bytes, ltb,
  leb, ◌==◌, if◌then◌else◌, ◌≡◌, ap, ◌∙◌, arith, is_control, append_assoc, append-nil,
  length-append, length, or_else,
}

-- hex[n]
abbrev pub hex_digit : ℕ → ℕ
hex_digit n = if ltb n 10 then b'0' + n else b'a' + (n - 10)

-- What the loop of mesi_json_string writes for one byte.
unfoldable pub escape_byte : ℕ → Bytes
escape_byte c =
    if c == b'"'
    then b'\\' ∷ b'"' ∷ []
    else if c == b'\\'
    then b'\\' ∷ b'\\' ∷ []
    else if is_control c
    then b'\\' ∷ b'u' ∷ b'0' ∷ b'0' ∷ hex_digit (c / 16 % 16) ∷ hex_digit (c % 16) ∷ []
    else c ∷ []

unfoldable pub escape : Bytes → Bytes
escape [] = []
escape (c ∷ s) = escape_byte c ++ escape s

-- mesi_json_string: NULL is rendered as the empty string.
unfoldable pub json_string : Option Bytes → Bytes
json_string s = b'"' ∷ (escape (or_else s []) ++ b'"' ∷ [])

length-escape_byte : (c : ℕ) → (1 ≤ length (escape_byte c)) × (length (escape_byte c) ≤ 6)
unfolding escape_byte
length-escape_byte c = ground arith

length-escape : (s : Bytes) → length (escape s) ≤ length s * 6
unfolding escape
length-escape [] = omega arith
length-escape (c ∷ s) =
    omega (arith, length-append (escape_byte c) (escape s), length-escape_byte c, length-escape s)

-- The buffer of len * 6 + 3 bytes holds the string and its NUL.
pub length-json_string : (s : Bytes) → length (json_string (some s)) + 1 ≤ length s * 6 + 3
unfolding json_string
length-json_string s = omega (arith, length-append (escape s) (b'"' ∷ []), length-escape s)

-- A reader of the text behind an opening quote. Of the \u escapes it knows those of ASCII.
pub data Mode : Type 0 where
  plain slash : Mode
  hex : ℕ → ℕ → Mode

pub data Step : Type 0 where
  bad stop : Step
  go : Mode → Bytes → Step

hex_value : ℕ → Option ℕ
hex_value c =
    if leb b'0' c && leb c b'9'
    then some (c - b'0')
    else if leb b'a' c && leb c b'f'
    then some (c - b'a' + 10)
    else none

-- the fourth digit ends the escape
hex_step : ℕ → ℕ → Bytes → ℕ → Step
hex_step left v out d =
    let v' = v * 16 + d in
    if left == 1
    then (if ltb v' 128 then go plain (out ++ v' ∷ []) else bad)
    else go (hex (left - 1) v') out

read_step : Mode → Bytes → ℕ → Step
read_step plain out c =
    if c == b'"'
    then stop
    else if c == b'\\'
    then go slash out
    else if is_control c
    then bad
    else go plain (out ++ c ∷ [])
read_step slash out c =
    if c == b'"' || c == b'\\' || c == b'/'
    then go plain (out ++ c ∷ [])
    else if c == b'u'
    then go (hex 4 0) out
    else bad
read_step (hex left v) out c = elim (hex_value c) [ none ↦ bad | some d ↦ hex_step left v out d ]

read_string : Mode → Bytes → Bytes → Option (Bytes × Bytes)
read_string m out [] = none
read_string m out (c ∷ s) = elim (read_step m out c) [
  | bad ↦ none
  | stop ↦ some (out, s)
  | go m' out' ↦ read_string m' out' s
]

-- The string behind an opening quote, and the text behind the closing one.
unfoldable pub read_json_string : Bytes → Option (Bytes × Bytes)
unfolding read_string read_step hex_step hex_value
read_json_string s = read_string plain [] s

hex_value-hex_digit : (n : ℕ) → n < 16 → hex_value (hex_digit n) ≡ some n
unfolding hex_value
hex_value-hex_digit n h = ground arith

read-escape_byte :
    (c : ℕ) (out rest : Bytes)
    → read_string plain out (escape_byte c ++ rest) ≡ read_string plain (out ++ c ∷ []) rest
unfolding read_string read_step hex_step escape_byte hex_value
read-escape_byte c out rest = ground arith

read-escape :
    (s out rest : Bytes) → read_string plain out (escape s ++ b'"' ∷ rest) ≡ some (out ++ s, rest)
unfolding escape
read-escape [] out rest = unfold read_string read_step in rw append-nil
read-escape (c ∷ s) out rest =
    rw append_assoc (read-escape_byte c out (escape s ++ b'"' ∷ rest))
    ∙ read-escape s (out ++ c ∷ []) rest
    ∙ rw append_assoc

pub json_string-append :
    (o : Option Bytes) (rest : Bytes)
    → json_string o ++ rest ≡ b'"' ∷ (escape (or_else o []) ++ b'"' ∷ rest)
unfolding json_string
json_string-append o rest =
    ap (λ t. b'"' ∷ t) (append_assoc (escape (or_else o [])) (b'"' ∷ []) rest)

-- A string reads back to its bytes, whatever they are, and to what follows it.
pub read_json_string-escape :
    (s rest : Bytes) → read_json_string (escape s ++ b'"' ∷ rest) ≡ some (s, rest)
unfolding read_json_string
read_json_string-escape s rest = read-escape s [] rest
