-- ===== src/Nginx/Render.antt =====
-- servers/nginx/ngx_http_mesi_module.c: the functions that measure and write the parts of a JSON
-- text. An ngx_str_t is the list of its len bytes, and a write returns what it appends.
pub mod Exact
use go_mesi.Base.{
  ℕ, zero, suc, ◌+◌, ◌/◌, ◌%◌, Bool, ◌||◌, List, [], ◌∷◌, ◌++◌, Bytes, ltb, ◌==◌, if◌then◌else◌,
  length,
}
use go_mesi.Json.Text.{hex_digit}

unfoldable pub mesi_json_escaped_len : Bytes → ℕ
mesi_json_escaped_len [] = 0
mesi_json_escaped_len (c ∷ s) =
    (if c == b'"' || c == b'\\' then 2 else if ltb c 0x20 then 6 else 1) + mesi_json_escaped_len s

unfoldable pub mesi_json_write_escaped : Bytes → Bytes
mesi_json_write_escaped [] = []
mesi_json_write_escaped (c ∷ s) =
    (if c == b'"' || c == b'\\'
      then b'\\' ∷ c ∷ []
      else if ltb c 0x20
      then b'\\' ∷ b'u' ∷ b'0' ∷ b'0' ∷ hex_digit (c / 16 % 16) ∷ hex_digit (c % 16) ∷ []
      else c ∷ [])
    ++ mesi_json_write_escaped s

unfoldable pub mesi_json_append_str : Bytes → Bytes
unfolding mesi_json_write_escaped
mesi_json_append_str s = b'"' ∷ (mesi_json_write_escaped s ++ b'"' ∷ [])

-- while (v >= 10) { v /= 10; n++; }: the fuel is the number of rounds.
unfoldable pub len_from : ℕ → ℕ → ℕ
len_from zero v = 1
len_from (suc fuel) v = let more = len_from fuel (v / 10) in if ltb v 10 then 1 else 1 + more

-- A value has fewer digits than it is large, but for the one of 0.
unfoldable pub mesi_json_uint_len : ℕ → ℕ
unfolding len_from
mesi_json_uint_len v = len_from v v

unfoldable pub mesi_json_off_len : ℕ → ℕ
unfolding len_from
mesi_json_off_len v = len_from v v

-- do { digits[n++] = '0' + v % 10; v /= 10; } while (v > 0): the lowest digit comes first.
unfoldable pub digits_of : ℕ → ℕ → Bytes
digits_of zero v = []
digits_of (suc fuel) v =
    let more = digits_of fuel (v / 10) in (b'0' + v % 10) ∷ (if ltb 0 (v / 10) then more else [])

-- while (n > 0) { *(*w)++ = digits[--n]; }: the last one first, in front of what follows.
unfoldable pub backwards : Bytes → Bytes → Bytes
backwards [] out = out
backwards (d ∷ ds) out = backwards ds (d ∷ out)

unfoldable pub mesi_json_write_uint : ℕ → Bytes
unfolding digits_of backwards
mesi_json_write_uint v = backwards (digits_of (suc v) v) []

unfoldable pub mesi_json_write_off : ℕ → Bytes
unfolding digits_of backwards
mesi_json_write_off v = backwards (digits_of (suc v) v) []

-- What a builder returns: a text, NULL after a failed allocation, or nothing, after a write behind
-- the end of its buffer.
pub data Built : Type 0 where
  built : Bytes → Built
  no_pool : Built
  overrun : Built

-- The text and its NUL, written into a buffer of `total` bytes.
unfoldable pub fill : ℕ → Bytes → Built
fill total text = if ltb total (length text + 1) then overrun else built text
