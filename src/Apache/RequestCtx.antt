-- ===== src/Apache/RequestCtx.antt =====
-- servers/apache/mod_mesi.c: build_request_ctx_json, which writes the request's headers and
-- cookies as JSON into a buffer that grows.
pub mod Writes
pub mod Cookies
pub mod Loops
pub mod Blob
use go_mesi.Base.{
  ℕ, zero, suc, ◌+◌, ◌*◌, Bool, true, false, not, ◌&&◌, ◌||◌, List, [], ◌∷◌, ◌++◌, Option, none,
  some, Bytes, codes, ltb, ◌==◌, if◌then◌else◌, or_else, bytes_eq, null, length, take_while,
  drop_while, is_blank, ◌>>=◌,
}
use go_mesi.Json.Text.{escape_byte}
use go_mesi.Apache.Config.{Config, non_empty}
use go_mesi.Apache.Directive.{eq_ignore_case}
use go_mesi.Apache.Directive.Template.{contains}

-- The buffer: its capacity and the bytes written so far, whose number is pos.
pub record Buf : Type 0 where
  pub cap : ℕ
  pub text : Bytes

abbrev pub pos : Buf → ℕ
pos b = length b.text

-- while (pos + need >= ncap) ncap *= 2; the fuel is the number of rounds.
unfoldable pub double_until : ℕ → ℕ → ℕ → ℕ
double_until zero need ncap = ncap
double_until (suc fuel) need ncap =
    let more = double_until fuel need (ncap * 2) in if ltb need ncap then ncap else more

-- `need + 1` rounds are enough for a capacity that is not 0.
unfoldable pub json_grow : ℕ → Buf → Buf
unfolding double_until
json_grow need b =
    if ltb (pos b + need) b.cap
    then b
    else record b { cap = double_until (suc (pos b + need)) (pos b + need) (b.cap * 2) }

-- buf[pos++] = c for each byte in turn; none if one falls outside the buffer.
unfoldable pub put : Bytes → Buf → Option Buf
put s b = if ltb b.cap (pos b + length s) then none else some (record b { text = b.text ++ s })

-- A call of json_grow and the writes that follow it.
unfoldable pub grow_put : ℕ → Bytes → Buf → Option Buf
unfolding json_grow put
grow_put need s b = put s (json_grow need b)

-- The loop grows by the length of what it writes for each byte.
unfoldable pub json_escape_append : Bytes → Buf → Option Buf
unfolding grow_put
json_escape_append [] b = some b
json_escape_append (c ∷ s) b = do
  b' ← grow_put (length (escape_byte c)) (escape_byte c) b
  json_escape_append s b'

-- if (!first) { json_grow(..., 1); buf[pos++] = ','; }
unfoldable pub comma_unless : Bool → Buf → Option Buf
unfolding grow_put
comma_unless first b = if first then some b else grow_put 1 (codes ",") b

-- An entry of the table headers_in.
pub record Entry : Type 0 where
  pub key : Option Bytes
  pub val : Option Bytes

unfoldable pub put_header : Bool → Bytes → Bytes → Buf → Option Buf
unfolding comma_unless grow_put json_escape_append
put_header first k v b = do
  b1 ← comma_unless first b
  b2 ← grow_put 2 (codes "\"") b1
  b3 ← json_escape_append k b2
  b4 ← grow_put 3 (codes "\":\"") b3
  b5 ← json_escape_append v b4
  grow_put 1 (codes "\"") b5

-- if (!k || !v) continue; if (strcasecmp(k, "Cookie") == 0) continue;
unfoldable pub sent_header : Entry → Option (Bytes × Bytes)
sent_header e = elim e.key [
  | none ↦ none
  | some k ↦ elim e.val [
    | none ↦ none
    | some v ↦ if eq_ignore_case k (codes "Cookie") then none else some (k, v)
  ]
]

-- The loop over the headers.
unfoldable pub put_headers : Bool → List Entry → Buf → Option Buf
unfolding put_header
put_headers first [] b = some b
put_headers first (e ∷ es) b = elim (sent_header e) [
  | none ↦ put_headers first es b
  | some (k, v) ↦ do b' ← put_header first k v b; put_headers false es b'
]

-- What one round of the loop over the cookies finds.
pub data CookieStep : Type 0 where
  finished : CookieStep
  skipped : Bytes → CookieStep
  found : Bytes → Bytes → Bytes → CookieStep

-- while (len > 0 && (s[len - 1] == ' ' || s[len - 1] == '\t')) len--;
unfoldable pub trim_right : Bytes → Bytes
trim_right [] = []
trim_right (c ∷ s) = let rest = trim_right s in if null rest && is_blank c then [] else c ∷ rest

-- The end is trimmed first, then the start.
unfoldable pub trim : Bytes → Bytes
unfolding trim_right
trim s = drop_while is_blank (trim_right s)

abbrev pub not_semi : ℕ → Bool
not_semi c = not (c == b';')

abbrev pub in_name : ℕ → Bool
in_name c = not (c == b'=') && not_semi c

abbrev pub is_separator : ℕ → Bool
is_separator c = c == b' ' || c == b';' || c == b'\t'

-- The value stands between '=' and the next ';'.
unfoldable pub cookie_value : Bytes → Bytes → CookieStep
unfolding trim
cookie_value name s =
    let rest = drop_while not_semi s in
    if null (trim name) then skipped rest else found (trim name) (trim (take_while not_semi s)) rest

unfoldable pub cookie_name : Bytes → Bytes → CookieStep
unfolding cookie_value
cookie_name name [] = skipped []
cookie_name name (c ∷ s) =
    if c == b'=' then cookie_value name s else skipped (drop_while not_semi (c ∷ s))

unfoldable pub next_cookie : Bytes → CookieStep
unfolding cookie_name
next_cookie s =
    let start = drop_while is_separator s in
    if null start
    then finished
    else cookie_name (take_while in_name start) (drop_while in_name start)

unfoldable pub put_cookie : Bool → Bytes → Bytes → Buf → Option Buf
unfolding comma_unless grow_put json_escape_append
put_cookie first name val b = do
  b1 ← comma_unless first b
  b2 ← grow_put 20 (codes "{\"name\":\"") b1
  b3 ← json_escape_append name b2
  b4 ← grow_put 11 (codes "\",\"value\":\"") b3
  b5 ← json_escape_append val b4
  grow_put 3 (codes "\"}") b5

-- while (*c): the fuel is the number of rounds, and none stands for too few.
unfoldable pub put_cookies : ℕ → Bool → Bytes → Buf → Option Buf
unfolding next_cookie put_cookie
put_cookies fuel first [] b = some b
put_cookies zero first (c ∷ s) b = none
put_cookies (suc fuel) first (c ∷ s) b = elim (next_cookie (c ∷ s)) [
  | finished ↦ some b
  | skipped rest ↦ put_cookies fuel first rest b
  | found name val rest ↦ do b' ← put_cookie first name val b; put_cookies fuel false rest b'
]

-- The text, with the NUL inside the buffer.
unfoldable pub terminate : Buf → Option Bytes
terminate b = if ltb (pos b) b.cap then some b.text else none

-- The whole object, from the entries of headers_in and the value of its Cookie.
unfoldable pub render_request : List Entry → Bytes → Option Bytes
unfolding put_headers put_cookies terminate
render_request headers cookie = do
  b1 ← put (codes "{\"headers\":{") (record { cap = 512; text = [] })
  b2 ← put_headers true headers b1
  b3 ← grow_put 12 (codes "},\"cookies\":[") b2
  b4 ← put_cookies (length cookie) true cookie b3
  b5 ← grow_put 3 (codes "]}") b4
  terminate b5

-- The template asks for a header or a cookie.
unfoldable pub needs_request : Option Bytes → Bool
needs_request none = false
needs_request (some t) = contains (codes "${header:") t || contains (codes "${cookie:") t

-- `table_get` is apr_table_get; none is a write outside the buffer or a loop that does not end.
unfoldable pub build_request_ctx_json :
    (List Entry → Bytes → Option Bytes) → Option (List Entry) → Config → Option Bytes
unfolding needs_request render_request
build_request_ctx_json table_get headers_in conf =
    if needs_request conf.cache_key_template
    then elim headers_in [
      | none ↦ render_request [] []
      | some headers ↦ render_request headers (or_else (table_get headers (codes "Cookie")) [])
    ]
    else some []
