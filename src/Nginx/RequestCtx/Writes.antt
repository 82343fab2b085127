-- ===== src/Nginx/RequestCtx/Writes.antt =====
-- What the two passes do with the headers and the cookies of a request.
use go_mesi.Base.{
  ℕ, zero, suc, ◌≤◌, ◌<◌, Bool, true, false, not, List, [], ◌∷◌, ◌++◌, Bytes, codes, ◌==◌,
  if◌then◌else◌, length, append_assoc, append-nil, ◌≡◌, refl, sym, ap, ◌∙◌, arith, Bool-cases, inl,
  inr,
}
use go_mesi.Json.Text.{escape, json_string}
use go_mesi.Apache.RequestCtx.{CookieStep, finished, skipped, found, next_cookie}
use go_mesi.Apache.RequestCtx.Writes.{comma_text, header_text, cookie_text}
use go_mesi.Apache.RequestCtx.Cookies.{cookies, cookies-nil, Round, next_cookie-Round}
use go_mesi.Apache.RequestCtx.Loops.{headers_text, cookies_text}
use go_mesi.Nginx.Render.{mesi_json_append_str}
use go_mesi.Nginx.Render.Exact.{mesi_json_append_str-json_string}
use go_mesi.Nginx.RequestCtx.{
  Header, is_cookie, cookie_loop, Out, comma, put_header, write_headers, put_cookie,
  write_cookie_headers,
}

-- The entries that the two loops keep.
unfoldable pub live_headers : List Header → List (Bytes × Bytes)
live_headers [] = []
live_headers (h ∷ hs) =
    if h.hash == 0
    then live_headers hs
    else if is_cookie h
    then live_headers hs
    else (h.key, h.value) ∷ live_headers hs

unfoldable pub live_cookies : List Header → List (Bytes × Bytes)
live_cookies [] = []
live_cookies (h ∷ hs) =
    if h.hash == 0
    then live_cookies hs
    else if is_cookie h
    then cookies h.value ++ live_cookies hs
    else live_cookies hs

module _ {A : Type 0} (step : Bytes → Bytes → A → A) where
  -- A step for each pair in order.
  abbrev pub each : List (Bytes × Bytes) → A → A
  each [] a = a
  each ((n, v) ∷ l) a = each l (step n v a)

  pub each-append : (l m : List (Bytes × Bytes)) (a : A) → each (l ++ m) a ≡ each m (each l a)
  each-append [] m a = refl
  each-append ((n, v) ∷ l) m a = each-append l m (step n v a)

  cookie_loop-step :
      (fuel c : ℕ) (s : Bytes) (a : A) (r : CookieStep)
      → Round (c ∷ s) r
      → next_cookie (c ∷ s) ≡ r
      → ((rest : Bytes) (b : A)
          → length rest < length (c ∷ s)
          → cookie_loop step fuel b rest ≡ each (cookies rest) b)
      → cookie_loop step (suc fuel) a (c ∷ s) ≡ each (cookies (c ∷ s)) a
  unfolding cookie_loop
  cookie_loop-step fuel c s a finished e n later = rw (n, cookie_loop) (rw e refl)
  cookie_loop-step fuel c s a (skipped rest) (e, l) n later =
      rw (n, cookie_loop) (rw e (later rest a l))
  cookie_loop-step fuel c s a (found name val rest) (e, l) n later =
      rw (n, cookie_loop) (rw e (later rest (step name val a) l))

  -- As many rounds as the header has bytes are enough.
  pub cookie_loop-each :
      (fuel : ℕ) (s : Bytes) (a : A)
      → length s ≤ fuel
      → cookie_loop step fuel a s ≡ each (cookies s) a
  unfolding cookie_loop
  cookie_loop-each fuel [] a h = rw cookies-nil refl
  cookie_loop-each zero (c ∷ s) a h = absurd (omega arith)
  cookie_loop-each (suc fuel) (c ∷ s) a h =
      cookie_loop-step fuel c s a (next_cookie (c ∷ s)) (next_cookie-Round (c ∷ s)) refl
        (λ rest b l. cookie_loop-each fuel rest b (omega arith))

pub write_cookie_headers-each :
    (hs : List Header) (o : Out) → write_cookie_headers o hs ≡ each put_cookie (live_cookies hs) o
unfolding write_cookie_headers live_cookies
write_cookie_headers-each [] o = refl
write_cookie_headers-each (h ∷ hs) o = elim (Bool-cases (h.hash == 0)) [
  | inl e ↦ rw e (write_cookie_headers-each hs o)
  | inr e ↦ elim (Bool-cases (is_cookie h)) [
    | inr c ↦ rw (e, c) (write_cookie_headers-each hs o)
    | inl c ↦
        rw (e, c)
          (ap (λ x. write_cookie_headers x hs)
              (cookie_loop-each put_cookie (length h.value) h.value o (omega arith))
            ∙ write_cookie_headers-each hs (each put_cookie (cookies h.value) o)
            ∙ sym (each-append put_cookie (cookies h.value) (live_cookies hs) o))
  ]
]

abbrev pub put_pair : Bytes → Bytes → Out → Out
put_pair k v = put_header (record { hash = 1; key = k; value = v })

pub write_headers-each :
    (hs : List Header) (o : Out) → write_headers o hs ≡ each put_pair (live_headers hs) o
unfolding write_headers live_headers
write_headers-each [] o = refl
write_headers-each (h ∷ hs) o = elim (Bool-cases (h.hash == 0)) [
  | inl e ↦ rw e (write_headers-each hs o)
  | inr e ↦ elim (Bool-cases (is_cookie h)) [
    | inl c ↦ rw (e, c) (write_headers-each hs o)
    | inr c ↦ rw (e, c) (write_headers-each hs (put_header h o))
  ]
]

string_text : (s t : Bytes) → mesi_json_append_str s ++ t ≡ b'"' ∷ (escape s ++ b'"' ∷ t)
unfolding json_string
string_text s t =
    ap (λ u. u ++ t) (mesi_json_append_str-json_string s).0
    ∙ ap (λ u. b'"' ∷ u) (append_assoc (escape s) (b'"' ∷ []) t)

pub string_end : (s : Bytes) → mesi_json_append_str s ≡ b'"' ∷ (escape s ++ b'"' ∷ [])
unfolding json_string
string_end s = (mesi_json_append_str-json_string s).0

header_same :
    (k v : Bytes)
    → mesi_json_append_str k ++ (codes ":" ++ mesi_json_append_str v) ≡ header_text k v
header_same k v = rw (string_end v) (string_text k _)

cookie_same :
    (n v : Bytes)
    → codes "{\"name\":"
        ++ (mesi_json_append_str n
            ++ (codes ",\"value\":" ++ (mesi_json_append_str v ++ codes "}")))
      ≡ cookie_text n v
cookie_same n v =
    rw (string_text v (codes "}")) (ap (λ t. codes "{\"name\":" ++ t) (string_text n _))

comma_same : (b : Bool) → comma b ≡ comma_text (not b)
comma_same true = refl
comma_same false = refl

-- The texts of the entries, behind what was written before.
each-headers_text :
    (l : List (Bytes × Bytes)) (o : Out)
    → (each put_pair l o).text ≡ o.text ++ headers_text (not o.some_entry) l
unfolding headers_text
each-headers_text [] o = sym (append-nil o.text)
each-headers_text ((k, v) ∷ l) o =
    each-headers_text l (put_pair k v o)
    ∙ append_assoc o.text _ (headers_text false l)
    ∙ rw (header_same k v, comma_same o.some_entry) refl

each-cookies_text :
    (l : List (Bytes × Bytes)) (o : Out)
    → (each put_cookie l o).text ≡ o.text ++ cookies_text (not o.some_entry) l
unfolding cookies_text
each-cookies_text [] o = sym (append-nil o.text)
each-cookies_text ((n, v) ∷ l) o =
    each-cookies_text l (put_cookie n v o)
    ∙ append_assoc o.text _ (cookies_text false l)
    ∙ rw (cookie_same n v, comma_same o.some_entry) refl

pub write_headers-text :
    (hs : List Header) (o : Out)
    → (write_headers o hs).text ≡ o.text ++ headers_text (not o.some_entry) (live_headers hs)
write_headers-text hs o =
    ap (λ (x : Out). x.text) (write_headers-each hs o) ∙ each-headers_text (live_headers hs) o

pub write_cookies-text :
    (hs : List Header) (o : Out)
    → (write_cookie_headers o hs).text ≡ o.text ++ cookies_text (not o.some_entry) (live_cookies hs)
write_cookies-text hs o =
    ap (λ (x : Out). x.text) (write_cookie_headers-each hs o)
    ∙ each-cookies_text (live_cookies hs) o
