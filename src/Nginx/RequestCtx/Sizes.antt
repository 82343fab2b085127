-- ===== src/Nginx/RequestCtx/Sizes.antt =====
-- The first pass measures what the second one writes.
use go_mesi.Base.{
  ℕ, suc, ◌+◌, true, false, List, [], ◌∷◌, ◌++◌, Bytes, codes, ltb, ◌==◌, if◌then◌else◌, length,
  length-append, ◌≡◌, refl, ap, arith, Bool-cases, inl, inr,
}
use go_mesi.Json.Text.{escape, json_string}
use go_mesi.Apache.RequestCtx.Writes.{comma_text, header_text, cookie_text}
use go_mesi.Apache.RequestCtx.Cookies.{cookies}
use go_mesi.Apache.RequestCtx.Loops.{headers_text, cookies_text}
use go_mesi.Nginx.Render.{mesi_json_escaped_len}
use go_mesi.Nginx.Render.Exact.{mesi_json_append_str-json_string}
use go_mesi.Nginx.RequestCtx.{Header, is_cookie, Measured, add_cookie, add_header, measure}
use go_mesi.Nginx.RequestCtx.Writes.{live_headers, live_cookies, each, cookie_loop-each}

abbrev comma_size : ℕ → ℕ
comma_size n = if ltb 1 (n + 1) then 1 else 0

-- The sizes that are added for the entries behind `n` others.
headers_size : ℕ → List (Bytes × Bytes) → ℕ
headers_size n [] = 0
headers_size n ((k, v) ∷ l) =
    (5 + mesi_json_escaped_len k + mesi_json_escaped_len v) + comma_size n + headers_size (n + 1) l

cookies_size : ℕ → List (Bytes × Bytes) → ℕ
cookies_size n [] = 0
cookies_size n ((k, v) ∷ l) =
    (22 + mesi_json_escaped_len k + mesi_json_escaped_len v) + comma_size n + cookies_size (n + 1) l

cookies_size-append :
    (l k : List (Bytes × Bytes)) (n : ℕ)
    → cookies_size n (l ++ k) ≡ cookies_size n l + cookies_size (n + length l) k
unfolding cookies_size
cookies_size-append [] k n = omega (arith, ap (λ i. cookies_size i k) (plus_zero n))
  where
    plus_zero : (n : ℕ) → n + 0 ≡ n
    plus_zero n = omega arith
cookies_size-append (x ∷ l) k n =
    omega (arith, cookies_size-append l k (n + 1), ap (λ i. cookies_size i k) (shift n (length l)))
  where
    shift : (n m : ℕ) → n + 1 + m ≡ n + suc m
    shift n m = omega arith

each-add_cookie :
    (l : List (Bytes × Bytes)) (m : Measured)
    → ((each add_cookie l m).total ≡ m.total + cookies_size m.n_cookies l)
      × ((each add_cookie l m).n_headers ≡ m.n_headers)
      × ((each add_cookie l m).n_cookies ≡ m.n_cookies + length l)
unfolding cookies_size
each-add_cookie [] m = (omega arith, refl, omega arith)
each-add_cookie ((k, v) ∷ l) m =
    let (t, h, c) = each-add_cookie l (add_cookie k v m) in (omega (arith, t), h, omega (arith, c))

measure-size :
    (hs : List Header) (m : Measured)
    → (measure m hs).total
      ≡ m.total
        + headers_size m.n_headers (live_headers hs)
        + cookies_size m.n_cookies (live_cookies hs)
unfolding measure live_headers live_cookies headers_size cookies_size
measure-size [] m = omega arith
measure-size (h ∷ hs) m = elim (Bool-cases (h.hash == 0)) [
  | inl e ↦ rw e (measure-size hs m)
  | inr e ↦ elim (Bool-cases (is_cookie h)) [
    | inr c ↦ rw (e, c) (omega (arith, measure-size hs (add_header h m)))
    | inl c ↦
        let loop = cookie_loop-each add_cookie (length h.value) h.value m (omega arith) in
        let (t, n, k) = each-add_cookie (cookies h.value) m in
        let more = cookies_size-append (cookies h.value) (live_cookies hs) m.n_cookies in
        rw (e, c, loop)
          (omega (
            arith,
            measure-size hs (each add_cookie (cookies h.value) m),
            t,
            ap (λ i. headers_size i (live_headers hs)) n,
            ap (λ i. cookies_size i (live_cookies hs)) k,
            more,
          ))
  ]
]

escaped_size : (s : Bytes) → length (escape s) ≡ mesi_json_escaped_len s
unfolding json_string
escaped_size s =
    let (same, len) = mesi_json_append_str-json_string s in
    omega (arith, ap length same, len, length-append (escape s) (b'"' ∷ []))

header_size :
    (k v : Bytes) → length (header_text k v) ≡ 5 + mesi_json_escaped_len k + mesi_json_escaped_len v
header_size k v =
    let tail = escape v ++ codes "\"" in
    omega (
      arith,
      length-append (escape k) (codes "\":\"" ++ tail),
      length-append (escape v) (codes "\""),
      escaped_size k,
      escaped_size v,
    )

cookie_size :
    (k v : Bytes)
    → length (cookie_text k v) ≡ 22 + mesi_json_escaped_len k + mesi_json_escaped_len v
cookie_size k v =
    let tail = escape v ++ codes "\"}" in
    omega (
      arith,
      length-append (escape k) (codes "\",\"value\":\"" ++ tail),
      length-append (escape v) (codes "\"}"),
      escaped_size k,
      escaped_size v,
    )

length-comma : (n : ℕ) → length (comma_text (n == 0)) ≡ comma_size n
length-comma n = ground arith

not_first : (n : ℕ) → (n + 1 == 0) ≡ false
not_first n = ground arith

length-headers_text :
    (l : List (Bytes × Bytes)) (n : ℕ) → length (headers_text (n == 0) l) ≡ headers_size n l
unfolding headers_text headers_size
length-headers_text [] n = refl
length-headers_text ((k, v) ∷ l) n =
    let later : length (headers_text false l) ≡ headers_size (n + 1) l =
      (rw (not_first n) at (length-headers_text l (n + 1))) in
    omega (
      arith,
      length-append (comma_text (n == 0) ++ header_text k v) (headers_text false l),
      length-append (comma_text (n == 0)) (header_text k v),
      length-comma n,
      header_size k v,
      later,
    )

length-cookies_text :
    (l : List (Bytes × Bytes)) (n : ℕ) → length (cookies_text (n == 0) l) ≡ cookies_size n l
unfolding cookies_text cookies_size
length-cookies_text [] n = refl
length-cookies_text ((k, v) ∷ l) n =
    let later : length (cookies_text false l) ≡ cookies_size (n + 1) l =
      (rw (not_first n) at (length-cookies_text l (n + 1))) in
    omega (
      arith,
      length-append (comma_text (n == 0) ++ cookie_text k v) (cookies_text false l),
      length-append (comma_text (n == 0)) (cookie_text k v),
      length-comma n,
      cookie_size k v,
      later,
    )

-- The first pass from its first count: the lengths of the two lists as they are written.
pub measure-length :
    (hs : List Header) (start : ℕ)
    → (measure (record { total = start; n_headers = 0; n_cookies = 0 }) hs).total
      ≡ start
        + length (headers_text true (live_headers hs))
        + length (cookies_text true (live_cookies hs))
measure-length hs start = omega (
  arith,
  measure-size hs (record { total = start; n_headers = 0; n_cookies = 0 }),
  length-headers_text (live_headers hs) 0,
  length-cookies_text (live_cookies hs) 0,
)
