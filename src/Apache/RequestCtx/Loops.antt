-- ===== src/Apache/RequestCtx/Loops.antt =====
-- What the loops over the headers and over the cookies append to the buffer.
use go_mesi.Base.{
  ℕ, zero, suc, ◌≤◌, ◌<◌, Bool, false, List, [], ◌∷◌, ◌++◌, Option, none, some, Bytes, length, ◌≡◌,
  refl, arith,
}
use go_mesi.Apache.RequestCtx.{
  Entry, sent_header, put_headers, CookieStep, finished, skipped, found, next_cookie, put_cookies,
}
use go_mesi.Apache.RequestCtx.Writes.{
  Writes, then_Writes, nothing_Writes, comma_text, header_text, put_header-Writes, cookie_text,
  put_cookie-Writes,
}
use go_mesi.Apache.RequestCtx.Cookies.{cookies, cookies-nil, Round, next_cookie-Round}

-- The headers that the loop does not skip.
unfoldable pub sent_headers : List Entry → List (Bytes × Bytes)
sent_headers [] = []
sent_headers (e ∷ es) = elim (sent_header e) [
  | none ↦ sent_headers es
  | some kv ↦ kv ∷ sent_headers es
]

unfoldable pub headers_text : Bool → List (Bytes × Bytes) → Bytes
headers_text first [] = []
headers_text first ((k, v) ∷ l) = (comma_text first ++ header_text k v) ++ headers_text false l

unfoldable pub cookies_text : Bool → List (Bytes × Bytes) → Bytes
cookies_text first [] = []
cookies_text first ((n, v) ∷ l) = (comma_text first ++ cookie_text n v) ++ cookies_text false l

header_Writes :
    (e : Entry) (es : List Entry) (first : Bool) (o : Option (Bytes × Bytes))
    → sent_header e ≡ o
    → ((b : Bool) → Writes (put_headers b es) (headers_text b (sent_headers es)))
    → Writes (put_headers first (e ∷ es)) (headers_text first (sent_headers (e ∷ es)))
unfolding put_headers sent_headers headers_text
header_Writes e es first none s later = rw (s, put_headers) (rw (s, sent_headers) (later first))
header_Writes e es first (some (k, v)) s later =
    rw (s, put_headers)
      (rw (s, sent_headers)
        (then_Writes _ (put_headers false es) (comma_text first ++ header_text k v) _
          (put_header-Writes first k v) (later false)))

pub put_headers-Writes :
    (es : List Entry) (first : Bool)
    → Writes (put_headers first es) (headers_text first (sent_headers es))
unfolding put_headers sent_headers headers_text
put_headers-Writes [] first = nothing_Writes
put_headers-Writes (e ∷ es) first =
    header_Writes e es first (sent_header e) refl (put_headers-Writes es)

-- A round, and the rounds that follow it.
Round-Writes :
    (fuel : ℕ) (c : ℕ) (s : Bytes) (first : Bool) (r : CookieStep)
    → Round (c ∷ s) r
    → next_cookie (c ∷ s) ≡ r
    → ((rest : Bytes) (b : Bool)
        → length rest < length (c ∷ s)
        → Writes (put_cookies fuel b rest) (cookies_text b (cookies rest)))
    → Writes (put_cookies (suc fuel) first (c ∷ s)) (cookies_text first (cookies (c ∷ s)))
unfolding put_cookies cookies_text
Round-Writes fuel c s first finished e n later = rw (n, put_cookies) (rw e nothing_Writes)
Round-Writes fuel c s first (skipped rest) (e, l) n later =
    rw (n, put_cookies) (rw e (later rest first l))
Round-Writes fuel c s first (found name val rest) (e, l) n later =
    rw (n, put_cookies)
      (rw e (
        then_Writes _ (put_cookies fuel false rest) (comma_text first ++ cookie_text name val) _
          (put_cookie-Writes first name val) (later rest false l)))

-- As many rounds as the header has bytes are enough.
pub put_cookies-Writes :
    (fuel : ℕ) (s : Bytes) (first : Bool)
    → length s ≤ fuel
    → Writes (put_cookies fuel first s) (cookies_text first (cookies s))
unfolding put_cookies cookies_text
put_cookies-Writes fuel [] first h = rw cookies-nil nothing_Writes
put_cookies-Writes zero (c ∷ s) first h = absurd (omega arith)
put_cookies-Writes (suc fuel) (c ∷ s) first h =
    Round-Writes fuel c s first (next_cookie (c ∷ s)) (next_cookie-Round (c ∷ s)) refl
      (λ rest b l. put_cookies-Writes fuel rest b (omega arith))
