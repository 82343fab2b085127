-- ===== src/Nginx/RequestCtx.antt =====
-- servers/nginx/ngx_http_mesi_module.c: build_request_ctx_json, which measures the headers and the
-- cookies of a request, and then writes them as JSON. The parts of the list headers_in are one list.
pub mod Writes
pub mod Sizes
pub mod Exact
use go_mesi.Base.{
  ℕ, zero, suc, ◌+◌, Bool, true, false, not, ◌&&◌, ◌||◌, List, [], ◌∷◌, ◌++◌, Option, none, some,
  Bytes, codes, ltb, ◌==◌, if◌then◌else◌, or_else, null, length,
}
use go_mesi.Apache.Config.{non_empty}
use go_mesi.Apache.Directive.{eq_ignore_case}
use go_mesi.Apache.RequestCtx.{CookieStep, finished, skipped, found, next_cookie}
use go_mesi.Nginx.Headers.{ngx_http_mesi_contains}
use go_mesi.Nginx.Render.{Built, built, no_pool, fill, mesi_json_escaped_len, mesi_json_append_str}

-- ngx_table_elt_t; an entry with hash 0 is skipped.
pub record Header : Type 0 where
  pub hash : ℕ
  pub key : Bytes
  pub value : Bytes

-- key.len == 6 && ngx_strncasecmp(key.data, "cookie", 6) == 0
unfoldable pub is_cookie : Header → Bool
is_cookie h = length h.key == 6 && eq_ignore_case h.key (codes "cookie")

-- total, n_headers and n_cookies
pub record Measured : Type 0 where
  pub total : ℕ
  pub n_headers : ℕ
  pub n_cookies : ℕ

-- n_cookies++; total += …; if (n_cookies > 1) total++;
abbrev pub add_cookie : Bytes → Bytes → Measured → Measured
add_cookie name val m = record m {
  total =
      m.total
      + (22 + mesi_json_escaped_len name + mesi_json_escaped_len val)
      + (if ltb 1 (m.n_cookies + 1) then 1 else 0);
  n_cookies = m.n_cookies + 1;
}

-- while (clen > 0), with what a pass does for a cookie. A round of either pass is one of the Apache
-- module; the fuel is the number of rounds.
unfoldable pub cookie_loop : {A : Type 0} → (Bytes → Bytes → A → A) → ℕ → A → Bytes → A
cookie_loop step fuel a [] = a
cookie_loop step zero a (c ∷ s) = a
cookie_loop step (suc fuel) a (c ∷ s) = elim (next_cookie (c ∷ s)) [
  | finished ↦ a
  | skipped rest ↦ cookie_loop step fuel a rest
  | found name val rest ↦ cookie_loop step fuel (step name val a) rest
]

abbrev pub add_header : Header → Measured → Measured
add_header h m = record m {
  total =
      m.total
      + (5 + mesi_json_escaped_len h.key + mesi_json_escaped_len h.value)
      + (if ltb 1 (m.n_headers + 1) then 1 else 0);
  n_headers = m.n_headers + 1;
}

-- The first pass over the list.
unfoldable pub measure : Measured → List Header → Measured
unfolding is_cookie cookie_loop
measure m [] = m
measure m (h ∷ hs) =
    if h.hash == 0
    then measure m hs
    else if is_cookie h
    then measure (cookie_loop add_cookie (length h.value) m h.value) hs
    else measure (add_header h m) hs

-- The text written so far, and whether an entry stands in front (n > 0).
pub record Out : Type 0 where
  pub text : Bytes
  pub some_entry : Bool

abbrev pub comma : Bool → Bytes
comma some_entry = if some_entry then codes "," else []

abbrev pub put_header : Header → Out → Out
put_header h o = record {
  text =
      o.text
      ++ (comma o.some_entry
          ++ (mesi_json_append_str h.key ++ (codes ":" ++ mesi_json_append_str h.value)));
  some_entry = true;
}

unfoldable pub write_headers : Out → List Header → Out
unfolding is_cookie
write_headers o [] = o
write_headers o (h ∷ hs) =
    if h.hash == 0
    then write_headers o hs
    else if is_cookie h
    then write_headers o hs
    else write_headers (put_header h o) hs

abbrev pub put_cookie : Bytes → Bytes → Out → Out
put_cookie name val o = record {
  text =
      o.text
      ++ (comma o.some_entry
          ++ (codes "{\"name\":"
              ++ (mesi_json_append_str name
                  ++ (codes ",\"value\":" ++ (mesi_json_append_str val ++ codes "}")))));
  some_entry = true;
}

unfoldable pub write_cookie_headers : Out → List Header → Out
unfolding is_cookie cookie_loop
write_cookie_headers o [] = o
write_cookie_headers o (h ∷ hs) =
    if h.hash == 0
    then write_cookie_headers o hs
    else if not (is_cookie h)
    then write_cookie_headers o hs
    else write_cookie_headers (cookie_loop put_cookie (length h.value) o h.value) hs

-- The size of the buffer, and the text that is written into it.
unfoldable pub request_size : List Header → ℕ
unfolding measure
request_size hs =
    (measure (record { total = 12 + 13 + 2 + 1; n_headers = 0; n_cookies = 0 }) hs).total

unfoldable pub request_text : List Header → Bytes
unfolding write_headers write_cookie_headers
request_text hs =
    let headers = write_headers (record { text = codes "{\"headers\":{"; some_entry = false }) hs in
    let cookies =
      write_cookie_headers
        (record { text = headers.text ++ codes "},\"cookies\":["; some_entry = false }) hs in
    cookies.text ++ codes "]}"

unfoldable pub needs_ctx : Bytes → Bool
needs_ctx template =
    ngx_http_mesi_contains template (codes "${header:")
    || ngx_http_mesi_contains template (codes "${cookie:")

-- `buf` tells whether the allocation succeeds.
unfoldable pub build_request_ctx_json : Bool → List Header → Option Bytes → Built
unfolding needs_ctx request_size request_text fill
build_request_ctx_json buf headers_in template =
    if not (non_empty template)
    then built []
    else if not (needs_ctx (or_else template []))
    then built []
    else if buf
    then fill (request_size headers_in) (request_text headers_in)
    else no_pool
