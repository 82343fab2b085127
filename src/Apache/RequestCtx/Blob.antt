-- ===== src/Apache/RequestCtx/Blob.antt =====
-- The text of build_request_ctx_json is that of a JSON object of the headers and the cookies.
use go_mesi.Base.{
  ◌+◌, ◌≤◌, true, false, List, [], ◌∷◌, ◌++◌, Option, none, some, Bytes, codes, ltb, if◌then◌else◌,
  or_else, length, ◌>>=◌, ◌≡◌, refl, ap, ◌∙◌, arith, Bool-cases, inl, inr, append_assoc,
  length-append,
}
use go_mesi.Json.Text.{escape, escape_byte, json_string}
use go_mesi.Json.Value.{
  Json, str, arr, obj, Items, nil, cons, Fields, end, field, print, print_items, more_items,
  print_fields, more_fields,
}
use go_mesi.Apache.Config.{Config}
use go_mesi.Apache.RequestCtx.{
  Buf, json_grow, put, grow_put, Entry, put_headers, put_cookies, terminate, render_request,
  needs_request, build_request_ctx_json,
}
use go_mesi.Apache.RequestCtx.Writes.{Written, Writes, json_grow-room, grow_put-Writes}
use go_mesi.Apache.RequestCtx.Cookies.{cookies}
use go_mesi.Apache.RequestCtx.Loops.{
  sent_headers, headers_text, cookies_text, put_headers-Writes, put_cookies-Writes,
}

header_fields : List (Bytes × Bytes) → Fields
header_fields [] = end
header_fields ((k, v) ∷ l) = field k (str v) (header_fields l)

cookie_items : List (Bytes × Bytes) → Items
cookie_items [] = nil
cookie_items ((n, v) ∷ l) =
    cons (obj (field (codes "name") (str n) (field (codes "value") (str v) end))) (cookie_items l)

-- The object of a request, from its headers and its cookies.
unfoldable pub request_object : List (Bytes × Bytes) → List (Bytes × Bytes) → Json
unfolding header_fields cookie_items
request_object headers cs = obj (
    field (codes "headers") (obj (header_fields headers))
      (field (codes "cookies") (arr (cookie_items cs)) end))

more_headers-print :
    (l : List (Bytes × Bytes)) (t : Bytes)
    → headers_text false l ++ b'}' ∷ t ≡ more_fields (header_fields l) ++ t
unfolding headers_text header_fields print json_string
more_headers-print [] t = refl
more_headers-print ((k, v) ∷ l) t = simp append_assoc (
    ap
      (λ (u : Bytes).
        codes ",\"" ++ (escape k ++ (codes "\":\"" ++ (escape v ++ (codes "\"" ++ u)))))
      (more_headers-print l t))

headers-print :
    (l : List (Bytes × Bytes)) (t : Bytes)
    → headers_text true l ++ b'}' ∷ t ≡ print_fields (header_fields l) ++ t
unfolding headers_text header_fields print json_string
headers-print [] t = refl
headers-print ((k, v) ∷ l) t = simp append_assoc (
    ap
      (λ (u : Bytes).
        codes "\"" ++ (escape k ++ (codes "\":\"" ++ (escape v ++ (codes "\"" ++ u)))))
      (more_headers-print l t))

more_cookies-print :
    (l : List (Bytes × Bytes)) (t : Bytes)
    → cookies_text false l ++ b']' ∷ t ≡ more_items (cookie_items l) ++ t
unfolding cookies_text cookie_items print json_string escape escape_byte
more_cookies-print [] t = refl
more_cookies-print ((k, v) ∷ l) t = simp append_assoc (
    ap
      (λ (u : Bytes).
        codes ",{\"name\":\""
        ++ (escape k ++ (codes "\",\"value\":\"" ++ (escape v ++ (codes "\"}" ++ u)))))
      (more_cookies-print l t))

cookies-print :
    (l : List (Bytes × Bytes)) (t : Bytes)
    → cookies_text true l ++ b']' ∷ t ≡ print_items (cookie_items l) ++ t
unfolding cookies_text cookie_items print json_string escape escape_byte
cookies-print [] t = refl
cookies-print ((k, v) ∷ l) t = simp append_assoc (
    ap
      (λ (u : Bytes).
        codes "{\"name\":\""
        ++ (escape k ++ (codes "\",\"value\":\"" ++ (escape v ++ (codes "\"}" ++ u)))))
      (more_cookies-print l t))

-- A last part of the rendering, which returns the text.
abbrev Ends : (Buf → Option Bytes) → Bytes → Type 0
Ends n t = (b : Buf) → 1 ≤ b.cap → n b ≡ some (b.text ++ t)

Written-end :
    (n : Buf → Option Bytes) (t u : Bytes) (r : Option Buf)
    → Written t r
    → Ends n u
    → (r >>= n) ≡ some (t ++ u)
Written-end n t u none h g = absurd h
Written-end n t u (some b) (e, hb) g = g b hb ∙ ap (λ v. some (v ++ u)) e

then_Ends :
    (m : Buf → Option Buf) (n : Buf → Option Bytes) (t u : Bytes)
    → Writes m t
    → Ends n u
    → Ends (λ b. m b >>= n) (t ++ u)
then_Ends m n t u hm hn b hb =
    Written-end n (b.text ++ t) u (m b) (hm b hb) hn ∙ ap some (append_assoc b.text t u)

-- The NUL behind the closing brackets is inside the buffer.
terminate-Ends : Ends (λ b. grow_put 3 (codes "]}") b >>= terminate) (codes "]}")
unfolding grow_put put terminate
terminate-Ends b hb =
    let (room, same) = json_grow-room 3 b hb in
    let g = json_grow 3 b in
    let len : length g.text ≡ length b.text = ap length same in
    let fits : ltb g.cap (length g.text + 2) ≡ false = ground arith in
    let nul : ltb (length g.text + 2) g.cap ≡ true = ground arith in
    let all : length (g.text ++ codes "]}") ≡ length g.text + 2 =
      length-append g.text (codes "]}") in
    rw fits (rw all (rw nul (ap (λ t. some (t ++ codes "]}")) same)))

render_tail :
    (headers : List Entry) (cookie : Bytes)
    → Ends
        (λ b. put_headers true headers b >>= λ b2.
          grow_put 12 (codes "},\"cookies\":[") b2 >>= λ b3.
          put_cookies (length cookie) true cookie b3 >>= λ b4.
          grow_put 3 (codes "]}") b4 >>= terminate)
        (headers_text true (sent_headers headers)
          ++ (codes "},\"cookies\":[" ++ (cookies_text true (cookies cookie) ++ codes "]}")))
render_tail headers cookie = then_Ends _ _ _ _ (put_headers-Writes headers true) (
    then_Ends _ _ _ _ (grow_put-Writes 12 (codes "},\"cookies\":[") (omega arith)) (
      then_Ends _ _ _ _ (put_cookies-Writes (length cookie) cookie true (omega arith))
        terminate-Ends))

pub request_text :
    (headers cs : List (Bytes × Bytes))
    → codes "{\"headers\":{"
        ++ (headers_text true headers
            ++ (codes "},\"cookies\":[" ++ (cookies_text true cs ++ codes "]}")))
      ≡ print (request_object headers cs)
unfolding request_object print json_string escape escape_byte
request_text headers cs =
    ap
      (λ (t : Bytes).
        codes "{\"headers\":{" ++ (headers_text true headers ++ (codes "},\"cookies\":[" ++ t)))
      (cookies-print cs (codes "}"))
    ∙ ap (λ (t : Bytes). codes "{\"headers\":{" ++ t)
        (headers-print headers
          (codes ",\"cookies\":[" ++ (print_items (cookie_items cs) ++ codes "}")))
    ∙ refl

render_request-print :
    (headers : List Entry) (cookie : Bytes)
    → render_request headers cookie
      ≡ some (print (request_object (sent_headers headers) (cookies cookie)))
unfolding render_request put
render_request-print headers cookie =
    render_tail headers cookie (record { cap = 512; text = codes "{\"headers\":{" }) (omega arith)
    ∙ ap some (request_text (sent_headers headers) (cookies cookie))

-- The headers and the value of Cookie, if the request has headers.
abbrev pub headers_of : Option (List Entry) → List Entry
headers_of none = []
headers_of (some es) = es

abbrev pub cookie_of_request : (List Entry → Bytes → Option Bytes) → Option (List Entry) → Bytes
cookie_of_request table_get none = []
cookie_of_request table_get (some es) = or_else (table_get es (codes "Cookie")) []

-- The object of the request, as the theorem below describes it.
abbrev pub context_object : (List Entry → Bytes → Option Bytes) → Option (List Entry) → Json
context_object table_get headers_in =
    request_object (sent_headers (headers_of headers_in))
      (cookies (cookie_of_request table_get headers_in))

-- Every write of build_request_ctx_json stays inside the buffer, both loops end, and the text is
-- that of the object of the headers with a key and a value that are not Cookie, in their order, and
-- of the cookies of the Cookie header; it is empty if the template asks for neither.
pub build_request_ctx_json-print :
    (table_get : List Entry → Bytes → Option Bytes) (headers_in : Option (List Entry))
    (conf : Config)
    → build_request_ctx_json table_get headers_in conf
      ≡ some (
          if needs_request conf.cache_key_template
          then print (context_object table_get headers_in)
          else [])
unfolding build_request_ctx_json
build_request_ctx_json-print table_get headers_in conf =
    elim (Bool-cases (needs_request conf.cache_key_template)) [
      | inl e ↦ rw e (render headers_in)
      | inr e ↦ rw e refl
    ]
  where
    render :
        (hs : Option (List Entry))
        → (elim hs [
          | none ↦ render_request [] []
          | some headers ↦ render_request headers (or_else (table_get headers (codes "Cookie")) [])
        ])
          ≡ some (print (context_object table_get hs))
    render none = render_request-print [] []
    render (some hs) = render_request-print hs _
