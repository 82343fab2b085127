-- ===== src/Nginx/RequestCtx/Exact.antt =====
-- The context fills its buffer to the last byte, and is the text of the request's object.
use go_mesi.Base.{
  ℕ, ◌+◌, ◌≤◌, Bool, true, false, ◌&&◌, List, [], ◌++◌, Option, some, Bytes, codes, if◌then◌else◌,
  or_else, length, length-append, append_assoc, ◌≡◌, refl, sym, ap, ◌∙◌, arith, Bool-cases, inl,
  inr, append-nil, ◌≢◌, if-elim, not,
}
use go_mesi.Json.Value.{Json, print, size}
use go_mesi.Json.Read.{read}
use go_mesi.Json.RoundTrip.{read-print_lem}
use go_mesi.Apache.Config.{non_empty}
use go_mesi.Apache.RequestCtx.Loops.{headers_text, cookies_text}
use go_mesi.Apache.RequestCtx.Blob.{request_object}
use go_mesi.Apache.RequestCtx.Blob
use go_mesi.Nginx.Render.{Built, built, overrun}
use go_mesi.Nginx.Render.Exact.{fill-built}
use go_mesi.Nginx.RequestCtx.{
  Header, Out, write_headers, request_size, request_text, needs_ctx, build_request_ctx_json,
}
use go_mesi.Nginx.RequestCtx.Writes.{
  live_headers, live_cookies, write_headers-text, write_cookies-text,
}
use go_mesi.Nginx.RequestCtx.Sizes.{measure-length}

-- The object of a request.
abbrev pub context_of : List Header → Json
context_of hs = request_object (live_headers hs) (live_cookies hs)

abbrev written : List Header → Bytes
written hs =
    codes "{\"headers\":{"
    ++ (headers_text true (live_headers hs)
        ++ (codes "},\"cookies\":[" ++ (cookies_text true (live_cookies hs) ++ codes "]}")))

request_text-written : (hs : List Header) → request_text hs ≡ written hs
unfolding request_text
request_text-written hs =
    let start : Out = record { text = codes "{\"headers\":{"; some_entry = false } in
    let headers = write_headers start hs in
    let middle : Out = record {
      text = headers.text ++ codes "},\"cookies\":[";
      some_entry = false;
    } in
    rw (write_cookies-text hs middle) (rw (write_headers-text hs start) (simp append_assoc refl))

pub request_text-print : (hs : List Header) → request_text hs ≡ print (context_of hs)
request_text-print hs =
    request_text-written hs ∙ Blob.request_text (live_headers hs) (live_cookies hs)

request_size-length : (hs : List Header) → request_size hs ≡ length (written hs) + 1
unfolding request_size
request_size-length hs =
    let tail = cookies_text true (live_cookies hs) ++ codes "]}" in
    omega (
      arith,
      measure-length hs (12 + 13 + 2 + 1),
      length-append (headers_text true (live_headers hs)) (codes "},\"cookies\":[" ++ tail),
      length-append (cookies_text true (live_cookies hs)) (codes "]}"),
    )

abbrev pub needs : Option Bytes → Bool
needs template = non_empty template && needs_ctx (or_else template [])

exact_fits : (n m : ℕ) → n ≡ m → m ≤ n
exact_fits n m e = omega (arith, e)

build-print :
    (hs : List Header) (template : Option Bytes)
    → build_request_ctx_json true hs template
      ≡ built (if needs template then print (context_of hs) else [])
unfolding build_request_ctx_json
build-print hs template = elim (Bool-cases (non_empty template)) [
  | inr e ↦ rw e refl
  | inl e ↦ elim (Bool-cases (needs_ctx (or_else template []))) [
    | inr n ↦ rw (e, n) refl
    | inl n ↦
        rw (e, n)
          (fill-built (request_size hs) (request_text hs) (
              exact_fits _ _
                (request_size-length hs ∙ ap (λ t. length t + 1) (sym (request_text-written hs))))
            ∙ ap built (request_text-print hs))
  ]
]

-- If the allocation succeeds, the context of a request is the text of the object of its live headers
-- other than Cookie and of the cookies of all its Cookie headers, in their order, if the template
-- asks for a header or a cookie, and empty otherwise; that text and its NUL fill the buffer that the
-- first pass measured to the last byte; and the reader of JSON in Json/Read gets that object back
-- from it, repeated names included and in order.
pub build_request_ctx_json-exact :
    (hs : List Header) (template : Option Bytes)
    → (build_request_ctx_json true hs template
        ≡ built (if needs template then print (context_of hs) else []))
      × (request_size hs ≡ length (print (context_of hs)) + 1)
      × (read (size (context_of hs)) (print (context_of hs)) ≡ some (context_of hs, []))
build_request_ctx_json-exact hs template = (
  build-print hs template,
  request_size-length hs
      ∙ ap (λ t. length t + 1) (sym (request_text-written hs) ∙ request_text-print hs),
  ap (read (size (context_of hs))) (sym (append-nil (print (context_of hs))))
      ∙ read-print_lem (context_of hs) [] tt,
)

-- No header and no template makes the context pass the end of its buffer.
pub build_request_ctx_json-built :
    (buf : Bool) (hs : List Header) (template : Option Bytes)
    → build_request_ctx_json buf hs template ≢ overrun
build_request_ctx_json-built true hs template e =
    let wrong = sym (build_request_ctx_json-exact hs template).0 ∙ e in absurd cc
build_request_ctx_json-built false hs template e = unallocated template e
  where
    unallocated : (t : Option Bytes) → build_request_ctx_json false hs t ≡ overrun → ⊥
    unallocated t =
        unfold build_request_ctx_json in
        if-elim (λ (b : Built). b ≡ overrun → ⊥) (not (non_empty t)) _ _ (λ _ e. absurd cc)
          (λ _.
            if-elim (λ (b : Built). b ≡ overrun → ⊥) (not (needs_ctx (or_else t []))) _ _
              (λ _ e. absurd cc) (λ _ e. absurd cc))
