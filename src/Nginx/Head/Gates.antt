-- ===== src/Nginx/Head/Gates.antt =====
-- Which responses the head filter takes, and that it leaves all others as they were.
use go_mesi.Base.{
  ◌≤◌, Bool, true, false, not, ◌&&◌, List, [], ◌∷◌, none, some, codes, ltb, ltb→le, ◌==◌, ℤ, is_set,
  is_true, ◌≡◌, ◌⊎◌, inl, inr, refl, arith, if-elim, is_nat, length, map, to_lower, Bytes, ◌↔◌, ap,
  sym, ◌∙◌, bytes_eq_iff, if◌then◌else◌,
}
use go_mesi.Apache.Config.{non_empty}
use go_mesi.Apache.Directive.{eq_ignore_case}
use go_mesi.Nginx.Config.{LocConf, on_oversize_error}
use go_mesi.Nginx.Headers.{mesi_header_signals_esi}
use go_mesi.Nginx.RequestCtx.{Header}
use go_mesi.Nginx.Body.{new_ctx}
use go_mesi.Nginx.Head.Html.{NamesHtml, is_html-NamesHtml}
use go_mesi.Nginx.Head.{
  Response, Alloc, Headed, next_filter, failed, ngx_http_mesi_has_esi_header, ngx_test_is_html,
  ngx_test_content_compression, skips, too_long, announced, take_response, head_filter,
}

-- Some live header is an Edge-control that signals ESI.
abbrev pub Signals : List Header → Type 0
Signals [] = ⊥
Signals (h ∷ hs) =
    (((h.hash == 0) ≡ false)
      × (eq_ignore_case h.key (codes "Edge-control") ≡ true)
      × (mesi_header_signals_esi h.value ≡ true))
    ⊎ Signals hs

has_esi_header-Signals : (hs : List Header) → ngx_http_mesi_has_esi_header hs ≡ true → Signals hs
unfolding ngx_http_mesi_has_esi_header
has_esi_header-Signals [] h = absurd cc
has_esi_header-Signals (x ∷ hs) h = ground (arith, has_esi_header-Signals hs)

-- A response to which ESI applies.
pub record Eligible (lcf : LocConf) (parse_with_config : Bool) (r : Response) : Type 0 where
  pub enabled : is_true lcf.enable_mesi ≡ true
  pub has_body : r.header_only ≡ false
  pub sized : is_nat 0 r.content_length_n ≡ false
  pub plain : non_empty r.content_encoding ≡ false
  pub html : NamesHtml r.content_type
  pub status : r.status ≤ 400
  pub signalled :
      (is_set lcf.parse_on_header && is_true lcf.parse_on_header) ≡ true → Signals r.headers
  pub limited : too_long lcf r ≡ false
  pub enforced : non_empty lcf.allowed_hosts ≡ true → parse_with_config ≡ true

-- What the filter may leave of a response that came without a context.
abbrev pub Gated : LocConf → Bool → Response → Headed → Type 0
Gated lcf pwc r h =
    ((h.ctx ≡ some new_ctx)
      × (h.response ≡ announced r)
      × (h.result ≡ next_filter)
      × Eligible lcf pwc r)
    ⊎ ((h.ctx ≡ none)
        × ((h.response ≡ r)
            ⊎ ((h.response ≡ record r { status = 500 }) × (non_empty lcf.allowed_hosts ≡ true))
            ⊎ (h.result ≡ failed)))

skips-parts :
    (low : Bool) (lcf : LocConf) (r : Response)
    → skips low lcf r ≡ false
    → (is_true lcf.enable_mesi ≡ true)
      × (r.header_only ≡ false)
      × (is_nat 0 r.content_length_n ≡ false)
      × (non_empty r.content_encoding ≡ false)
      × (ngx_test_is_html low r ≡ true)
      × (ltb 400 r.status ≡ false)
      × ((is_set lcf.parse_on_header
            && is_true lcf.parse_on_header
            && not (ngx_http_mesi_has_esi_header r.headers))
          ≡ false)
unfolding skips ngx_test_content_compression
skips-parts low lcf r h = ground arith

html_low :
    (low : Bool) (r : Response) → ngx_test_is_html low r ≡ true → ngx_test_is_html true r ≡ true
unfolding ngx_test_is_html
html_low true r h = h
html_low false r h = ground arith

poh_on :
    (v : ℤ) (b : Bool)
    → (is_set v && is_true v && not b) ≡ false
    → (is_set v && is_true v) ≡ true
    → b ≡ true
poh_on v b h e = both (is_set v) (is_true v) b h e
  where
    both : (x y b : Bool) → (x && y && not b) ≡ false → (x && y) ≡ true → b ≡ true
    both x y b h e = ground arith

module _ (alloc : Alloc) (lcf : LocConf) (pwc : Bool) (r : Response) where
  eligible :
      skips alloc.low lcf r ≡ false
      → too_long lcf r ≡ false
      → (non_empty lcf.allowed_hosts && not pwc) ≡ false
      → Eligible lcf pwc r
  eligible s t n =
      let (on, body, sized, plain, html, status, poh) = skips-parts alloc.low lcf r s in
      record {
        enabled = on;
        has_body = body;
        sized = sized;
        plain = plain;
        html = (is_html-NamesHtml r).0 (html_low alloc.low r html);
        status = ltb→le 400 r.status status;
        signalled = λ e. has_esi_header-Signals r.headers (poh_on lcf.parse_on_header _ poh e);
        limited = t;
        enforced = λ e. needed (non_empty lcf.allowed_hosts) pwc n e;
      }
    where
      needed : (a b : Bool) → (a && not b) ≡ false → a ≡ true → b ≡ true
      needed a b h e = ground arith

  take-Gated : Eligible lcf pwc r → Gated lcf pwc r (take_response alloc r none)
  unfolding take_response
  take-Gated e =
      if-elim (Gated lcf pwc r) alloc.ctx _ _ (λ a. inl (refl, refl, refl, e))
        (λ a. inr (refl, inr (inr refl)))

pub taken :
    (lcf : LocConf) (pwc : Bool) (r : Response) (h : Headed)
    → Gated lcf pwc r h
    → h.ctx ≡ some new_ctx
    → Eligible lcf pwc r
taken lcf pwc r h (inl (_, _, _, e)) c = e
taken lcf pwc r h (inr (n, _)) c = absurd (let both = sym n ∙ c in cc)

all-Gated :
    (alloc : Alloc) (pwc : Bool) (lcf : LocConf) (r : Response)
    → Gated lcf pwc r (head_filter alloc pwc lcf r none)
unfolding head_filter
all-Gated alloc pwc lcf r =
    let G = Gated lcf pwc r in
    if-elim G (skips alloc.low lcf r) _ _ (λ s. inr (refl, inl refl))
      (λ s.
        if-elim G (too_long lcf r) _ _
          (λ t.
            if-elim G (lcf.on_oversize == on_oversize_error) _ _ (λ o. inr (refl, inl refl))
              (λ o. inr (refl, inl refl)))
          (λ t.
            if-elim G (non_empty lcf.allowed_hosts && not pwc) _ _
              (λ n. inr (refl, inr (inl (refl, first_true (non_empty lcf.allowed_hosts) _ n))))
              (λ n.
                if-elim G (not alloc.push) _ _ (λ p. inr (refl, inl refl))
                  (λ p. take-Gated alloc lcf pwc r (eligible alloc lcf pwc r s t n)))))
  where
    first_true : (a b : Bool) → (a && b) ≡ true → a ≡ true
    first_true a b h = ground arith

length-lower : (s : Bytes) → length (map to_lower s) ≡ length s
length-lower [] = refl
length-lower (c ∷ s) = omega (arith, length-lower s)

-- A key that is Edge-control has its length.
key_length :
    (key : Bytes) → eq_ignore_case key (codes "Edge-control") ≡ true → (length key == 12) ≡ true
unfolding eq_ignore_case
key_length key h =
    let same = (bytes_eq_iff (map to_lower key) (map to_lower (codes "Edge-control"))).0 h in
    let twelve : length (map to_lower key) ≡ 12 = ap length same in
    ground (arith, length-lower key, twelve)

Signals-has_esi_header : (hs : List Header) → Signals hs → ngx_http_mesi_has_esi_header hs ≡ true
unfolding ngx_http_mesi_has_esi_header
Signals-has_esi_header [] h = absurd h
Signals-has_esi_header (x ∷ hs) (inl (live, named, signals)) =
    rw (live, key_length x.key named, named, signals) refl
Signals-has_esi_header (x ∷ hs) (inr h) = rw (Signals-has_esi_header hs h) (either _ _)
  where
    either : (a b : Bool) → (if a then true else if b then true else true) ≡ true
    either a b = ground arith

eligible_skips :
    (lcf : LocConf) (pwc : Bool) (r : Response) → Eligible lcf pwc r → skips true lcf r ≡ false
unfolding skips ngx_test_content_compression
eligible_skips lcf pwc r e =
    let status : ltb 400 r.status ≡ false = ground (arith, e.status) in
    rw (e.enabled, e.has_body, e.sized, e.plain, (is_html-NamesHtml r).1 e.html, status)
      (off (is_set lcf.parse_on_header) (is_true lcf.parse_on_header) _
        (λ h. Signals-has_esi_header r.headers (e.signalled h)))
  where
    off : (x y b : Bool) → ((x && y) ≡ true → b ≡ true) → (x && y && not b) ≡ false
    off true true b h = rw (h refl) refl
    off true false b h = refl
    off false y b h = refl

abbrev pub plenty : Alloc
plenty = record { low = true; push = true; ctx = true }

-- Where the allocations succeed, an eligible response gets a context.
eligible-taken :
    (lcf : LocConf) (pwc : Bool) (r : Response)
    → Eligible lcf pwc r
    → (head_filter plenty pwc lcf r none).ctx ≡ some new_ctx
unfolding head_filter take_response
eligible-taken lcf pwc r e =
    rw (eligible_skips lcf pwc r e, e.limited, needed (non_empty lcf.allowed_hosts) pwc e.enforced)
      refl
  where
    needed : (a b : Bool) → (a ≡ true → b ≡ true) → (a && not b) ≡ false
    needed true b h = rw (h refl) refl
    needed false b h = refl

pub head_filter-Gated :
    (alloc : Alloc) (pwc : Bool) (lcf : LocConf) (r : Response)
    → Gated lcf pwc r (head_filter alloc pwc lcf r none)
      × (((head_filter plenty pwc lcf r none).ctx ≡ some new_ctx) ↔ Eligible lcf pwc r)
head_filter-Gated alloc pwc lcf r = (
  all-Gated alloc pwc lcf r,
  (
    taken lcf pwc r (head_filter plenty pwc lcf r none) (all-Gated plenty pwc lcf r),
    eligible-taken lcf pwc r,
  ),
)
