-- ===== src/Nginx/Head.antt =====
-- servers/nginx/ngx_http_mesi_module.c: ngx_http_html_mesi_head_filter and the tests that it makes on
-- a response. The parts of the list headers_out are one list.
pub mod Html
pub mod Gates
use go_mesi.Base.{
  ℕ, Bool, true, false, not, ◌&&◌, ◌||◌, List, [], ◌∷◌, ◌++◌, map, Option, none, some, Bytes, codes,
  ltb, ◌==◌, ℤ, pos, is_nat, is_set, is_true, is_pos, gtb, if◌then◌else◌, null, length, to_lower,
}
use go_mesi.Apache.Config.{non_empty}
use go_mesi.Apache.Directive.{eq_ignore_case}
use go_mesi.Apache.Directive.Template.{contains}
use go_mesi.Nginx.Config.{LocConf, on_oversize_error}
use go_mesi.Nginx.Headers.{mesi_header_signals_esi}
use go_mesi.Nginx.RequestCtx.{Header}
use go_mesi.Nginx.Body.{Ctx, new_ctx}

-- What the filter reads and writes of a response; content_encoding is the value of that header, or
-- none without it.
pub record Response : Type 0 where
  pub header_only : Bool
  pub is_main : Bool
  pub status : ℕ
  pub content_length_n : ℤ
  pub content_encoding : Option Bytes
  pub content_type : Bytes
  pub headers : List Header
  pub filter_need_in_memory : Bool
  pub weak_etag : Bool

-- for (i = 0; …): the first live Edge-control that signals ESI
unfoldable pub ngx_http_mesi_has_esi_header : List Header → Bool
ngx_http_mesi_has_esi_header [] = false
ngx_http_mesi_has_esi_header (h ∷ hs) =
    if h.hash == 0
    then ngx_http_mesi_has_esi_header hs
    else if length h.key == 12
        && eq_ignore_case h.key (codes "Edge-control")
        && mesi_header_signals_esi h.value
    then true
    else ngx_http_mesi_has_esi_header hs

-- `low` tells whether the copy in lower case is allocated; ngx_strnstr is a search for the text.
unfoldable pub ngx_test_is_html : Bool → Response → Bool
ngx_test_is_html low r =
    if null r.content_type
    then false
    else if not low
    then false
    else contains (codes "text/html") (map to_lower r.content_type)

unfoldable pub ngx_test_content_compression : Response → Bool
ngx_test_content_compression r = non_empty r.content_encoding

-- Which allocations succeed.
pub record Alloc : Type 0 where
  pub low : Bool
  pub push : Bool
  pub ctx : Bool

-- What the filter returns: the next filter's result, or a code of its own.
pub data Result : Type 0 where
  next_filter : Result
  bad_gateway : Result
  failed : Result

-- The response, the context, and the result.
pub record Headed : Type 0 where
  pub response : Response
  pub ctx : Option Ctx
  pub result : Result

-- The tests in front of the limit, in their order; true leaves the response to others.
unfoldable pub skips : Bool → LocConf → Response → Bool
unfolding ngx_http_mesi_has_esi_header ngx_test_is_html ngx_test_content_compression
skips low lcf r =
    not (is_true lcf.enable_mesi)
    || (r.header_only || is_nat 0 r.content_length_n)
    || ngx_test_content_compression r
    || not (ngx_test_is_html low r)
    || ltb 400 r.status
    || is_set lcf.parse_on_header
      && is_true lcf.parse_on_header
      && not (ngx_http_mesi_has_esi_header r.headers)

-- lcf->max_body_size > 0 && content_length_n > lcf->max_body_size
abbrev pub too_long : LocConf → Response → Bool
too_long lcf r = is_pos lcf.max_body_size && gtb r.content_length_n lcf.max_body_size

abbrev pub surrogate : Header
surrogate = record { hash = 1; key = codes "Surrogate-Capability"; value = codes "ESI/1.0" }

-- ngx_http_clear_content_length sets -1; ngx_http_weak_etag is left to a flag.
abbrev pub announced : Response → Response
announced r = record r {
  headers = r.headers ++ surrogate ∷ [];
  filter_need_in_memory = true;
  content_length_n = if r.is_main then ℤ.negsuc 0 else r.content_length_n;
  weak_etag = r.is_main || r.weak_etag;
}

-- A context that is there already is kept.
unfoldable pub take_response : Alloc → Response → Option Ctx → Headed
take_response alloc r (some c) = record {
  response = announced r;
  ctx = some c;
  result = next_filter;
}
take_response alloc r none =
    if alloc.ctx
    then record { response = announced r; ctx = some new_ctx; result = next_filter }
    else record {
      response = record r { headers = r.headers ++ surrogate ∷ [] };
      ctx = none;
      result = failed;
    }

-- `parse_with_config` is EsiParseWithConfig != NULL.
unfoldable pub head_filter : Alloc → Bool → LocConf → Response → Option Ctx → Headed
unfolding skips take_response
head_filter alloc parse_with_config lcf r ctx =
    if skips alloc.low lcf r
    then record { response = r; ctx = ctx; result = next_filter }
    else if too_long lcf r
    then (if lcf.on_oversize == on_oversize_error
        then record { response = r; ctx = ctx; result = bad_gateway }
        else record { response = r; ctx = ctx; result = next_filter })
    else if non_empty lcf.allowed_hosts && not parse_with_config
    then record { response = record r { status = 500 }; ctx = ctx; result = next_filter }
    else if not alloc.push
    then record { response = r; ctx = ctx; result = next_filter }
    else take_response alloc r ctx
