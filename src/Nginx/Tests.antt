-- ===== src/Nginx/Tests.antt =====
-- The theorems on the module for nginx at concrete inputs.
mod Requests
use go_mesi.Base.{
  ◌+◌, true, false, not, List, [], ◌∷◌, none, some, Bytes, codes, length, ◌≡◌, ◌≢◌, ◌↔◌, pos,
  negsuc, if◌then◌else◌, is_set, is_some, ◌==◌, refl, ap, ◌∙◌, null, arith, inr, All,
}
use go_mesi.Json.Value.{print, size}
use go_mesi.Json.Read.{read}
use go_mesi.Apache.Headers
use mathlib.Core.Bool.{true≢false}
use go_mesi.Apache.Directive.Template.{contains}
use go_mesi.Apache.Hosts.{has_hostname_token, token_from, unicode_space}
use go_mesi.Apache.Hosts.Fields.{has_hostname_token-fields}
use go_mesi.Apache.CacheConfig.{servers_blob, redis_blob}
use go_mesi.Apache.ParseConfig.{mesi_build_parse_json_config}
use go_mesi.Nginx.Headers.{mesi_header_signals_esi}
use go_mesi.Nginx.Headers.Agree.{mesi_header_signals_esi-Apache}
use go_mesi.Nginx.Render.{built}
use go_mesi.Nginx.Config.{
  LocConf, Macros, create_loc_conf, merged, merge_loc_conf, unset_uint, out_of_range,
}
use go_mesi.Nginx.Config.Valid.{IsMerged, Documented, create-IsValid}
use go_mesi.Nginx.Config.Merge.{merge_loc_conf-IsMerged}
use go_mesi.Nginx.Setters.{mesi_timeout, set_number, set_timeout, scan_after}
use go_mesi.Nginx.Setters.Exact.{Accepts, Reason, set_number-Accepts, set_number-Reason}
use go_mesi.Nginx.CacheBlobs.{build_memcached_config_json, build_redis_config_json}
use go_mesi.Nginx.CacheBlobs.Words.{words}
use go_mesi.Nginx.CacheBlobs.Agree.{redis_settings, cache_blobs-Apache}
use go_mesi.Nginx.RequestCtx.{Header, request_size, build_request_ctx_json}
use go_mesi.Nginx.RequestCtx.Exact.{context_of, needs, build_request_ctx_json-exact}
use go_mesi.Nginx.ParseConfig.{parse_config_size, parse_config_text, build_parse_json_config}
use go_mesi.Nginx.ParseConfig.Parts.{settings}
use go_mesi.Nginx.ParseConfig.Exact.{build_parse_json_config-Apache}
use go_mesi.Nginx.Worker
use go_mesi.Nginx.Worker.{Worker, Symbols, fresh, thread_init, thread_exit, free_cache, dlclose}
use go_mesi.Nginx.Body
use go_mesi.Nginx.Body.{Buf, Ctx, new_ctx, forwarded, kept, body_filter}
use go_mesi.Nginx.Body.Grow
use go_mesi.Nginx.Body.Keeps.{IsDrained, body_filter-IsValid, body_filter-wakes}
use go_mesi.Nginx.Body.Stream
use go_mesi.Nginx.Body.Stream.{run, received, page_of, Delivers}
use go_mesi.Nginx.Body.Delivers.{body_filter-Delivers}
use go_mesi.Nginx.Head
use go_mesi.Nginx.Head.{
  Response, head_filter, skips, take_response, ngx_test_is_html, ngx_test_content_compression,
}
use go_mesi.Nginx.Head.Gates.{Eligible, Gated, head_filter-Gated}
use go_mesi.Nginx.Parse
use go_mesi.Nginx.Parse.{Request, bad_settings, parse}
use go_mesi.Nginx.Parse.Protects.{Safe}
use go_mesi.Nginx.Parse.Calls.{parse-Safe}
use go_mesi.Nginx.Parse.Answers
use go_mesi.Nginx.Parse.Answers.{Answered, parse-Answered}
use go_mesi.Nginx.Served.{parse_with, AnsweredBy, served}

mesi_header_signals_esi-Apache_example :
    mesi_header_signals_esi (codes "x, DCA=esi ")
    ≡ Headers.mesi_header_signals_esi (some (codes "x, DCA=esi "))
mesi_header_signals_esi-Apache_example = mesi_header_signals_esi-Apache (codes "x, DCA=esi ")

-- A location as the merge leaves it: a body limit, a timeout, an allowlist, a template.
abbrev site : LocConf
site = record create_loc_conf {
  enable_mesi = pos 1;
  max_depth = pos 5;
  timeout_seconds = pos 10;
  cache_backend = some (codes "redis");
  cache_size = pos 10000;
  cache_ttl = pos 30;
  cache_memcached_servers = some (codes "a:1  b:2");
  cache_redis_addr = some (codes "r:6379");
  cache_redis_password = some (codes "a\"b");
  cache_redis_db = pos 3;
  block_private_ips = pos 1;
  allowed_hosts = some (codes "e.org");
  allow_private_ips_for_allowed = pos 0;
  cache_key_template = some (codes "${header:A}");
  max_body_size = pos 12;
  on_oversize = 0;
}

site-IsMerged : IsMerged site
unfolding create_loc_conf has_hostname_token token_from unicode_space
site-IsMerged = record {
  numbers = record {
    enable_mesi = omega arith;
    max_depth = omega arith;
    timeout_seconds = omega arith;
    max_response_size = refl;
    max_concurrent_requests = refl;
    max_workers = refl;
    block_private_ips = omega arith;
    allow_private_ips_for_allowed = omega arith;
    max_body_size = omega arith;
    on_oversize = inr (omega arith);
    debug = refl;
    parse_on_header = refl;
  };
  enable_mesi = omega arith;
  max_depth = omega arith;
  max_body_size = omega arith;
  block_private_ips = omega arith;
  allow_private_ips_for_allowed = omega arith;
  on_oversize = omega arith;
  cache_key_template = (
    (refl, (refl, (refl, (refl, (refl, (refl, (refl, (refl, (refl, (refl, (refl, tt))))))))))),
    omega arith,
  );
  allowed_hosts =
      inr (λ e. true≢false (has_hostname_token-fields (codes "e.org") ∙ ap (λ l. not (null l)) e));
}

set_number-Accepts_example :
    (set_number mesi_timeout create_loc_conf (codes "0010")
      ≡ (record create_loc_conf { timeout_seconds = pos 10 }, none))
    ↔ Accepts mesi_timeout create_loc_conf
        (codes "0010")
        (record create_loc_conf { timeout_seconds = pos 10 })
set_number-Accepts_example =
    set_number-Accepts mesi_timeout create_loc_conf (codes "0010")
      (record create_loc_conf { timeout_seconds = pos 10 })

set_number-Reason_example :
    (create_loc_conf ≡ create_loc_conf)
    × Reason mesi_timeout create_loc_conf (codes "0") out_of_range
unfolding set_number set_timeout scan_after create_loc_conf
set_number-Reason_example =
    set_number-Reason mesi_timeout create_loc_conf (codes "0") create_loc_conf out_of_range refl

-- The macros of nginx, as its documents describe them.
abbrev nginx : Macros
nginx = record {
  merge_value = λ c p d. if is_set c then c else if is_set p then p else d;
  merge_uint_value = λ c p d. if c == unset_uint then (if p == unset_uint then d else p) else c;
  merge_str_value = λ c p d. if is_some c then c else if is_some p then p else some d;
}

nginx-Documented : Documented nginx
nginx-Documented = record {
  own = λ c p d e. rw e refl;
  outer = λ c p d e f. rw (e, f) refl;
  default = λ c p d e f. rw (e, f) refl;
  uint_own = λ c p d e. ground arith;
  uint_outer = λ p d e. ground arith;
  uint_default = λ d. refl;
  str_own = λ c d p. refl;
  str_outer = λ p d. refl;
  str_default = λ d. refl;
}

merge_loc_conf-IsMerged_example : IsMerged (merged nginx create_loc_conf create_loc_conf)
unfolding merge_loc_conf merged create_loc_conf
merge_loc_conf-IsMerged_example =
    merge_loc_conf-IsMerged nginx create_loc_conf create_loc_conf
      (merged nginx create_loc_conf create_loc_conf) nginx-Documented create-IsValid create-IsValid
      refl

cache_blobs-Apache_example :
    (build_memcached_config_json true true site ≡ built (servers_blob (words (codes "a:1  b:2"))))
    × (build_redis_config_json true true site ≡ built (redis_blob (redis_settings site)))
cache_blobs-Apache_example = cache_blobs-Apache site 3 refl (omega arith)

abbrev browser : List Header
browser =
    record { hash = 1; key = codes "A"; value = codes "1" }
    ∷ record { hash = 1; key = codes "Cookie"; value = codes "s=7; t" }
    ∷ []

build_request_ctx_json-exact_example :
    (build_request_ctx_json true browser (some (codes "${header:A}"))
      ≡ built (if needs (some (codes "${header:A}")) then print (context_of browser) else []))
    × (request_size browser ≡ length (print (context_of browser)) + 1)
    × (read (size (context_of browser)) (print (context_of browser))
        ≡ some (context_of browser, []))
build_request_ctx_json-exact_example =
    build_request_ctx_json-exact browser (some (codes "${header:A}"))

build_parse_json_config-Apache_example :
    (site.include_error_marker ≢ some []
      → build_parse_json_config true site 5 (codes "http://e/") (codes "e.org") (some (codes "{}"))
        ≡ built (
            mesi_build_parse_json_config
              (settings site 5 (codes "http://e/") (codes "e.org") (codes "{}"))))
    × (build_parse_json_config true site 5 (codes "http://e/") (codes "e.org") (some (codes "{}"))
        ≡ built (parse_config_text site 5 (codes "http://e/") (codes "e.org") (some (codes "{}"))))
    × (parse_config_size site 5 (codes "http://e/") (codes "e.org") (some (codes "{}"))
        ≡ length (parse_config_text site 5 (codes "http://e/") (codes "e.org") (some (codes "{}")))
          + 1)
build_parse_json_config-Apache_example =
    build_parse_json_config-Apache site 5 (codes "http://e/") (codes "e.org") (codes "{}")
      site-IsMerged.numbers (omega arith)
