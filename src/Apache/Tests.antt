-- ===== src/Apache/Tests.antt =====
-- The theorems on the Apache module at concrete inputs.
use mathlib.Core.Option
use go_mesi.Base.{
  ◌+◌, ◌≤◌, true, false, not, List, [], ◌∷◌, ◌++◌, Option, none, some, Bytes, codes, pos,
  if◌then◌else◌, null, ◌≡◌, ◌≢◌, ◌↔◌, refl, arith, inr,
}
use go_mesi.Json.Value.{print, size}
use go_mesi.Json.Read.{read}
use go_mesi.Apache.Number.{
  ok, err, undefined, no_digit, int64_max, parse_nonneg_int, sum_digits, in_range, step,
  parse_nonneg_off,
}
use go_mesi.Apache.Number.Exact.{
  Accepted, AcceptedOff, parse_nonneg_int-Accepted, parse_nonneg_off-AcceptedOff, parsers_defined,
}
use go_mesi.Apache.Config.{Config, create_server_config}
use go_mesi.Apache.Config.Valid.{IsValid, create-IsValid}
use go_mesi.Apache.Config.Nested.{Nested}
use go_mesi.Apache.Hosts.{has_hostname_token, hosts_of, join_hosts}
use go_mesi.Apache.Hosts.Fields.{fields, fields-join-hosts_of, has_hostname_token-fields}
use go_mesi.Base.{split_at, drop_while, take_while}
use go_mesi.Apache.Directive.{set_timeout, set_debug}
use go_mesi.Apache.Directive.Servers.{set_cache_memcached_servers}
use go_mesi.Apache.Directive.Servers.Entries.{Pushed, set_cache_memcached_servers-Pushed}
use go_mesi.Apache.Directive.Load.{Directive, apply, load, block}
use go_mesi.Apache.Directive.Load.Keeps.{Loaded-IsValid}
use go_mesi.Apache.ParseConfig.{parse_config_of, build_parse_json_config}
use go_mesi.Apache.ParseConfig.Blob.{config_object, read-build_parse_json_config}
use go_mesi.Apache.CacheConfig.{build_cache_config_json}
use go_mesi.Apache.CacheConfig.Blob.{cache_object, build_cache_config_json-print}
use go_mesi.Apache.RequestCtx.{Entry, needs_request, next_cookie, build_request_ctx_json}
use go_mesi.Apache.RequestCtx.Cookies.{Round, next_cookie-Round}
use go_mesi.Apache.RequestCtx.Blob.{context_object, build_request_ctx_json-print}
use go_mesi.Apache.Headers.{Out, mesi_header_signals_esi}
use go_mesi.Apache.Headers.Signals.{SomeSignal, mesi_header_signals_esi-SomeSignal}
use go_mesi.Apache.Process.{Symbols, no_symbols, Process, fresh, mesi_child_init, prepare}
use go_mesi.Apache.Process.Mapped.{Sound, symbols_of, mesi_child_init-Sound}
use go_mesi.Apache.Process.Lookup.{prepare-Sound}
use go_mesi.Apache.Process.Once.{serve, cache_inits, client_inits, serve-once}
use go_mesi.Apache.Dispatch.{Request}
use go_mesi.Apache.Filter.{Bucket, eos, known, Env, Exchange, State, mesi_response_filter}
use go_mesi.Apache.Filter.Gates.{eligible}
use go_mesi.Apache.Filter.Serves.{held}
use go_mesi.Apache.Filter.Stream.{stream, concat, stream-concat}
use go_mesi.Apache.Headers.{is_html_content, starts_ignore_case}
use go_mesi.Apache.Headers.Html.{HtmlType, is_html_content-HtmlType}
use go_mesi.Apache.Process.{mesi_child_cleanup}
use go_mesi.Apache.Process.Mapped.{mesi_child_cleanup-Sound}
use go_mesi.Apache.Filter.Closed.{Filtered, mesi_response_filter-Filtered}

-- A library of an older release, with Parse, ParseWithConfig and the cache.
abbrev old_library : Symbols
old_library = record no_symbols {
  parse = true;
  parse_with_config = true;
  free_string = true;
  init_cache = true;
  free_cache = true;
}

abbrev server_config : Config
server_config = record create_server_config {
  enable_mesi = pos 1;
  block_private_ips = pos 1;
  allowed_hosts = codes "a.example" ∷ codes "b.example" ∷ [];
  cache_backend = some (codes "memory");
  cache_key_template = some (codes "${url}::${header:Accept}::${cookie:id}.");
  max_body_size = pos 64;
}

abbrev request_headers : List Entry
request_headers =
    record { key = some (codes "Accept"); val = some (codes "a\"b") }
    ∷ record { key = some (codes "cookie"); val = some (codes "id = 7 ;; x; =y") }
    ∷ []

-- A lookup that knows the second entry only.
abbrev lookup : List Entry → Bytes → Option Bytes
lookup (e ∷ f ∷ es) name = f.val
lookup _ name = none

abbrev page_request : Request
page_request = record {
  server = record {
    server_hostname = some (codes "www.example");
    port = 8080;
    http_scheme = codes "http";
    server_name = none;
    server_port = 80;
  };
  headers_in = some request_headers;
  table_get = lookup;
}

abbrev page_exchange : Exchange
page_exchange = record {
  request = page_request;
  content_type = some (codes "text/html; charset=utf-8");
  header_only = false;
  clength = pos 0;
}

-- The library answers every page with the same text, and accepts every initialisation.
abbrev page_env : Env
page_env = record {
  library = old_library;
  rc = λ c. pos 0;
  engine = λ c. some (codes "done");
  strtoff = λ s. none;
}

abbrev page_out : Out
page_out = record {
  surrogate_capability = some (codes "ESI/1.0");
  content_length = some (codes "9");
  edge_control = none;
  status = 200;
  in_chain = true;
}

abbrev loaded_process : Process
loaded_process = record fresh { go_module = true; esi = old_library }

abbrev page_state : State
page_state = record { process = loaded_process; ctx = none; out = page_out }

abbrev page : List Bucket
page = known (codes "<esi:") ∷ known (codes "x/>") ∷ eos ∷ []

mesi_response_filter-Filtered_example :
    Filtered page_env server_config page_exchange page_state page
      (eligible server_config page_exchange page_out)
      (mesi_response_filter page_env server_config page_exchange page_state page)
mesi_response_filter-Filtered_example =
    mesi_response_filter-Filtered page_env server_config page_exchange page_state page refl
      (inr (refl, λ _. (refl, omega arith)))

build_request_ctx_json-print_example :
    build_request_ctx_json lookup (some request_headers) server_config
    ≡ some (
        if needs_request server_config.cache_key_template
        then print (context_object lookup (some request_headers))
        else [])
build_request_ctx_json-print_example =
    build_request_ctx_json-print lookup (some request_headers) server_config

next_cookie-Round_example : Round (codes "; id = 7 ; x=1") (next_cookie (codes "; id = 7 ; x=1"))
next_cookie-Round_example = next_cookie-Round (codes "; id = 7 ; x=1")

read-build_parse_json_config_example :
    let object =
      config_object
        (parse_config_of server_config (pos 5) (codes "http://h/") (codes "a") (pos 1) (pos 0) [])
        (context_object lookup none) in
    read (size object) (
      build_parse_json_config server_config
        (pos 5)
        (codes "http://h/")
        (codes "a")
        (pos 1)
        (pos 0)
        [])
    ≡ some (object, [])
read-build_parse_json_config_example =
    read-build_parse_json_config server_config (pos 5) (pos 1) (pos 0) (codes "http://h/")
      (codes "a") [] (context_object lookup none) (λ e. absurd (cc))

-- Everything is one word.
abbrev one_word : Bytes → Bytes × Bytes
one_word s = (s, [])

abbrev block_of_two : List Directive
block_of_two = Directive.timeout (codes " 30") ∷ Directive.debug true ∷ []

Loaded-IsValid_example :
    IsValid (record create_server_config { timeout_seconds = pos 30; debug = pos 1 })
unfolding load apply set_timeout set_debug parse_nonneg_int sum_digits in_range step drop_while
    take_while
Loaded-IsValid_example = Loaded-IsValid one_word (block block_of_two refl)

serve-once_example :
    (cache_inits
          (λ c. pos 0)
          (serve old_library (λ c. pos 0) (server_config ∷ server_config ∷ []) loaded_process)
        + 0
      ≤ 1)
    × (client_inits
            (serve old_library (λ c. pos 0) (server_config ∷ server_config ∷ []) loaded_process)
          + 0
        ≤ 1)
serve-once_example =
    serve-once old_library (λ c. pos 0) (server_config ∷ server_config ∷ []) loaded_process

mesi_child_init-Sound_example :
    Sound (symbols_of (some old_library)) (mesi_child_init none (some old_library) fresh).0
mesi_child_init-Sound_example = mesi_child_init-Sound none (some old_library) fresh refl

prepare-Sound_example :
    Sound old_library
      (prepare old_library
        (λ c. pos 0)
        server_config
        (mesi_child_init none (some old_library) fresh).0).0
prepare-Sound_example =
    prepare-Sound old_library (mesi_child_init none (some old_library) fresh).0
      (mesi_child_init-Sound none (some old_library) fresh refl) (λ c. pos 0) server_config

parse_nonneg_int-Accepted_example :
    (parse_nonneg_int (some (codes " 042")) 1 100 ≡ ok 42) ↔ Accepted (codes " 042") 1 100 42
parse_nonneg_int-Accepted_example = parse_nonneg_int-Accepted (codes " 042") 1 100 42

parse_nonneg_off-AcceptedOff_example :
    (parse_nonneg_off (some (codes "5000000000")) 0 int64_max ≡ ok 5000000000)
    ↔ AcceptedOff (codes "5000000000") 0 int64_max 5000000000
parse_nonneg_off-AcceptedOff_example =
    parse_nonneg_off-AcceptedOff (codes "5000000000") 0 int64_max 5000000000 (omega arith)

parsers_defined_example :
    (parse_nonneg_int (some (codes "9999999999")) 0 100 ≢ err undefined)
    × (parse_nonneg_int (some (codes "9999999999")) 0 100 ≢ err no_digit)
    × (parse_nonneg_off (some (codes "9999999999")) 0 100 ≢ err undefined)
    × (parse_nonneg_off (some (codes "9999999999")) 0 100 ≢ err no_digit)
parsers_defined_example = parsers_defined (some (codes "9999999999")) 0 100 (omega arith)

build_cache_config_json-print_example :
    build_cache_config_json create_server_config
    ≡ Option.map print (cache_object create_server_config)
build_cache_config_json-print_example =
    build_cache_config_json-print create_server_config create-IsValid

fields-join-hosts_of_example :
    fields (join_hosts (hosts_of (codes " a.example\tb "))) ≡ fields (codes " a.example\tb ")
fields-join-hosts_of_example = fields-join-hosts_of (codes " a.example\tb ")

has_hostname_token-fields_example :
    has_hostname_token (codes " \t ") ≡ not (null (fields (codes " \t ")))
has_hostname_token-fields_example = has_hostname_token-fields (codes " \t ")

set_cache_memcached_servers-Pushed_example :
    Pushed create_server_config 0
      (hosts_of (codes "a:1 b:70000"))
      (set_cache_memcached_servers create_server_config (some (codes "a:1 b:70000")))
set_cache_memcached_servers-Pushed_example =
    set_cache_memcached_servers-Pushed create_server_config (codes "a:1 b:70000")

-- Every value is set.
abbrev full_config : Config
full_config = record {
  enable_mesi = pos 1;
  allowed_hosts = codes "a.example" ∷ [];
  block_private_ips = pos 1;
  allow_private_ips_for_allowed = pos 0;
  shared_http_client = pos 1;
  cache_backend = some (codes "redis");
  cache_size = pos 10;
  cache_ttl = pos 0;
  cache_redis_addr = some (codes "r:1");
  cache_redis_password = some [];
  cache_redis_db = pos 3;
  cache_memcached_servers = codes "m:1" ∷ [];
  cache_key_template = some [];
  max_depth = pos 2;
  timeout_seconds = pos 5;
  max_response_size = pos 0;
  max_body_size = pos 64;
  on_oversize = pos 1;
  max_concurrent_requests = pos 0;
  max_workers = pos 4;
  debug = pos 0;
  parse_on_header = pos 1;
  include_error_marker = some [];
}

mesi_header_signals_esi-SomeSignal_example :
    (mesi_header_signals_esi (some (codes "max-age=60, DCA=ESI")) ≡ true)
    ↔ SomeSignal (split_at b',' (codes "max-age=60, DCA=ESI"))
mesi_header_signals_esi-SomeSignal_example =
    mesi_header_signals_esi-SomeSignal (codes "max-age=60, DCA=ESI")

-- The second brigade goes over the limit of 64 bytes.
abbrev two_brigades : List (List Bucket)
two_brigades =
    (known (codes "<p>") ∷ [])
    ∷ (known (codes "0123456789012345678901234567890123456789012345678901234567890123456789") ∷ [])
    ∷ []

html_page : eligible server_config page_exchange page_out ≡ true
unfolding eligible is_html_content starts_ignore_case drop_while create_server_config
html_page = refl

stream-concat_example :
    (stream page_env server_config page_exchange page_state two_brigades).1
      ++ held (stream page_env server_config page_exchange page_state two_brigades).0
    ≡ held page_state ++ concat two_brigades
unfolding create_server_config
stream-concat_example =
    stream-concat page_env server_config page_exchange two_brigades page_state (tt, (tt, tt))
      (inr (refl, λ _. (refl, omega arith))) html_page refl

mesi_child_cleanup-Sound_example :
    Sound old_library (mesi_child_cleanup loaded_process).0 ↔ ((false ≡ false) × (false ≡ false))
mesi_child_cleanup-Sound_example = mesi_child_cleanup-Sound old_library loaded_process

is_html_content-HtmlType_example :
    (is_html_content (some (codes " Text/HTML;x")) ≡ true) ↔ HtmlType (codes " Text/HTML;x")
is_html_content-HtmlType_example = is_html_content-HtmlType (codes " Text/HTML;x")
