-- ===== src/Nginx/Parse.antt =====
-- servers/nginx/ngx_http_mesi_module.c: parse(), which tests the numbers, initialises the cache and
-- calls the entry point of libgomesi that the settings need.
pub mod Guards
pub mod Protects
pub mod Calls
pub mod Caches
pub mod Answers
use go_mesi.Base.{
  ℕ, Bool, true, false, not, ◌&&◌, ◌||◌, List, [], ◌∷◌, ◌++◌, Option, none, some, Bytes, codes, ltb,
  ℤ, pos, negsuc, is_set, is_some, to_nat, if◌then◌else◌, or_else, bytes_eq,
}
use go_mesi.Apache.Config.{non_empty}
use go_mesi.Apache.Filter.{c_string}
use go_mesi.Nginx.Config.{
  LocConf, max_max_depth, max_timeout_seconds, max_max_response_size, max_max_concurrent_requests,
  max_max_workers,
}
use go_mesi.Nginx.Render.{Built, built, no_pool, overrun}
use go_mesi.Nginx.RequestCtx.{Header, build_request_ctx_json}
use go_mesi.Nginx.ParseConfig.{build_parse_json_config}
use go_mesi.Nginx.CacheBlobs.{build_memcached_config_json, build_redis_config_json}
use go_mesi.Nginx.Worker.{Worker, Call}
use go_mesi.Nginx.Worker

-- r->schema, the value of Host, which is none where headers_in.host is NULL, and the list headers_in
pub record Request : Type 0 where
  pub schema : Bytes
  pub host : Option Bytes
  pub headers_in : List Header

-- Which of the allocations succeed, by what they are for.
pub record Alloc : Type 0 where
  pub backend : Bool
  pub blob_copy : Bool
  pub blob : Bool
  pub base_url : Bool
  pub input_cstr : Bool
  pub base_url_cstr : Bool
  pub hosts_cstr : Bool
  pub ctx_json : Bool
  pub parse_config : Bool
  pub template_cstr : Bool
  pub output : Bool

-- The ngx_str_t that parse returns: bytes, or a length of 0 with NULL; or what C leaves undefined,
-- behind a read of NULL or a write behind the end of a buffer.
pub data Output : Type 0 where
  page : Bytes → Output
  null_str : Output
  undefined : Output

-- (ngx_str_t){0, (u_char *)""}
abbrev pub closed : Output
closed = page []

-- v < lo || v > hi
abbrev pub outside : ℕ → ℕ → ℤ → Bool
outside lo hi (pos n) = ltb n lo || ltb hi n
outside lo hi (negsuc n) = true

-- The five guards in front of everything else; true fails the request.
unfoldable pub bad_settings : LocConf → Bool
bad_settings lcf =
    outside 0 max_max_depth lcf.max_depth
    || is_set lcf.timeout_seconds && outside 1 max_timeout_seconds lcf.timeout_seconds
    || is_set lcf.max_response_size && outside 0 max_max_response_size lcf.max_response_size
    || is_set lcf.max_concurrent_requests
      && outside 0 max_max_concurrent_requests lcf.max_concurrent_requests
    || is_set lcf.max_workers && outside 0 max_max_workers lcf.max_workers

-- The backend differs from the one that was initialised last.
abbrev pub needs_cache : LocConf → Worker → Bool
needs_cache lcf w =
    non_empty lcf.cache_backend
    && (not w.cache_initialized
        || not (bytes_eq (or_else w.cache_last_backend []) (or_else lcf.cache_backend [])))

-- The calls that initialise the cache, or a blob that was written behind the end of its buffer.
pub data Cached : Type 0 where
  called : List Call → Cached
  broken_blob : Cached

-- A call with the blob, if there is one.
abbrev pub call_with_blob : Bytes → LocConf → Built → Cached
call_with_blob backend lcf (built config_json) =
    called (Worker.init_cache_with_config backend lcf.cache_size lcf.cache_ttl config_json ∷ [])
call_with_blob backend lcf no_pool = called []
call_with_blob backend lcf overrun = broken_blob

-- What a negative result of the library causes is a message in the log, whose text is left out.
unfoldable pub cache_calls : Alloc → LocConf → Worker → Bytes → Cached
cache_calls alloc lcf w backend =
    if bytes_eq backend (codes "memcached")
    then (if not w.esi.init_cache_with_config
        then called []
        else call_with_blob backend lcf
            (build_memcached_config_json alloc.blob_copy alloc.blob lcf))
    else if bytes_eq backend (codes "redis")
    then (if not w.esi.init_cache_with_config
        then called []
        else call_with_blob backend lcf (build_redis_config_json alloc.blob_copy alloc.blob lcf))
    else if w.esi.init_cache
    then called (Worker.init_cache backend lcf.cache_size lcf.cache_ttl ∷ [])
    else called []

-- What parse leaves behind.
pub record Parsed : Type 0 where
  pub worker : Worker
  pub output : Output
  pub calls : List Call

-- Some directive needs ParseJson.
unfoldable pub configured : LocConf → Bool
configured lcf =
    is_set lcf.timeout_seconds
    || is_set lcf.max_response_size
    || is_set lcf.max_concurrent_requests
    || is_set lcf.max_workers
    || is_set lcf.debug
    || is_set lcf.parse_on_header
    || is_some lcf.include_error_marker

-- ngx_snprintf(…, "%V://%V/", &scheme, &host); parse_page ends before this without a host.
abbrev pub base_url_of : Request → Bytes
base_url_of r = r.schema ++ (codes "://" ++ (or_else r.host [] ++ codes "/"))

abbrev pub hosts_of : LocConf → Bytes
hosts_of lcf = or_else lcf.allowed_hosts []

-- What the chain of entry points ends with: the calls, and the message of the last one, which is
-- NULL where there was none or the library gave none; or a failed allocation; or a write behind the
-- end of a buffer.
pub data Message : Type 0 where
  message : List Call → Option Bytes → Message
  out_of_pool : Message
  broken : Message

-- The entry points without a template; `before` are the calls that gave no message.
unfoldable pub legacy_calls :
    (Call → Option Bytes) → LocConf → Worker → Request → Bytes → List Call → Message
legacy_calls lib lcf w r input before =
    let url = base_url_of r in
    let ask = λ (c : Call). message (before ++ c ∷ []) (lib c) in
    if w.esi.parse_with_config_ex
    then ask (
        Worker.parse_with_config_ex input lcf.max_depth url (hosts_of lcf) lcf.block_private_ips
          lcf.allow_private_ips_for_allowed)
    else if w.esi.parse_with_config
    then ask (Worker.parse_with_config input lcf.max_depth url (hosts_of lcf) lcf.block_private_ips)
    else if non_empty lcf.allowed_hosts
    then message before none
    else ask (Worker.parse input lcf.max_depth url)

-- A template first goes to ParseWithConfigCtx; without a message the chain goes on without it.
abbrev pub after_ctx :
    (Call → Option Bytes) → LocConf → Worker → Request → Bytes → Call → Option Bytes → Message
after_ctx lib lcf w r input c none = legacy_calls lib lcf w r input (c ∷ [])
after_ctx lib lcf w r input c (some m) = message (c ∷ []) (some m)

-- A context that could be built is passed on.
abbrev pub with_ctx : Built → (Bytes → Message) → Message
with_ctx (built ctx_json) next = next ctx_json
with_ctx no_pool next = out_of_pool
with_ctx overrun next = broken

abbrev pub ctx_call : LocConf → Request → Bytes → Bytes → Call
ctx_call lcf r input ctx_json =
    Worker.parse_with_config_ctx input lcf.max_depth (base_url_of r) (hosts_of lcf)
      lcf.block_private_ips lcf.allow_private_ips_for_allowed (or_else lcf.cache_key_template [])
      ctx_json

unfoldable pub template_calls :
    Alloc → (Call → Option Bytes) → LocConf → Worker → Request → Bytes → Message
unfolding legacy_calls
template_calls alloc lib lcf w r input =
    if non_empty lcf.cache_key_template && w.esi.parse_with_config_ctx
    then (if alloc.template_cstr
        then with_ctx (build_request_ctx_json alloc.ctx_json r.headers_in lcf.cache_key_template)
            (λ ctx_json.
              let c = ctx_call lcf r input ctx_json in after_ctx lib lcf w r input c (lib c))
        else out_of_pool)
    else legacy_calls lib lcf w r input []

-- A NULL from ParseJson is not tried again.
abbrev pub ask_json : (Call → Option Bytes) → Bytes → Bytes → Message
ask_json lib input cfg =
    message (Worker.parse_json input cfg ∷ []) (lib (Worker.parse_json input cfg))

abbrev pub json_with_ctx :
    Alloc → (Call → Option Bytes) → LocConf → Request → Bytes → Bytes → Message
json_with_ctx alloc lib lcf r input ctx_json =
    with_ctx
      (build_parse_json_config alloc.parse_config lcf (to_nat lcf.max_depth) (base_url_of r)
        (hosts_of lcf) (some ctx_json))
      (ask_json lib input)

unfoldable pub json_calls : Alloc → (Call → Option Bytes) → LocConf → Request → Bytes → Message
json_calls alloc lib lcf r input =
    with_ctx (build_request_ctx_json alloc.ctx_json r.headers_in lcf.cache_key_template)
      (json_with_ctx alloc lib lcf r input)

-- The copy of the message into the pool.
abbrev pub outcome : Alloc → Worker → List Call → Message → Parsed
outcome alloc w before (message cs (some m)) = record {
  worker = w;
  output = if alloc.output then page m else null_str;
  calls = before ++ cs;
}
outcome alloc w before (message cs none) = record {
  worker = w;
  output = closed;
  calls = before ++ cs;
}
outcome alloc w before out_of_pool = record { worker = w; output = closed; calls = before }
outcome alloc w before broken = record { worker = w; output = undefined; calls = before }

-- From the base URL on; `input` is what the copy of the page is to the library.
unfoldable pub parse_page :
    Alloc → (Call → Option Bytes) → LocConf → Request → Bytes → Worker → List Call → Parsed
unfolding configured template_calls json_calls
parse_page alloc lib lcf r input w before =
    if not (is_some r.host)
    then record { worker = w; output = undefined; calls = before }
    else if not alloc.base_url
    then record { worker = w; output = null_str; calls = before }
    else if not (
        alloc.input_cstr
        && alloc.base_url_cstr
        && (not (non_empty lcf.allowed_hosts) || alloc.hosts_cstr))
    then record { worker = w; output = closed; calls = before }
    else outcome alloc w before (
        if configured lcf && w.esi.parse_json
        then json_calls alloc lib lcf r input
        else template_calls alloc lib lcf w r input)

-- Behind the initialisation of the cache.
abbrev pub with_cache :
    Alloc → (Call → Option Bytes) → LocConf → Request → Bytes → Worker → Cached → Parsed
with_cache alloc lib lcf r input w (called cs) =
    parse_page alloc lib lcf r input
      (record w { cache_initialized = true; cache_last_backend = lcf.cache_backend }) cs
with_cache alloc lib lcf r input w broken_blob = record {
  worker = w;
  output = undefined;
  calls = [];
}

-- `lib` is what the entry points of the library return for their arguments, NULL as none. The copy
-- that ngx_str_to_cstr makes of the page ends for the library at the first NUL.
unfoldable pub parse : Alloc → (Call → Option Bytes) → LocConf → Request → Bytes → Worker → Parsed
unfolding bad_settings cache_calls parse_page
parse alloc lib lcf r input w =
    if bad_settings lcf
    then record { worker = w; output = closed; calls = [] }
    else if needs_cache lcf w
    then (if alloc.backend
        then with_cache alloc lib lcf r (c_string input) w
            (cache_calls alloc lcf w (or_else lcf.cache_backend []))
        else record { worker = w; output = closed; calls = [] })
    else parse_page alloc lib lcf r (c_string input) w []
