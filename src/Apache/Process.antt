-- ===== src/Apache/Process.antt =====
-- servers/apache/mod_mesi.c: the state of a worker process, that is the pointers into libgomesi and
-- the two flags; child init, child cleanup, and the initialisation of the cache and of the client.
pub mod Mapped
pub mod Lookup
pub mod Once
use go_mesi.Base.{
  ℕ, Bool, true, false, not, ◌&&◌, ◌||◌, List, [], ◌∷◌, ◌++◌, Option, none, some, Bytes, codes, ℤ,
  pos, negsuc, is_nonneg, is_pos, is_set, is_nat, if◌then◌else◌, or_else, bytes_eq, length, ltb,
}
use go_mesi.Apache.Config.{Config, non_empty, default_cache_size}
use go_mesi.Apache.CacheConfig.{build_cache_config_json}

-- What the library exports: dlsym finds a symbol exactly if its field is true.
pub record Symbols : Type 0 where
  pub parse : Bool
  pub parse_with_config : Bool
  pub parse_with_config_ex : Bool
  pub parse_with_config_ctx : Bool
  pub parse_json : Bool
  pub free_string : Bool
  pub init_cache : Bool
  pub init_cache_with_config : Bool
  pub free_cache : Bool
  pub init_http_client : Bool
  pub free_http_client : Bool

abbrev pub no_symbols : Symbols
no_symbols = record {
  parse = false;
  parse_with_config = false;
  parse_with_config_ex = false;
  parse_with_config_ctx = false;
  parse_json = false;
  free_string = false;
  init_cache = false;
  init_cache_with_config = false;
  free_cache = false;
  init_http_client = false;
  free_http_client = false;
}

-- A pointer is true if it is not NULL, and go_module too.
pub record Process : Type 0 where
  pub go_module : Bool
  pub esi : Symbols
  pub cache_initialized : Bool
  pub http_client_initialized : Bool
  pub force_flatten_error : Bool

-- The static variables before anything has run.
abbrev pub fresh : Process
fresh = record {
  go_module = false;
  esi = no_symbols;
  cache_initialized = false;
  http_client_initialized = false;
  force_flatten_error = false;
}

-- The calls into the library.
pub data Call : Type 0 where
  call_init_cache : Bytes → ℤ → ℤ → Call
  call_init_cache_with_config : Bytes → ℤ → ℤ → Bytes → Call
  call_free_cache : Call
  call_init_http_client : ℤ → Call
  call_free_http_client : Call
  call_dlclose : Call

abbrev call_if : Bool → Call → List Call → List Call
call_if b c cs = if b then c ∷ cs else cs

-- EsiInitHTTPClient and EsiFreeHTTPClient are not among the pointers that are set to NULL here.
unfoldable pub mesi_child_cleanup : Process → Process × List Call
mesi_child_cleanup p = (
  record p {
    go_module = false;
    esi = record no_symbols {
      init_http_client = p.esi.init_http_client;
      free_http_client = p.esi.free_http_client;
    };
    cache_initialized = false;
    http_client_initialized = false;
  },
  call_if p.esi.free_http_client call_free_http_client
      (call_if p.esi.free_cache call_free_cache (call_if p.go_module call_dlclose [])),
)

-- env_force && env_force[0] == '1' && env_force[1] == '\0'
abbrev pub forces_flatten_error : Option Bytes → Bool
forces_flatten_error none = false
forces_flatten_error (some s) = bytes_eq s (codes "1")

-- At least one parse function, and FreeString.
abbrev pub usable : Symbols → Bool
usable e = (e.parse || e.parse_with_config) && e.free_string

-- dlopen gives none, or the library's symbols.
unfoldable pub mesi_child_init : Option Bytes → Option Symbols → Process → Process × List Call
mesi_child_init env library p =
    let p1 = record p { force_flatten_error = forces_flatten_error env || p.force_flatten_error } in
    elim library [
      | none ↦ (record p1 { go_module = false }, [])
      | some found ↦
          if usable found
          then (record p1 { go_module = true; esi = found }, [])
          else (record p1 { go_module = false; esi = no_symbols }, call_dlclose ∷ [])
    ]

abbrev pub max_cache_config_json : ℕ
max_cache_config_json = 4096

abbrev pub needs_config : Bytes → Bool
needs_config backend = bytes_eq backend (codes "redis") || bytes_eq backend (codes "memcached")

abbrev pub size_of : Config → ℤ
size_of conf = if is_pos conf.cache_size then conf.cache_size else pos default_cache_size

abbrev pub ttl_of : Config → ℤ
ttl_of conf = if is_nonneg conf.cache_ttl then conf.cache_ttl else pos 0

-- What a function of the module leaves: the state, its result, and its calls.
pub record Ran : Type 0 where
  pub process : Process
  pub result : ℤ
  pub calls : List Call

-- The flag goes back to 0 on a failure, so that the next request tries again.
abbrev pub failed : Process → List Call → Ran
failed p cs = record {
  process = record p { cache_initialized = false };
  result = negsuc 0;
  calls = cs;
}

abbrev pub quiet : Process → Ran
quiet p = record { process = p; result = pos 0; calls = [] }

-- rc != 0
unfoldable pub after_init : (Call → ℤ) → Process → Call → Ran
after_init rc p c =
    if is_nat 0 (rc c)
    then record { process = p; result = pos 0; calls = c ∷ [] }
    else failed p (c ∷ [])

-- The blob's branches: none, too long, or passed on.
unfoldable pub init_with_blob : (Call → ℤ) → Config → Bytes → Process → Option Bytes → Ran
unfolding after_init
init_with_blob rc conf backend p none = failed p []
init_with_blob rc conf backend p (some cfg_json) =
    if ltb max_cache_config_json (length cfg_json)
    then failed p []
    else after_init rc p (call_init_cache_with_config backend (size_of conf) (ttl_of conf) cfg_json)

-- The pointer is looked up again if it is NULL and the library is loaded.
abbrev pub resolve : Bool → Process → Bool → Bool
resolve pointer p exported = pointer || p.go_module && exported

unfoldable pub init_backend : Symbols → (Call → ℤ) → Config → Bytes → Process → Ran
unfolding init_with_blob after_init
init_backend library rc conf backend p =
    if needs_config backend
    then (let pointer = resolve p.esi.init_cache_with_config p library.init_cache_with_config in
        let p1 = record p { esi = record p.esi { init_cache_with_config = pointer } } in
        if pointer
        then init_with_blob rc conf backend p1 (build_cache_config_json conf)
        else quiet p1)
    else (let pointer = resolve p.esi.init_cache p library.init_cache in
        let p1 = record p { esi = record p.esi { init_cache = pointer } } in
        if pointer
        then after_init rc p1 (call_init_cache backend (size_of conf) (ttl_of conf))
        else quiet p1)

-- `library` is what dlsym finds, `rc` what the library's functions return.
unfoldable pub mesi_init_cache : Symbols → (Call → ℤ) → Config → Process → Ran
unfolding init_backend
mesi_init_cache library rc conf p =
    if p.cache_initialized
    then quiet p
    else if non_empty conf.cache_backend
    then init_backend library rc conf (or_else conf.cache_backend [])
        (record p { cache_initialized = true })
    else quiet p

-- The flag -1 stands for the default, On.
abbrev pub block_private : Config → ℤ
block_private conf = if is_set conf.block_private_ips then conf.block_private_ips else pos 1

unfoldable pub mesi_init_http_client : Symbols → Config → Process → Ran
mesi_init_http_client library conf p =
    if p.http_client_initialized
    then quiet p
    else if is_nat 1 conf.shared_http_client
    then (let pointer = resolve p.esi.init_http_client p library.init_http_client in
        let p1 = record p { esi = record p.esi { init_http_client = pointer } } in
        if pointer
        then record {
          process = record p1 { http_client_initialized = true };
          result = pos 0;
          calls = call_init_http_client (block_private conf) ∷ [];
        }
        else record {
          process = record p1 { http_client_initialized = false };
          result = negsuc 0;
          calls = [];
        })
    else quiet p

-- What the filter runs for a page before it parses, with its tests.
unfoldable pub prepare : Symbols → (Call → ℤ) → Config → Process → Process × List Call
unfolding mesi_init_cache mesi_init_http_client
prepare library rc conf p =
    let r = if non_empty conf.cache_backend then mesi_init_cache library rc conf p else quiet p in
    let s =
      if is_nat 1 conf.shared_http_client
      then mesi_init_http_client library conf r.process
      else quiet r.process in
    (s.process, r.calls ++ s.calls)
