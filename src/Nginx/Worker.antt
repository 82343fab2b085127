-- ===== src/Nginx/Worker.antt =====
-- servers/nginx/ngx_http_mesi_module.c: the state of a worker process, that is the pointers into
-- libgomesi and what it remembers of the cache; ngx_http_mesi_thread_init and thread_exit.
pub mod Lifecycle
use go_mesi.Base.{
  ℕ, Bool, true, false, List, [], ◌∷◌, ◌++◌, Option, none, some, Bytes, ℤ, if◌then◌else◌,
}

-- What the library exports: dlsym finds a symbol exactly if its field is true. As the pointers of a
-- worker, a field is true if the pointer is not NULL.
pub record Symbols : Type 0 where
  pub parse : Bool
  pub parse_with_config : Bool
  pub parse_with_config_ex : Bool
  pub parse_with_config_ctx : Bool
  pub parse_json : Bool
  pub init_cache : Bool
  pub init_cache_with_config : Bool
  pub free_cache : Bool

pub record Worker : Type 0 where
  pub go_module : Bool
  pub esi : Symbols
  pub cache_initialized : Bool
  pub cache_last_backend : Option Bytes

abbrev pub no_symbols : Symbols
no_symbols = record {
  parse = false;
  parse_with_config = false;
  parse_with_config_ex = false;
  parse_with_config_ctx = false;
  parse_json = false;
  init_cache = false;
  init_cache_with_config = false;
  free_cache = false;
}

-- The static variables before anything has run.
abbrev pub fresh : Worker
fresh = record {
  go_module = false;
  esi = no_symbols;
  cache_initialized = false;
  cache_last_backend = none;
}

-- The calls into the library, with their arguments in their order.
pub data Call : Type 0 where
  init_cache : Bytes → ℤ → ℤ → Call
  init_cache_with_config : Bytes → ℤ → ℤ → Bytes → Call
  free_cache : Call
  dlclose : Call
  parse : Bytes → ℤ → Bytes → Call
  parse_with_config : Bytes → ℤ → Bytes → Bytes → ℤ → Call
  parse_with_config_ex : Bytes → ℤ → Bytes → Bytes → ℤ → ℤ → Call
  parse_with_config_ctx : Bytes → ℤ → Bytes → Bytes → ℤ → ℤ → Bytes → Bytes → Call
  parse_json : Bytes → Bytes → Call

-- true is NGX_OK. dlopen gives none, or the library's symbols; EsiParse is set to what dlsym finds
-- before its test, and the other pointers behind it.
unfoldable pub thread_init : Option Symbols → Worker → Worker × Bool
thread_init none w = (record w { go_module = false }, false)
thread_init (some found) w =
    if found.parse
    then (record w { go_module = true; esi = found }, true)
    else (record w { go_module = true; esi = record w.esi { parse = false } }, false)

-- The pointers keep their values.
unfoldable pub thread_exit : Worker → Worker × List Call
thread_exit w =
    let freed = if w.esi.free_cache then free_cache ∷ [] else [] in
    if w.go_module
    then (
      record w { go_module = false; cache_initialized = false; cache_last_backend = none },
      freed ++ dlclose ∷ [],
    )
    else (w, freed)
