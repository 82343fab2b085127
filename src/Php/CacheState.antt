-- ===== src/Php/CacheState.antt =====
-- php-ext/mesi.c: the record of the last initialisation of the cache, which keeps a worker from
-- replacing a cache that is in use by an empty one.
pub mod Again
use go_mesi.Base.{
  ℕ, ◌-◌, Bool, true, false, ◌&&◌, List, [], ◌∷◌, Bytes, ℤ, negsuc, if◌then◌else◌, null, take,
  bytes_eq, pos, ◌==◌,
}

-- mesi_cache_state_t, and the arguments of InitCacheWithConfig, which has the same fields.
pub record CacheState : Type 0 where
  pub backend : Bytes
  pub size : ℤ
  pub ttl : ℤ
  pub cfg_json : Bytes

-- g_cache_state as the module is loaded
abbrev pub loaded : CacheState
loaded = record { backend = []; size = negsuc 0; ttl = negsuc 0; cfg_json = [] }

abbrev pub backend_max : ℕ
backend_max = 16

abbrev pub cfg_max : ℕ
cfg_max = 4096

-- a == b
abbrev pub same_long : ℤ → ℤ → Bool
same_long (pos n) (pos m) = n == m
same_long (negsuc n) (negsuc m) = n == m
same_long _ _ = false

unfoldable pub mesi_cache_state_matches : CacheState → CacheState → Bool
mesi_cache_state_matches g o =
    if null o.backend && null g.backend
    then same_long g.size o.size && same_long g.ttl o.ttl && bytes_eq g.cfg_json o.cfg_json
    else bytes_eq g.backend o.backend
      && same_long g.size o.size
      && same_long g.ttl o.ttl
      && bytes_eq g.cfg_json o.cfg_json

-- strncpy with one byte less than the array, and a NUL at its end
unfoldable pub mesi_cache_state_record : CacheState → CacheState
mesi_cache_state_record o = record {
  backend = take (backend_max - 1) o.backend;
  size = o.size;
  ttl = o.ttl;
  cfg_json = take (cfg_max - 1) o.cfg_json;
}

-- What parse_with_config does: the state, whether it goes on, and the calls of InitCacheWithConfig.
-- `succeeds` tells whether such a call returns 0.
pub record Initialized : Type 0 where
  pub state : CacheState
  pub ok : Bool
  pub calls : List CacheState

unfoldable pub init_cache : (CacheState → Bool) → CacheState → CacheState → Initialized
unfolding mesi_cache_state_matches mesi_cache_state_record
init_cache succeeds g o =
    if mesi_cache_state_matches g o
    then record { state = g; ok = true; calls = [] }
    else if succeeds o
    then record { state = mesi_cache_state_record o; ok = true; calls = o ∷ [] }
    else record { state = g; ok = false; calls = o ∷ [] }
