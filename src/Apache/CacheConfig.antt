-- ===== src/Apache/CacheConfig.antt =====
-- servers/apache/mod_mesi.c: build_cache_config_json, the configuration blob for libgomesi's
-- InitCacheWithConfig.
pub mod Blob
use go_mesi.Base.{
  ℕ, ◌+◌, ◌-◌, ◌*◌, Bool, true, ◌||◌, List, [], ◌∷◌, ◌++◌, Option, none, some, Bytes, codes, ℤ,
  is_nonneg, if◌then◌else◌, or_else, bytes_eq, null, length, ◌==◌,
}
use go_mesi.Json.Number.{show_int}
use go_mesi.Apache.Config.{Config}

-- while (*r) { if (*r == '"' || *r == '\\') *w++ = '\\'; *w++ = *r++; }
unfoldable pub escape_quotes : Bytes → Bytes
escape_quotes [] = []
escape_quotes (c ∷ s) =
    (if c == b'"' || c == b'\\' then b'\\' ∷ c ∷ [] else c ∷ []) ++ escape_quotes s

unfoldable pub quoted : Bytes → Bytes
quoted s = b'"' ∷ (escape_quotes s ++ b'"' ∷ [])

abbrev pub redis_addr : Config → Bytes
redis_addr conf = or_else conf.cache_redis_addr (codes "localhost:6379")

-- pwd_esc ? pwd_esc : "\"\""
unfoldable pub redis_password : Config → Bytes
redis_password conf =
    let password = or_else conf.cache_redis_password [] in
    if null password then codes "\"\"" else quoted password

unfoldable pub redis_blob : Config → Bytes
unfolding redis_password
redis_blob conf =
    if is_nonneg conf.cache_redis_db
    then codes "{\"redisAddr\":"
      ++ (quoted (redis_addr conf)
          ++ (codes ",\"redisPassword\":"
              ++ (redis_password conf
                  ++ (codes ",\"redisDB\":" ++ (show_int conf.cache_redis_db ++ codes "}")))))
    else codes "{\"redisAddr\":"
      ++ (quoted (redis_addr conf)
          ++ (codes ",\"redisPassword\":" ++ (redis_password conf ++ codes "}")))

-- The loop over the servers: a comma stands before each but the first.
unfoldable pub more_servers : List Bytes → Bytes
more_servers [] = []
more_servers (s ∷ l) = b',' ∷ (quoted s ++ more_servers l)

unfoldable pub server_list : List Bytes → Bytes
unfolding more_servers
server_list [] = []
server_list (s ∷ l) = quoted s ++ more_servers l

-- The size that is allocated for the list of servers.
unfoldable pub servers_size : List Bytes → ℕ
servers_size [] = 0
servers_size (s ∷ l) = length s * 2 + 2 + servers_size l

unfoldable pub blob_size : List Bytes → ℕ
unfolding servers_size
blob_size servers = 12 + 2 + 1 + (length servers - 1) + servers_size servers

unfoldable pub servers_blob : List Bytes → Bytes
unfolding server_list
servers_blob servers =
    if null servers
    then codes "{\"servers\":[]}"
    else codes "{\"servers\":[" ++ (server_list servers ++ codes "]}")

-- The two comparisons of the backend's name.
pub json_for : Bytes → Config → Option Bytes
unfolding redis_blob servers_blob
json_for backend conf =
    if bytes_eq backend (codes "redis")
    then some (redis_blob conf)
    else if bytes_eq backend (codes "memcached")
    then some (servers_blob conf.cache_memcached_servers)
    else none

unfoldable pub build_cache_config_json : Config → Option Bytes
unfolding json_for
build_cache_config_json conf = elim conf.cache_backend [
  | none ↦ none
  | some backend ↦ json_for backend conf
]
