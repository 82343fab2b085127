-- ===== src/Php/CacheBlob.antt =====
-- php-ext/mesi.c: build_cache_config_json, the configuration for libgomesi's InitCacheWithConfig.
pub mod Overrun
use go_mesi.Base.{
  ℕ, ◌+◌, ◌-◌, ◌||◌, Bool, true, false, List, [], ◌∷◌, ◌++◌, Option, none, some, Bytes, codes, ltb,
  leb, ℤ, if◌then◌else◌, or_else, null, length, bytes_eq,
}
use go_mesi.Json.Number.{show_int}
use go_mesi.Php.Buffer.{mesi_putc, mesi_json_append_str}

-- The arguments. cache_memcached_servers is none if it is no array, and an element is none if it is
-- no string; the database is none if it is not set.
pub record CacheOptions : Type 0 where
  pub backend : Bytes
  pub cache_redis_addr : Bytes
  pub cache_redis_password : Option Bytes
  pub cache_redis_db : Option ℤ
  pub cache_memcached_servers : Option (List (Option Bytes))

-- The text; a return of -1; or nothing, after a write behind the end of `out`.
pub data Rendered : Type 0 where
  rendered : Bytes → Rendered
  failed : Rendered
  overrun : Rendered

abbrev pub or_failed : Option Bytes → (Bytes → Rendered) → Rendered
or_failed none next = failed
or_failed (some out) next = next out

-- memcpy, which tests nothing
abbrev pub copied : ℕ → Bytes → Bytes → (Bytes → Rendered) → Rendered
copied cap out s next = if ltb cap (length out + length s) then overrun else next (out ++ s)

-- if (pos + 2 >= cap) return -1; then the end of the object and a NUL, which are written without a
-- test of their own
abbrev pub closed : ℕ → Bytes → Bytes → Rendered
closed cap out s =
    if leb cap (length out + 2)
    then failed
    else if ltb cap (length out + length s + 1)
    then overrun
    else rendered (out ++ s)

-- The number of the database, if it is set.
abbrev pub put_db : ℕ → Bytes → Option ℤ → Option Bytes
put_db cap out none = some out
put_db cap out (some db) =
    let text = codes ",\"redisDB\":" ++ show_int db in
    if leb (cap - length out) (length text) then none else some (out ++ text)

unfoldable pub redis_blob : ℕ → CacheOptions → Rendered
unfolding mesi_json_append_str
redis_blob cap c =
    if ltb cap 32
    then failed
    else copied cap [] (codes "{\"redisAddr\":") (λ a.
      or_failed (mesi_json_append_str cap a c.cache_redis_addr) (λ b.
        copied cap b (codes ",\"redisPassword\":") (λ d.
          or_failed (mesi_json_append_str cap d (or_else c.cache_redis_password []))
            (λ e. or_failed (put_db cap e c.cache_redis_db) (λ f. closed cap f (codes "}"))))))

-- The loop over the servers; `first` is the flag of the code.
unfoldable pub put_servers : ℕ → Bool → Bytes → List (Option Bytes) → Option Bytes
unfolding mesi_putc mesi_json_append_str
put_servers cap first out [] = some out
put_servers cap first out (none ∷ vs) = none
put_servers cap first out (some s ∷ vs) =
    elim (if first then some out else mesi_putc cap out b',') [
      | none ↦ none
      | some o ↦ elim (mesi_json_append_str cap o s) [
        | none ↦ none
        | some q ↦ put_servers cap false q vs
      ]
    ]

unfoldable pub memcached_blob : ℕ → CacheOptions → Rendered
unfolding put_servers
memcached_blob cap c = elim c.cache_memcached_servers [
  | none ↦ failed
  | some vs ↦
      if ltb cap 16
      then failed
      else copied cap [] (codes "{\"servers\":[")
          (λ a. or_failed (put_servers cap true a vs) (λ b. closed cap b (codes "]}")))
]

unfoldable pub build_cache_config_json : ℕ → CacheOptions → Rendered
unfolding redis_blob memcached_blob
build_cache_config_json cap c =
    if null c.backend || bytes_eq c.backend (codes "memory")
    then (if ltb cap 3 then failed else rendered (codes "{}"))
    else if bytes_eq c.backend (codes "redis")
    then redis_blob cap c
    else if bytes_eq c.backend (codes "memcached")
    then memcached_blob cap c
    else failed
