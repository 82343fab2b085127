-- ===== src/Nginx/CacheBlobs.antt =====
-- servers/nginx/ngx_http_mesi_module.c: build_memcached_config_json and build_redis_config_json,
-- which measure a blob, allocate it and write it. The configuration's texts hold no NUL.
pub mod Words
pub mod Agree
use go_mesi.Base.{
  ℕ, zero, suc, ◌+◌, ◌-◌, ◌*◌, ◌%◌, Bool, true, false, not, ◌&&◌, ◌||◌, List, [], ◌∷◌, ◌++◌, Option,
  none, some, Bytes, codes, ltb, ◌==◌, ℤ, pos, negsuc, if◌then◌else◌, or_else, null, length,
  take_while, drop_while,
}
use go_mesi.Json.Number.{show_int}
use go_mesi.Apache.Config.{non_empty}
use go_mesi.Apache.CacheConfig.{escape_quotes, quoted}
use go_mesi.Nginx.Config.{LocConf}
use go_mesi.Nginx.Render.{Built, built, no_pool, fill}

abbrev pub is_sp : ℕ → Bool
is_sp c = c == b' '

abbrev pub not_sp : ℕ → Bool
not_sp c = not (is_sp c)

-- The first pass: the number of tokens, behind a byte that is in one or not.
unfoldable pub count_tokens : Bool → Bytes → ℕ
count_tokens in_token [] = 0
count_tokens in_token (c ∷ s) =
    if c == b' '
    then count_tokens false s
    else if in_token
    then count_tokens true s
    else suc (count_tokens true s)

-- The second pass: the bytes of `ntok` tokens, each of them doubled, and their quotes.
unfoldable pub measure_tokens : ℕ → Bytes → ℕ
measure_tokens zero q = 0
measure_tokens (suc ntok) q =
    let start = drop_while is_sp q in
    length (take_while not_sp start) * 2 + 2 + measure_tokens ntok (drop_while not_sp start)

-- The third pass; `first` is ti == 0.
unfoldable pub write_tokens : Bool → ℕ → Bytes → Bytes
write_tokens first zero q = []
write_tokens first (suc ntok) q =
    let start = drop_while is_sp q in
    (if first then [] else codes ",")
    ++ (quoted (take_while not_sp start) ++ write_tokens false ntok (drop_while not_sp start))

-- `cstr` and `buf` tell whether the two allocations succeed.
unfoldable pub build_memcached_config_json : Bool → Bool → LocConf → Built
unfolding count_tokens measure_tokens write_tokens fill
build_memcached_config_json cstr buf lcf =
    if not (non_empty lcf.cache_memcached_servers)
    then (if buf then built (codes "{\"servers\":[]}") else no_pool)
    else let servers = or_else lcf.cache_memcached_servers [] in
      let ntok = count_tokens false servers in
      let total = 12 + 2 + 1 + (if ltb 1 ntok then ntok - 1 else 0) + measure_tokens ntok servers in
      if cstr && buf
      then fill total (codes "{\"servers\":[" ++ (write_tokens true ntok servers ++ codes "]}"))
      else no_pool

-- (int)db of an ngx_int_t that is not negative
abbrev pub int_of : ℕ → ℤ
int_of n = let m = n % 4294967296 in if ltb m 2147483648 then pos m else negsuc (4294967295 - m)

-- if (db < 0) db = 0;
abbrev pub db_of : ℤ → ℕ
db_of (pos n) = n
db_of (negsuc n) = 0

-- The tail that snprintf cuts to the buffer; the length that it returns is the whole tail's, and the
-- NUL is written behind that.
unfoldable pub build_redis_config_json : Bool → Bool → LocConf → Built
unfolding fill
build_redis_config_json cstr buf lcf =
    let addr =
      if non_empty lcf.cache_redis_addr
      then or_else lcf.cache_redis_addr []
      else codes "localhost:6379" in
    let password = or_else lcf.cache_redis_password [] in
    let total = 49 + length addr * 2 + length password * 2 in
    if cstr && buf
    then fill total (
        codes "{\"redisAddr\":\""
        ++ (escape_quotes addr
            ++ (codes "\",\"redisPassword\":\""
                ++ (escape_quotes password
                    ++ (codes "\",\"redisDB\":"
                        ++ (show_int (int_of (db_of lcf.cache_redis_db)) ++ codes "}"))))))
    else no_pool
