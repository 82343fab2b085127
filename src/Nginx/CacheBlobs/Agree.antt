-- ===== src/Nginx/CacheBlobs/Agree.antt =====
-- The blobs fit their buffers, and are those of the Apache module for the same settings.
use go_mesi.Base.{
  ℕ, ◌+◌, ◌-◌, ◌*◌, ◌≤◌, ◌<◌, true, false, not, List, [], ◌∷◌, ◌++◌, Option, none, some, Bytes,
  codes, ltb, ℤ, pos, if◌then◌else◌, or_else, null, length, length-append, append_assoc, ◌≡◌, ◌≢◌,
  Bool, if-elim, refl, sym, ap, ◌∙◌, arith, lt→ltb, ◌%◌, is_nonneg,
}
use go_mesi.Json.Number.{show_nat, show_int}
use go_mesi.Apache.Config.{Config, create_server_config, non_empty}
use go_mesi.Apache.CacheConfig.{
  escape_quotes, quoted, redis_addr, redis_password, redis_blob, server_list, blob_size,
  servers_blob,
}
use go_mesi.Apache.CacheConfig.Blob.{length-escape_quotes, length-servers_blob}
use go_mesi.Nginx.Config.{LocConf}
use go_mesi.Nginx.Render.{Built, built, no_pool, overrun, fill, mesi_json_uint_len}
use go_mesi.Nginx.Render.Exact.{fill-built, mesi_json_write_uint-show_nat, len_from-bound}
use go_mesi.Nginx.CacheBlobs.{
  build_memcached_config_json, build_redis_config_json, count_tokens, measure_tokens, write_tokens,
  int_of, db_of,
}
use go_mesi.Nginx.CacheBlobs.Words.{words, words-nil, count_tokens-words, passes}

servers_blob-list :
    (l : List Bytes) → codes "{\"servers\":[" ++ (server_list l ++ codes "]}") ≡ servers_blob l
unfolding servers_blob server_list
servers_blob-list [] = refl
servers_blob-list (s ∷ l) = refl

less_one : (n m : ℕ) → n ≡ m → (if ltb 1 n then n - 1 else 0) ≡ m - 1
less_one n m e = ground arith

abbrev blob_total : Bytes → ℕ
blob_total s =
    12
    + 2
    + 1
    + (if ltb 1 (count_tokens false s) then count_tokens false s - 1 else 0)
    + measure_tokens (count_tokens false s) s

-- The blob of a list that is not empty.
list-blob :
    (s : Bytes)
    → fill
        (blob_total s)
        (codes "{\"servers\":[" ++ (write_tokens true (count_tokens false s) s ++ codes "]}"))
      ≡ built (servers_blob (words s))
list-blob s =
    let n = (count_tokens-words s).0 in
    let (w, m) = passes (count_tokens false s) s (sym n) in
    let total : blob_total s ≡ blob_size (words s) =
      unfold blob_size in omega (arith, less_one (count_tokens false s) (length (words s)) n, m) in
    rw (total, w, servers_blob-list (words s))
      (fill-built (blob_size (words s)) (servers_blob (words s)) (length-servers_blob (words s)))

memcached-Apache :
    (lcf : LocConf)
    → build_memcached_config_json true true lcf
      ≡ built (servers_blob (words (or_else lcf.cache_memcached_servers [])))
unfolding build_memcached_config_json servers_blob
memcached-Apache lcf = go lcf.cache_memcached_servers
  where
    go :
        (o : Option Bytes)
        → (if not (non_empty o)
            then built (codes "{\"servers\":[]}")
            else fill (blob_total (or_else o [])) (
                codes "{\"servers\":["
                ++ (write_tokens true (count_tokens false (or_else o [])) (or_else o [])
                    ++ codes "]}")))
          ≡ built (servers_blob (words (or_else o [])))
    go none = rw words-nil refl
    go (some []) = rw words-nil refl
    go (some (c ∷ s)) = list-blob (c ∷ s)

-- The Apache settings with the values of a location.
abbrev pub redis_settings : LocConf → Config
redis_settings lcf = record create_server_config {
  cache_redis_addr = if non_empty lcf.cache_redis_addr then lcf.cache_redis_addr else none;
  cache_redis_password = lcf.cache_redis_password;
  cache_redis_db = lcf.cache_redis_db;
}

two_digits : (n : ℕ) → n < 100 → length (show_nat n) ≤ 2
two_digits n h =
    let (same, len, _) = mesi_json_write_uint-show_nat n (omega arith) in
    let short : mesi_json_uint_len n ≤ 2 =
      unfold mesi_json_uint_len in len_from-bound n n 1 (omega arith) in
    omega (arith, ap length same, len, short)

int_of-pos : (n : ℕ) → n < 100 → int_of n ≡ pos n
int_of-pos n h =
    let small : n % 4294967296 ≡ n = omega arith in
    rw small (rw (lt→ltb n 2147483648 (omega arith)) refl)

password_text : (s : Bytes) → (if null s then codes "\"\"" else quoted s) ≡ quoted s
unfolding quoted escape_quotes
password_text [] = refl
password_text (c ∷ s) = refl

addr_text :
    (o : Option Bytes)
    → (if non_empty o then or_else o [] else codes "localhost:6379")
      ≡ or_else (if non_empty o then o else none) (codes "localhost:6379")
addr_text none = refl
addr_text (some []) = refl
addr_text (some (c ∷ s)) = refl

-- The text that nginx writes piece by piece is that of the quoted strings.
redis_text :
    (addr password tail : Bytes)
    → codes "{\"redisAddr\":\""
        ++ (escape_quotes addr
            ++ (codes "\",\"redisPassword\":\""
                ++ (escape_quotes password ++ (codes "\",\"redisDB\":" ++ tail))))
      ≡ codes "{\"redisAddr\":"
        ++ (quoted addr
            ++ (codes ",\"redisPassword\":"
                ++ (quoted password ++ (codes ",\"redisDB\":" ++ tail))))
unfolding quoted
redis_text addr password tail = simp append_assoc refl

-- Eleven bytes are left for the number and what closes the object.
redis_fits :
    (addr password : Bytes) (n : ℕ)
    → n < 100
    → length (
          codes "{\"redisAddr\":\""
          ++ (escape_quotes addr
              ++ (codes "\",\"redisPassword\":\""
                  ++ (escape_quotes password
                      ++ (codes "\",\"redisDB\":" ++ (show_nat n ++ codes "}"))))))
        + 1
      ≤ 49 + length addr * 2 + length password * 2
redis_fits addr password n h =
    let db = show_nat n ++ codes "}" in
    let tail = codes "\",\"redisDB\":" ++ db in
    let middle = codes "\",\"redisPassword\":\"" ++ (escape_quotes password ++ tail) in
    omega (
      arith,
      length-append (escape_quotes addr) middle,
      length-append (escape_quotes password) tail,
      length-append (show_nat n) (codes "}"),
      two_digits n h,
      length-escape_quotes addr,
      length-escape_quotes password,
    )

redis_parts :
    (addr password : Bytes) (v : ℤ) (n : ℕ) (other : Bytes)
    → v ≡ pos n
    → n < 100
    → fill (49 + length addr * 2 + length password * 2) (
        codes "{\"redisAddr\":\""
        ++ (escape_quotes addr
            ++ (codes "\",\"redisPassword\":\""
                ++ (escape_quotes password
                    ++ (codes "\",\"redisDB\":" ++ (show_int (int_of (db_of v)) ++ codes "}"))))))
      ≡ built (
          if is_nonneg v
          then codes "{\"redisAddr\":"
            ++ (quoted addr
                ++ (codes ",\"redisPassword\":"
                    ++ ((if null password then codes "\"\"" else quoted password)
                        ++ (codes ",\"redisDB\":" ++ (show_int v ++ codes "}")))))
          else other)
unfolding show_int
redis_parts addr password v n other e h =
    rw (e, int_of-pos n h, password_text password)
      (fill-built (49 + length addr * 2 + length password * 2) _ (redis_fits addr password n h)
        ∙ ap built (redis_text addr password (show_nat n ++ codes "}")))

pub redis-Apache :
    (lcf : LocConf) (n : ℕ)
    → lcf.cache_redis_db ≡ pos n
    → n < 100
    → build_redis_config_json true true lcf ≡ built (redis_blob (redis_settings lcf))
unfolding build_redis_config_json redis_blob redis_password
redis-Apache lcf n e h = rw (addr_text lcf.cache_redis_addr) (
    redis_parts (redis_addr (redis_settings lcf)) (or_else lcf.cache_redis_password [])
      lcf.cache_redis_db n _ e h)

-- The list of servers never passes the end of its buffer.
pub build_memcached_config_json-built :
    (cstr buf : Bool) (lcf : LocConf) → build_memcached_config_json cstr buf lcf ≢ overrun
build_memcached_config_json-built true true lcf =
    λ e. (let wrong = sym (memcached-Apache lcf) ∙ e in absurd cc)
build_memcached_config_json-built true false lcf =
    unfold build_memcached_config_json in
    if-elim (λ (b : Built). b ≡ overrun → ⊥) (not (non_empty lcf.cache_memcached_servers)) _ _
      (λ _ e. absurd cc) (λ _ e. absurd cc)
build_memcached_config_json-built false buf lcf =
    unfold build_memcached_config_json in
    if-elim (λ (b : Built). b ≡ overrun → ⊥) (not (non_empty lcf.cache_memcached_servers)) _ _
      (λ _ e.
        if-elim (λ (b : Built). b ≡ overrun → ⊥) buf (built (codes "{\"servers\":[]}")) no_pool
          (λ _ e. absurd cc) (λ _ e. absurd cc) e)
      (λ _ e. absurd cc)

-- A write behind the end needs both allocations.
pub redis-overrun :
    (cstr buf : Bool) (lcf : LocConf)
    → build_redis_config_json cstr buf lcf ≡ overrun
    → build_redis_config_json true true lcf ≡ overrun
unfolding build_redis_config_json
redis-overrun true true lcf e = e
redis-overrun true false lcf e = absurd cc
redis-overrun false buf lcf e = absurd cc

-- If the allocations succeed and the database number is one of 0 to 99, neither blob passes the end
-- of the buffer that is measured for it: the blob for memcached is the one that the Apache module
-- builds for the words of the list, and the blob for Redis the one that it builds for the same
-- address, password and database.
pub cache_blobs-Apache :
    (lcf : LocConf) (n : ℕ)
    → lcf.cache_redis_db ≡ pos n
    → n < 100
    → (build_memcached_config_json true true lcf
        ≡ built (servers_blob (words (or_else lcf.cache_memcached_servers []))))
      × (build_redis_config_json true true lcf ≡ built (redis_blob (redis_settings lcf)))
cache_blobs-Apache lcf n e h = (memcached-Apache lcf, redis-Apache lcf n e h)
