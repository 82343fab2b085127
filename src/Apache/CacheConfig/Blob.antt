-- ===== src/Apache/CacheConfig/Blob.antt =====
-- The cache blob is the text of a JSON object, and fits the buffer that is allocated for it.
use go_mesi.Base.{
  ◌+◌, ◌*◌, ◌≤◌, List, [], ◌∷◌, ◌++◌, Option, none, some, Bytes, codes, is_nonneg, if◌then◌else◌,
  or_else, bytes_eq, null, length, ◌≡◌, refl, sym, ap, ◌∙◌, arith, Bool-cases, inl, inr,
  append_assoc, length-append, NoneOf, All, is_control,
}
use mathlib.Core.Option
use go_mesi.Base.{Option-cases}
use go_mesi.Json.Text.{json_string, escape, escape_byte}
use go_mesi.Json.Value.{
  Json, str, num, arr, obj, Items, nil, cons, end, field, print, print_items, more_items,
}
use go_mesi.Apache.Config.{Config}
use go_mesi.Apache.Config.Valid.{IsValid, Clean, OrNull, unsafe_addr, unsafe_entry}
use go_mesi.Apache.CacheConfig.{
  escape_quotes, quoted, redis_addr, redis_password, redis_blob, more_servers, server_list,
  servers_size, blob_size, servers_blob, json_for, build_cache_config_json,
}

-- Without control characters the short escape is the escape of JSON.
escape_quotes-escape : (s : Bytes) → NoneOf is_control s → escape_quotes s ≡ escape s
unfolding escape_quotes escape escape_byte
escape_quotes-escape [] h = refl
escape_quotes-escape (c ∷ s) (hc, hs) = ground (arith, escape_quotes-escape s hs)

quoted-json : (s : Bytes) → NoneOf is_control s → quoted s ≡ json_string (some s)
unfolding quoted json_string
quoted-json s h = rw (escape_quotes-escape s h)

clean_addr : (s : Bytes) → NoneOf unsafe_addr s → NoneOf is_control s
clean_addr [] h = tt
clean_addr (c ∷ s) (hc, hs) = (ground arith, clean_addr s hs)

clean_entry : (s : Bytes) → NoneOf unsafe_entry s → NoneOf is_control s
clean_entry [] h = tt
clean_entry (c ∷ s) (hc, hs) = (ground arith, clean_entry s hs)

-- The object that the Redis blob stands for.
pub redis_object : Config → Json
redis_object conf = obj (
    field (codes "redisAddr") (str (redis_addr conf)) (
      field (codes "redisPassword") (str (or_else conf.cache_redis_password [])) (
        if is_nonneg conf.cache_redis_db
        then field (codes "redisDB") (num conf.cache_redis_db) end
        else end)))

items_of : List Bytes → Items
items_of [] = nil
items_of (s ∷ l) = cons (str s) (items_of l)

pub servers_object : Config → Json
unfolding items_of
servers_object conf =
    obj (field (codes "servers") (arr (items_of conf.cache_memcached_servers)) end)

more_servers-print :
    (l : List Bytes)
    → All (Clean unsafe_entry) l
    → more_servers l ++ b']' ∷ [] ≡ more_items (items_of l)
unfolding more_servers print items_of
more_servers-print [] h = refl
more_servers-print (s ∷ l) ((ne, clean), hs) =
    ap (λ t. b',' ∷ t)
      (append_assoc (quoted s) (more_servers l) (b']' ∷ [])
        ∙ rw (quoted-json s (clean_entry s clean), more_servers-print l hs))

server_list-print :
    (l : List Bytes)
    → All (Clean unsafe_entry) l
    → server_list l ++ b']' ∷ [] ≡ print_items (items_of l)
unfolding server_list print items_of
server_list-print [] h = refl
server_list-print (s ∷ l) ((ne, clean), hs) =
    append_assoc (quoted s) (more_servers l) (b']' ∷ [])
    ∙ rw (quoted-json s (clean_entry s clean), more_servers-print l hs)

redis_password-json :
    (conf : Config)
    → NoneOf is_control (or_else conf.cache_redis_password [])
    → redis_password conf ≡ json_string (some (or_else conf.cache_redis_password []))
unfolding redis_password json_string escape
redis_password-json conf h = text (or_else conf.cache_redis_password []) h
  where
    text :
        (s : Bytes)
        → NoneOf is_control s
        → (if null s then codes "\"\"" else quoted s) ≡ json_string (some s)
    text [] h = refl
    text (c ∷ s) h = quoted-json (c ∷ s) h

redis_blob-print :
    (conf : Config)
    → NoneOf is_control (redis_addr conf)
    → NoneOf is_control (or_else conf.cache_redis_password [])
    → redis_blob conf ≡ print (redis_object conf)
unfolding redis_blob redis_object print
redis_blob-print conf ha hp =
    let addr = quoted-json (redis_addr conf) ha in
    let password = redis_password-json conf hp in
    elim (Bool-cases (is_nonneg conf.cache_redis_db)) [
      | inl e ↦ rw e (rw (addr, password) (unfold json_string escape escape_byte in refl))
      | inr e ↦ rw e (rw (addr, password) (unfold json_string escape escape_byte in refl))
    ]

-- What each backend's blob stands for; "memory" and no backend have none.
object_for : Bytes → Config → Option Json
object_for backend conf =
    if bytes_eq backend (codes "redis")
    then some (redis_object conf)
    else if bytes_eq backend (codes "memcached")
    then some (servers_object conf)
    else none

pub cache_object : Config → Option Json
unfolding object_for
cache_object conf = elim conf.cache_backend [ none ↦ none | some backend ↦ object_for backend conf ]

servers_blob-print :
    (conf : Config)
    → All (Clean unsafe_entry) conf.cache_memcached_servers
    → servers_blob conf.cache_memcached_servers ≡ print (servers_object conf)
unfolding servers_blob servers_object print json_string escape escape_byte
servers_blob-print conf h = list conf.cache_memcached_servers h
  where
    list :
        (l : List Bytes)
        → All (Clean unsafe_entry) l
        → servers_blob l ≡ print (obj (field (codes "servers") (arr (items_of l)) end))
    list [] h = refl
    list (s ∷ l) h =
        ap (λ t. codes "{\"servers\":[" ++ t)
          (sym (append_assoc (server_list (s ∷ l)) (b']' ∷ []) (b'}' ∷ []))
            ∙ ap (λ t. t ++ b'}' ∷ []) (server_list-print (s ∷ l) h))

addr_control :
    (s : Option Bytes)
    → OrNull (Clean unsafe_addr) s
    → NoneOf is_control (or_else s (codes "localhost:6379"))
addr_control none h = ground arith
addr_control (some s) (ne, h) = clean_addr s h

password_control :
    (s : Option Bytes) → OrNull (NoneOf is_control) s → NoneOf is_control (or_else s [])
password_control none h = tt
password_control (some s) h = h

json_for-print :
    (conf : Config)
    → IsValid conf
    → (backend : Bytes) → json_for backend conf ≡ Option.map print (object_for backend conf)
unfolding json_for object_for
json_for-print conf v backend =
    let redis =
      redis_blob-print conf (addr_control _ v.cache_redis_addr)
        (password_control _ v.cache_redis_password) in
    let servers = servers_blob-print conf v.cache_memcached_servers in
    elim (Bool-cases (bytes_eq backend (codes "redis"))) [
      | inl e ↦ rw e (ap some redis)
      | inr e ↦ elim (Bool-cases (bytes_eq backend (codes "memcached"))) [
        | inl f ↦ rw (e, f) (ap some servers)
        | inr f ↦ rw (e, f) refl
      ]
    ]

-- The blob of a configuration that the directives accept is the text of its JSON object, and there
-- is none for the backends that have no object.
pub build_cache_config_json-print :
    (conf : Config)
    → IsValid conf
    → build_cache_config_json conf ≡ Option.map print (cache_object conf)
unfolding build_cache_config_json cache_object redis_object servers_object
build_cache_config_json-print conf v = elim (Option-cases conf.cache_backend) [
  | inl e ↦ rw e refl
  | inr (backend, e) ↦ rw e (json_for-print conf v backend)
]

pub length-escape_quotes : (s : Bytes) → length (escape_quotes s) ≤ length s * 2
unfolding escape_quotes
length-escape_quotes [] = omega arith
length-escape_quotes (c ∷ s) = ground (arith, length-escape_quotes s)

length-quoted : (s : Bytes) → length (quoted s) ≤ length s * 2 + 2
unfolding quoted
length-quoted s = omega (arith, length-append (escape_quotes s) (b'"' ∷ []), length-escape_quotes s)

length-more_servers : (l : List Bytes) → length (more_servers l) ≤ length l + servers_size l
unfolding more_servers servers_size
length-more_servers [] = omega arith
length-more_servers (s ∷ l) =
    omega (arith, length-append (quoted s) (more_servers l), length-quoted s, length-more_servers l)

-- The list of servers and its NUL fit the buffer that is allocated for them.
pub length-servers_blob : (l : List Bytes) → length (servers_blob l) + 1 ≤ blob_size l
unfolding servers_blob blob_size servers_size server_list
length-servers_blob [] = omega arith
length-servers_blob (s ∷ l) = omega (
  arith,
  length-append (quoted s ++ more_servers l) (codes "]}"),
  length-append (quoted s) (more_servers l),
  length-quoted s,
  length-more_servers l,
)
