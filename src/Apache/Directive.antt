-- ===== src/Apache/Directive.antt =====
-- servers/apache/mod_mesi.c: the setters of the directives that take a flag, a number or a word.
-- A setter gives the configuration back, with the message that refuses the directive, if any.
pub mod Servers
pub mod Template
pub mod Load
use go_mesi.Base.{
  ℕ, Bool, true, false, not, ◌&&◌, ◌||◌, List, [], ◌∷◌, ◌++◌, map, Option, none, some, Bytes, ℤ,
  pos, codes, if◌then◌else◌, null, bytes_eq, to_lower, drop_while, any_byte, is_control, ◌==◌,
}
use go_mesi.Apache.Number.{NumError, Parsed, ok, err, parse_nonneg_int, parse_nonneg_off}
use go_mesi.Apache.Config.{
  Config, on_oversize_pass, on_oversize_error, max_cache_size, max_cache_ttl_seconds, max_redis_db,
  max_max_depth, max_timeout_seconds, max_max_response_size, max_max_concurrent_requests,
  max_max_workers,
}
use go_mesi.Apache.Hosts.{is_space, has_hostname_token, hosts_of}

-- The messages, in the order of the source; their texts are left out.
pub data Refusal : Type 0 where
  hosts_missing hosts_quoted marker_missing marker_extra oversize_unknown : Refusal
  backend_missing backend_unknown addr_missing addr_character addr_shape addr_port : Refusal
  password_control servers_missing servers_quoted servers_character servers_shape : Refusal
  servers_port servers_too_many servers_empty template_missing template_too_long : Refusal
  template_control template_del template_interpolated : Refusal
  number : NumError → Refusal

abbrev pub Outcome : Type 0
Outcome = Config × Option Refusal

abbrev pub accept : Config → Outcome
accept c = (c, none)

abbrev pub refuse : Config → Refusal → Outcome
refuse c why = (c, some why)

-- The flag directives: Apache passes 0 or 1.
abbrev pub flag : Bool → ℤ
flag true = pos 1
flag false = pos 0

pub set_enable_mesi : Config → Bool → Outcome
set_enable_mesi c on = accept (record c { enable_mesi = flag on })

pub set_block_private_ips : Config → Bool → Outcome
set_block_private_ips c on = accept (record c { block_private_ips = flag on })

pub set_allow_private_for_allowed : Config → Bool → Outcome
set_allow_private_for_allowed c on = accept (record c { allow_private_ips_for_allowed = flag on })

pub set_shared_http_client : Config → Bool → Outcome
set_shared_http_client c on = accept (record c { shared_http_client = flag on })

unfoldable pub set_debug : Config → Bool → Outcome
set_debug c on = accept (record c { debug = flag on })

pub set_parse_on_header : Config → Bool → Outcome
set_parse_on_header c on = accept (record c { parse_on_header = flag on })

pub set_allowed_hosts : Config → Option Bytes → Outcome
set_allowed_hosts c none = refuse c hosts_missing
set_allowed_hosts c (some line) =
    if not (has_hostname_token line)
    then refuse c hosts_missing
    else if any_byte (λ b. b == b'"') line || any_byte (λ b. b == b'\'') line
    then refuse c hosts_quoted
    else accept (record c { allowed_hosts = c.allowed_hosts ++ hosts_of line })

-- `if (err) return err;` and the assignment of the number
abbrev store : Config → Parsed → (ℤ → Config) → Outcome
store c (ok v) put = accept (put (pos v))
store c (err e) put = refuse c (number e)

pub set_max_depth : Config → Option Bytes → Outcome
set_max_depth c arg =
    store c (parse_nonneg_int arg 0 max_max_depth) (λ v. record c { max_depth = v })

unfoldable pub set_timeout : Config → Option Bytes → Outcome
set_timeout c arg =
    store c (parse_nonneg_int arg 1 max_timeout_seconds) (λ v. record c { timeout_seconds = v })

pub set_max_response_size : Config → Option Bytes → Outcome
set_max_response_size c arg =
    store c (parse_nonneg_off arg 0 max_max_response_size) (λ v. record c { max_response_size = v })

pub set_max_body_size : Config → Option Bytes → Outcome
set_max_body_size c arg =
    store c (parse_nonneg_off arg 0 max_max_response_size) (λ v. record c { max_body_size = v })

pub set_max_concurrent_requests : Config → Option Bytes → Outcome
set_max_concurrent_requests c arg =
    store c (parse_nonneg_int arg 0 max_max_concurrent_requests)
      (λ v. record c { max_concurrent_requests = v })

pub set_max_workers : Config → Option Bytes → Outcome
set_max_workers c arg =
    store c (parse_nonneg_int arg 0 max_max_workers) (λ v. record c { max_workers = v })

pub set_cache_size : Config → Option Bytes → Outcome
set_cache_size c arg =
    store c (parse_nonneg_int arg 1 max_cache_size) (λ v. record c { cache_size = v })

pub set_cache_ttl : Config → Option Bytes → Outcome
set_cache_ttl c arg =
    store c (parse_nonneg_int arg 0 max_cache_ttl_seconds) (λ v. record c { cache_ttl = v })

pub set_cache_redis_db : Config → Option Bytes → Outcome
set_cache_redis_db c arg =
    store c (parse_nonneg_int arg 0 max_redis_db) (λ v. record c { cache_redis_db = v })

-- strcasecmp(a, b) == 0
unfoldable pub eq_ignore_case : Bytes → Bytes → Bool
eq_ignore_case a b = bytes_eq (map to_lower a) (map to_lower b)

pub set_on_oversize : Config → Bytes → Outcome
unfolding eq_ignore_case
set_on_oversize c arg =
    if eq_ignore_case arg (codes "pass")
    then accept (record c { on_oversize = on_oversize_pass })
    else if eq_ignore_case arg (codes "error")
    then accept (record c { on_oversize = on_oversize_error })
    else refuse c oversize_unknown

pub set_cache_backend : Config → Option Bytes → Outcome
set_cache_backend c none = refuse c backend_missing
set_cache_backend c (some arg) =
    if bytes_eq arg (codes "memory")
    then accept (record c { cache_backend = some (codes "memory") })
    else if bytes_eq arg (codes "redis")
    then accept (record c { cache_backend = some (codes "redis") })
    else if bytes_eq arg (codes "memcached")
    then accept (record c { cache_backend = some (codes "memcached") })
    else if null arg
    then accept (record c { cache_backend = some [] })
    else refuse c backend_unknown

pub set_cache_redis_password : Config → Option Bytes → Outcome
set_cache_redis_password c none = accept (record c { cache_redis_password = some [] })
set_cache_redis_password c (some arg) =
    if any_byte is_control arg
    then refuse c password_control
    else accept (record c { cache_redis_password = some arg })

-- The library's `ap_getword_conf` takes the first word, and the rest behind the blanks that
-- follow it, from a line.
pub set_include_error_marker : (Bytes → Bytes × Bytes) → Config → Option Bytes → Outcome
set_include_error_marker getword c none = refuse c marker_missing
set_include_error_marker getword c (some arg) =
    let p = drop_while is_space arg in
    if null p
    then refuse c marker_missing
    else let (marker, rest) = getword p in
      if not (null rest)
      then refuse c marker_extra
      else accept (record c { include_error_marker = some marker })
