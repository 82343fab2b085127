-- ===== src/Nginx/Config.antt =====
-- servers/nginx/ngx_http_mesi_module.c: the configuration of a location, create_loc_conf and
-- merge_loc_conf. An ngx_int_t, an off_t or a flag is an integer, the unset value -1 included; an
-- ngx_str_t is an Option, none where its data is NULL.
pub mod Valid
pub mod Merge
use go_mesi.Base.{
  ℕ, zero, suc, ◌+◌, Bool, true, false, not, [], ◌∷◌, Option, none, some, Bytes, ltb, ◌==◌, ℤ, pos,
  unset, is_set, is_some, or_else, if◌then◌else◌, null, length, is_control,
}
use go_mesi.Apache.Hosts.{is_space, unicode_space}
use go_mesi.Apache.Config.{non_empty}

-- The MESI_MAX_* and MESI_DEFAULT_* constants.
abbrev pub max_cache_key_template : ℕ
max_cache_key_template = 4096

abbrev pub max_max_depth : ℕ
max_max_depth = 10000

abbrev pub default_max_depth : ℕ
default_max_depth = 5

abbrev pub max_timeout_seconds : ℕ
max_timeout_seconds = 86400

abbrev pub max_max_response_size : ℕ
max_max_response_size = 9223372036854775806

abbrev pub max_max_concurrent_requests : ℕ
max_max_concurrent_requests = 999999999

abbrev pub max_max_workers : ℕ
max_max_workers = 999999999

abbrev pub on_oversize_pass : ℕ
on_oversize_pass = 0

abbrev pub on_oversize_error : ℕ
on_oversize_error = 1

-- NGX_CONF_UNSET_UINT, an ngx_uint_t with every bit set
abbrev pub unset_uint : ℕ
unset_uint = 18446744073709551615

pub record LocConf : Type 0 where
  pub enable_mesi : ℤ
  pub max_depth : ℤ
  pub timeout_seconds : ℤ
  pub max_response_size : ℤ
  pub max_concurrent_requests : ℤ
  pub max_workers : ℤ
  pub cache_backend : Option Bytes
  pub cache_size : ℤ
  pub cache_ttl : ℤ
  pub cache_memcached_servers : Option Bytes
  pub cache_redis_addr : Option Bytes
  pub cache_redis_password : Option Bytes
  pub cache_redis_db : ℤ
  pub block_private_ips : ℤ
  pub allowed_hosts : Option Bytes
  pub allow_private_ips_for_allowed : ℤ
  pub cache_key_template : Option Bytes
  pub max_body_size : ℤ
  pub on_oversize : ℕ
  pub debug : ℤ
  pub parse_on_header : ℤ
  pub include_error_marker : Option Bytes

unfoldable pub create_loc_conf : LocConf
create_loc_conf = record {
  enable_mesi = unset;
  max_depth = unset;
  timeout_seconds = unset;
  max_response_size = unset;
  max_concurrent_requests = unset;
  max_workers = unset;
  cache_backend = none;
  cache_size = unset;
  cache_ttl = unset;
  cache_memcached_servers = none;
  cache_redis_addr = none;
  cache_redis_password = none;
  cache_redis_db = unset;
  block_private_ips = unset;
  allowed_hosts = none;
  allow_private_ips_for_allowed = unset;
  cache_key_template = none;
  max_body_size = unset;
  on_oversize = unset_uint;
  debug = unset;
  parse_on_header = unset;
  include_error_marker = none;
}

-- The macros ngx_conf_merge_value, which ngx_conf_merge_off_value is on another type,
-- ngx_conf_merge_uint_value and ngx_conf_merge_str_value of nginx: what they assign to the first
-- argument.
pub record Macros : Type 0 where
  pub merge_value : ℤ → ℤ → ℤ → ℤ
  pub merge_uint_value : ℕ → ℕ → ℕ → ℕ
  pub merge_str_value : Option Bytes → Option Bytes → Bytes → Option Bytes

-- The fields of the result, in front of the two validations.
unfoldable pub merged : Macros → LocConf → LocConf → LocConf
merged nginx prev conf = record {
  enable_mesi = nginx.merge_value conf.enable_mesi prev.enable_mesi (pos 0);
  max_depth = nginx.merge_value conf.max_depth prev.max_depth (pos default_max_depth);
  timeout_seconds = nginx.merge_value conf.timeout_seconds prev.timeout_seconds unset;
  max_response_size = nginx.merge_value conf.max_response_size prev.max_response_size unset;
  max_concurrent_requests =
      nginx.merge_value conf.max_concurrent_requests prev.max_concurrent_requests unset;
  max_workers = nginx.merge_value conf.max_workers prev.max_workers unset;
  cache_backend = nginx.merge_str_value conf.cache_backend prev.cache_backend [];
  cache_size = nginx.merge_value conf.cache_size prev.cache_size (pos 10000);
  cache_ttl = nginx.merge_value conf.cache_ttl prev.cache_ttl (pos 30);
  cache_memcached_servers =
      nginx.merge_str_value conf.cache_memcached_servers prev.cache_memcached_servers [];
  cache_redis_addr = nginx.merge_str_value conf.cache_redis_addr prev.cache_redis_addr [];
  cache_redis_password =
      nginx.merge_str_value conf.cache_redis_password prev.cache_redis_password [];
  cache_redis_db = nginx.merge_value conf.cache_redis_db prev.cache_redis_db (pos 0);
  block_private_ips = nginx.merge_value conf.block_private_ips prev.block_private_ips (pos 1);
  allowed_hosts = nginx.merge_str_value conf.allowed_hosts prev.allowed_hosts [];
  allow_private_ips_for_allowed =
      nginx.merge_value conf.allow_private_ips_for_allowed prev.allow_private_ips_for_allowed
        (pos 0);
  cache_key_template = nginx.merge_str_value conf.cache_key_template prev.cache_key_template [];
  max_body_size = nginx.merge_value conf.max_body_size prev.max_body_size (pos 0);
  on_oversize = nginx.merge_uint_value conf.on_oversize prev.on_oversize on_oversize_pass;
  debug = nginx.merge_value conf.debug prev.debug unset;
  parse_on_header = nginx.merge_value conf.parse_on_header prev.parse_on_header unset;
  include_error_marker =
      if is_some conf.include_error_marker
      then conf.include_error_marker
      else prev.include_error_marker;
}

-- The messages that refuse a configuration; their texts are left out.
pub data Refusal : Type 0 where
  duplicate no_argument not_digits out_of_range : Refusal
  template_too_long template_control template_del no_hostname : Refusal
  -- what C leaves undefined: the sum passes the signed 64-bit range
  undefined : Refusal

abbrev pub Outcome : Type 0
Outcome = LocConf × Option Refusal

-- for (ti = 0; …): the first byte that a template must not hold
unfoldable pub template_byte : Bytes → Option Refusal
template_byte [] = none
template_byte (c ∷ s) =
    if is_control c
    then some template_control
    else if c == 0x7f
    then some template_del
    else template_byte s

unfoldable pub template_refusal : Option Bytes → Option Refusal
unfolding template_byte
template_refusal t =
    if non_empty t
    then (if ltb max_cache_key_template (length (or_else t []))
        then some template_too_long
        else template_byte (or_else t []))
    else none

-- while (i < len): the number counts the bytes that `i` has jumped over; true is the end of the
-- value, i == len.
unfoldable pub only_spaces : ℕ → Bytes → Bool
only_spaces k [] = true
only_spaces (suc k) (c ∷ s) = only_spaces k s
only_spaces zero (c ∷ s) = elim (is_space c) [
  | true ↦ only_spaces 0 s
  | false ↦ elim (unicode_space (c ∷ s)) [ zero ↦ false | suc w ↦ only_spaces w s ]
]

unfoldable pub hosts_refusal : Option Bytes → Option Refusal
unfolding only_spaces
hosts_refusal h =
    if non_empty h then (if only_spaces 0 (or_else h []) then some no_hostname else none) else none

-- NGX_CONF_OK is none; the fields are stored before the validations.
unfoldable pub merge_loc_conf : Macros → LocConf → LocConf → Outcome
unfolding merged template_refusal hosts_refusal
merge_loc_conf nginx prev conf =
    let c = merged nginx prev conf in
    elim (template_refusal c.cache_key_template) [
      | some why ↦ (c, some why)
      | none ↦ (c, hosts_refusal c.allowed_hosts)
    ]
