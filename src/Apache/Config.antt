-- ===== src/Apache/Config.antt =====
-- servers/apache/mod_mesi.c: the server configuration, create_server_config and
-- merge_server_config. A pointer that may be NULL is an Option, an APR array is a list. The arrays
-- of two configurations are shared after a merge, and nothing is pushed on them from then on.
pub mod Valid
pub mod Merge
pub mod Nested
use go_mesi.Base.{
  ℕ, ◌*◌, ◌-◌, ◌^◌, Bool, not, ◌&&◌, true, false, List, [], Option, none, some, Bytes, ℤ, pos,
  unset, is_set, is_nonneg, is_pos, is_true, is_some, if◌then◌else◌, null,
}

pub record Config : Type 0 where
  pub enable_mesi : ℤ
  pub allowed_hosts : List Bytes
  pub block_private_ips : ℤ
  pub allow_private_ips_for_allowed : ℤ
  pub shared_http_client : ℤ
  pub cache_backend : Option Bytes
  pub cache_size : ℤ
  pub cache_ttl : ℤ
  pub cache_redis_addr : Option Bytes
  pub cache_redis_password : Option Bytes
  pub cache_redis_db : ℤ
  pub cache_memcached_servers : List Bytes
  pub cache_key_template : Option Bytes
  pub max_depth : ℤ
  pub timeout_seconds : ℤ
  pub max_response_size : ℤ
  pub max_body_size : ℤ
  pub on_oversize : ℤ
  pub max_concurrent_requests : ℤ
  pub max_workers : ℤ
  pub debug : ℤ
  pub parse_on_header : ℤ
  pub include_error_marker : Option Bytes

abbrev pub on_oversize_pass : ℤ
on_oversize_pass = pos 0

abbrev pub on_oversize_error : ℤ
on_oversize_error = pos 1

-- The MESI_MAX_* and MESI_DEFAULT_* constants.
abbrev pub default_cache_size : ℕ
default_cache_size = 10000

abbrev pub max_cache_size : ℕ
max_cache_size = 1000000

abbrev pub max_cache_ttl_seconds : ℕ
max_cache_ttl_seconds = 24 * 60 * 60

abbrev pub max_redis_db : ℕ
max_redis_db = 15

abbrev pub max_memcached_servers : ℕ
max_memcached_servers = 64

abbrev pub max_cache_key_template : ℕ
max_cache_key_template = 4096

abbrev pub max_max_depth : ℕ
max_max_depth = 10000

abbrev pub default_max_depth : ℕ
default_max_depth = 5

abbrev pub max_timeout_seconds : ℕ
max_timeout_seconds = 24 * 60 * 60

abbrev pub max_max_response_size : ℕ
max_max_response_size = 9223372036854775806

abbrev pub max_max_concurrent_requests : ℕ
max_max_concurrent_requests = 999999999

abbrev pub max_max_workers : ℕ
max_max_workers = 999999999

unfoldable pub create_server_config : Config
create_server_config = record {
  enable_mesi = pos 0;
  allowed_hosts = [];
  block_private_ips = unset;
  allow_private_ips_for_allowed = unset;
  shared_http_client = unset;
  cache_backend = some [];
  cache_size = pos 0;
  cache_ttl = unset;
  cache_redis_addr = none;
  cache_redis_password = none;
  cache_redis_db = unset;
  cache_memcached_servers = [];
  cache_key_template = none;
  max_depth = unset;
  timeout_seconds = unset;
  max_response_size = unset;
  max_body_size = unset;
  on_oversize = unset;
  max_concurrent_requests = unset;
  max_workers = unset;
  debug = unset;
  parse_on_header = unset;
  include_error_marker = none;
}

-- p && p[0] != '\0'
abbrev pub non_empty : Option Bytes → Bool
non_empty none = false
non_empty (some s) = not (null s)

-- The rules by which merge_server_config picks one of two values; the value of the inner
-- configuration stands second in the merge and first here.
abbrev pub pick_int : ℤ → ℤ → ℤ
pick_int add base = if is_set add then add else base

abbrev pub pick_ptr : Option Bytes → Option Bytes → Option Bytes
pick_ptr add base = if is_some add then add else base

abbrev pub pick_list : List Bytes → List Bytes → List Bytes
pick_list add base = if not (null add) then add else base

unfoldable pub merge_server_config : Config → Config → Config
merge_server_config base add = record {
  enable_mesi = if is_true add.enable_mesi then add.enable_mesi else base.enable_mesi;
  allowed_hosts = pick_list add.allowed_hosts base.allowed_hosts;
  block_private_ips = pick_int add.block_private_ips base.block_private_ips;
  allow_private_ips_for_allowed =
      pick_int add.allow_private_ips_for_allowed base.allow_private_ips_for_allowed;
  shared_http_client = pick_int add.shared_http_client base.shared_http_client;
  cache_backend = if non_empty add.cache_backend then add.cache_backend else base.cache_backend;
  cache_size = if is_pos add.cache_size then add.cache_size else base.cache_size;
  cache_ttl = if is_nonneg add.cache_ttl then add.cache_ttl else base.cache_ttl;
  cache_redis_addr = pick_ptr add.cache_redis_addr base.cache_redis_addr;
  cache_redis_password = pick_ptr add.cache_redis_password base.cache_redis_password;
  cache_redis_db = if is_nonneg add.cache_redis_db then add.cache_redis_db else base.cache_redis_db;
  cache_memcached_servers = pick_list add.cache_memcached_servers base.cache_memcached_servers;
  cache_key_template = pick_ptr add.cache_key_template base.cache_key_template;
  max_depth = pick_int add.max_depth base.max_depth;
  timeout_seconds = pick_int add.timeout_seconds base.timeout_seconds;
  max_response_size = pick_int add.max_response_size base.max_response_size;
  max_body_size = pick_int add.max_body_size base.max_body_size;
  on_oversize = pick_int add.on_oversize base.on_oversize;
  max_concurrent_requests = pick_int add.max_concurrent_requests base.max_concurrent_requests;
  max_workers = pick_int add.max_workers base.max_workers;
  debug = pick_int add.debug base.debug;
  parse_on_header = pick_int add.parse_on_header base.parse_on_header;
  include_error_marker = pick_ptr add.include_error_marker base.include_error_marker;
}
