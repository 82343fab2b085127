-- ===== src/Apache/Config/Valid.antt =====
-- The ranges and character sets of the values that the directives store.
use go_mesi.Base.{
  ℕ, ◌≤◌, Bool, ◌||◌, [], Option, none, some, Bytes, ℤ, pos, negsuc, codes, ◌⊎◌, ◌≢◌, ◌==◌, inr,
  is_blank, ◌≡◌, refl, arith, All, NoneOf, length, is_control,
}
use go_mesi.Apache.Config.{
  Config, create_server_config, max_cache_size, max_cache_ttl_seconds, max_redis_db, max_max_depth,
  max_timeout_seconds, max_max_response_size, max_cache_key_template, max_max_concurrent_requests,
  max_max_workers,
}

-- Unset, or in a range.
abbrev pub Within : ℕ → ℕ → ℤ → Type 0
Within lo hi (pos n) = (lo ≤ n) × (n ≤ hi)
Within lo hi (negsuc n) = n ≡ 0

-- In a range, and never negative.
abbrev pub UpTo : ℕ → ℤ → Type 0
UpTo hi (pos n) = n ≤ hi
UpTo hi (negsuc n) = ⊥

abbrev pub OrNull : (Bytes → Type 0) → Option Bytes → Type 0
OrNull P none = Unit
OrNull P (some s) = P s

abbrev pub IsBackend : Option Bytes → Type 0
IsBackend none = ⊥
IsBackend (some s) = (s ≡ codes "memory") ⊎ (s ≡ codes "redis") ⊎ (s ≡ codes "memcached") ⊎ (s ≡ [])

-- ' ', '\t', '"', '\\' and the control characters
abbrev pub unsafe_addr : ℕ → Bool
unsafe_addr c = c == b' ' || c == b'\t' || c == b'"' || c == b'\\' || is_control c

-- the characters that no entry of a list of servers holds
abbrev pub unsafe_entry : ℕ → Bool
unsafe_entry c = is_blank c || c == b'"' || c == b'\'' || c == b'\\' || is_control c

-- the characters that no host of the allowlist holds
abbrev pub unsafe_host : ℕ → Bool
unsafe_host c = is_blank c || c == b'"' || c == b'\''

abbrev pub unsafe_template : ℕ → Bool
unsafe_template c = is_control c || c == 0x7f

-- A stored word is not empty and holds no unsafe character.
abbrev pub Clean : (ℕ → Bool) → Bytes → Type 0
Clean p s = (s ≢ []) × NoneOf p s

abbrev pub Template : Bytes → Type 0
Template s = (s ≢ []) × NoneOf unsafe_template s × (length s ≤ max_cache_key_template)

-- What the directives store: every number in its documented range or unset, every text without the
-- characters that its directive refuses.
pub record IsValid (c : Config) : Type 0 where
  pub enable_mesi : UpTo 1 c.enable_mesi
  pub allowed_hosts : All (Clean unsafe_host) c.allowed_hosts
  pub block_private_ips : Within 0 1 c.block_private_ips
  pub allow_private_ips_for_allowed : Within 0 1 c.allow_private_ips_for_allowed
  pub shared_http_client : Within 0 1 c.shared_http_client
  pub cache_backend : IsBackend c.cache_backend
  pub cache_size : UpTo max_cache_size c.cache_size
  pub cache_ttl : Within 0 max_cache_ttl_seconds c.cache_ttl
  pub cache_redis_addr : OrNull (Clean unsafe_addr) c.cache_redis_addr
  pub cache_redis_password : OrNull (NoneOf is_control) c.cache_redis_password
  pub cache_redis_db : Within 0 max_redis_db c.cache_redis_db
  pub cache_memcached_servers : All (Clean unsafe_entry) c.cache_memcached_servers
  pub cache_key_template : OrNull Template c.cache_key_template
  pub max_depth : Within 0 max_max_depth c.max_depth
  pub timeout_seconds : Within 1 max_timeout_seconds c.timeout_seconds
  pub max_response_size : Within 0 max_max_response_size c.max_response_size
  pub max_body_size : Within 0 max_max_response_size c.max_body_size
  pub on_oversize : Within 0 1 c.on_oversize
  pub max_concurrent_requests : Within 0 max_max_concurrent_requests c.max_concurrent_requests
  pub max_workers : Within 0 max_max_workers c.max_workers
  pub debug : Within 0 1 c.debug
  pub parse_on_header : Within 0 1 c.parse_on_header

pub create-IsValid : IsValid create_server_config
unfolding create_server_config
create-IsValid = record {
  enable_mesi = omega arith;
  allowed_hosts = tt;
  block_private_ips = omega arith;
  allow_private_ips_for_allowed = omega arith;
  shared_http_client = omega arith;
  cache_backend = inr (inr (inr refl));
  cache_size = omega arith;
  cache_ttl = omega arith;
  cache_redis_addr = tt;
  cache_redis_password = tt;
  cache_redis_db = omega arith;
  cache_memcached_servers = tt;
  cache_key_template = tt;
  max_depth = omega arith;
  timeout_seconds = omega arith;
  max_response_size = omega arith;
  max_body_size = omega arith;
  on_oversize = omega arith;
  max_concurrent_requests = omega arith;
  max_workers = omega arith;
  debug = omega arith;
  parse_on_header = omega arith;
}
