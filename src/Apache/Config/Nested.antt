-- ===== src/Apache/Config/Nested.antt =====
-- Nested blocks: what the merge of a chain of configurations is, and that the inner value wins.
use go_mesi.Base.{true, false, is_set, is_true, is_pos, is_nonneg, is_some, null, ◌≡◌}
use go_mesi.Apache.Config.{Config, create_server_config, merge_server_config, non_empty}

-- Every directive has set its value: ESI on, a cache of some size, and no list or text missing.
pub record IsComplete (c : Config) : Type 0 where
  pub enable_mesi : is_true c.enable_mesi ≡ true
  pub allowed_hosts : null c.allowed_hosts ≡ false
  pub block_private_ips : is_set c.block_private_ips ≡ true
  pub allow_private_ips_for_allowed : is_set c.allow_private_ips_for_allowed ≡ true
  pub shared_http_client : is_set c.shared_http_client ≡ true
  pub cache_backend : non_empty c.cache_backend ≡ true
  pub cache_size : is_pos c.cache_size ≡ true
  pub cache_ttl : is_nonneg c.cache_ttl ≡ true
  pub cache_redis_addr : is_some c.cache_redis_addr ≡ true
  pub cache_redis_password : is_some c.cache_redis_password ≡ true
  pub cache_redis_db : is_nonneg c.cache_redis_db ≡ true
  pub cache_memcached_servers : null c.cache_memcached_servers ≡ false
  pub cache_key_template : is_some c.cache_key_template ≡ true
  pub max_depth : is_set c.max_depth ≡ true
  pub timeout_seconds : is_set c.timeout_seconds ≡ true
  pub max_response_size : is_set c.max_response_size ≡ true
  pub max_body_size : is_set c.max_body_size ≡ true
  pub on_oversize : is_set c.on_oversize ≡ true
  pub max_concurrent_requests : is_set c.max_concurrent_requests ≡ true
  pub max_workers : is_set c.max_workers ≡ true
  pub debug : is_set c.debug ≡ true
  pub parse_on_header : is_set c.parse_on_header ≡ true
  pub include_error_marker : is_some c.include_error_marker ≡ true

-- Blocks a, b and c, each inside the one before, around a complete block d.
pub record Nested (a b c d : Config) : Type 0 where
  pub grouped :
      merge_server_config (merge_server_config a b) c
      ≡ merge_server_config a (merge_server_config b c)
  pub outermost : merge_server_config create_server_config a ≡ a
  pub empty_block : merge_server_config a create_server_config ≡ a
  pub inner_wins : merge_server_config (merge_server_config (merge_server_config a b) c) d ≡ d
