-- ===== src/Apache/Directive/Load.antt =====
-- servers/apache/mod_mesi.c: the table mesi_directives, and a server block as Apache reads it: the
-- directives in order, up to the first that is refused.
mod Texts
pub mod Keeps
use go_mesi.Base.{Bool, List, [], ◌∷◌, Option, none, some, Bytes, ◌≡◌}
use go_mesi.Apache.Config.{Config, create_server_config, merge_server_config}
use go_mesi.Apache.Directive.{
  Outcome, accept, set_enable_mesi, set_block_private_ips, set_allow_private_for_allowed,
  set_shared_http_client, set_debug, set_parse_on_header, set_allowed_hosts, set_max_depth,
  set_timeout, set_max_response_size, set_max_body_size, set_max_concurrent_requests,
  set_max_workers, set_cache_size, set_cache_ttl, set_cache_redis_db, set_on_oversize,
  set_cache_backend, set_cache_redis_password, set_include_error_marker,
}
use go_mesi.Apache.Directive.Servers.{set_cache_redis_addr, set_cache_memcached_servers}
use go_mesi.Apache.Directive.Template.{set_cache_key_template}

pub data Directive : Type 0 where
  enable_mesi block_private_ips allow_private_ips_for_allowed_hosts : Bool → Directive
  shared_http_client debug parse_on_header : Bool → Directive
  allowed_hosts include_error_marker cache_memcached_servers : Bytes → Directive
  max_depth timeout max_response_size max_body_size on_oversize : Bytes → Directive
  max_concurrent_requests max_workers cache_backend cache_size cache_ttl : Bytes → Directive
  cache_redis_addr cache_redis_password cache_redis_db cache_key_template : Bytes → Directive

-- Every setter is given an argument: Apache refuses a directive without one before the setter.
module _ (getword : Bytes → Bytes × Bytes) where
  unfoldable pub apply : Config → Directive → Outcome
  apply c (enable_mesi on) = set_enable_mesi c on
  apply c (block_private_ips on) = set_block_private_ips c on
  apply c (allow_private_ips_for_allowed_hosts on) = set_allow_private_for_allowed c on
  apply c (shared_http_client on) = set_shared_http_client c on
  apply c (debug on) = set_debug c on
  apply c (parse_on_header on) = set_parse_on_header c on
  apply c (allowed_hosts arg) = set_allowed_hosts c (some arg)
  apply c (include_error_marker arg) = set_include_error_marker getword c (some arg)
  apply c (cache_memcached_servers arg) = set_cache_memcached_servers c (some arg)
  apply c (max_depth arg) = set_max_depth c (some arg)
  apply c (timeout arg) = set_timeout c (some arg)
  apply c (max_response_size arg) = set_max_response_size c (some arg)
  apply c (max_body_size arg) = set_max_body_size c (some arg)
  apply c (on_oversize arg) = set_on_oversize c arg
  apply c (max_concurrent_requests arg) = set_max_concurrent_requests c (some arg)
  apply c (max_workers arg) = set_max_workers c (some arg)
  apply c (cache_backend arg) = set_cache_backend c (some arg)
  apply c (cache_size arg) = set_cache_size c (some arg)
  apply c (cache_ttl arg) = set_cache_ttl c (some arg)
  apply c (cache_redis_addr arg) = set_cache_redis_addr c (some arg)
  apply c (cache_redis_password arg) = set_cache_redis_password c (some arg)
  apply c (cache_redis_db arg) = set_cache_redis_db c (some arg)
  apply c (cache_key_template arg) = set_cache_key_template c (some arg)

  -- A server block: the state that the directives leave, whether all were accepted or not.
  unfoldable pub load : Config → List Directive → Outcome
  load c [] = accept c
  load c (d ∷ ds) =
      let (c', refused) = apply c d in
      elim refused [ none ↦ load c' ds | some why ↦ (c', some why) ]

-- The configurations that a server can run with: blocks that loaded, merged in any nesting.
pub data Loaded (getword : Bytes → Bytes × Bytes) : Config → Type 0 where
  block :
      {c : Config} (ds : List Directive)
      → load getword create_server_config ds ≡ (c, none)
      → Loaded getword c
  nested :
      {a b : Config}
      → Loaded getword a
      → Loaded getword b
      → Loaded getword (merge_server_config a b)
