-- ===== src/Apache/ParseConfig.antt =====
-- servers/apache/parse_json_config.h: the configuration blob for libgomesi's ParseJson, and
-- build_parse_json_config of mod_mesi.c, which fills it.
pub mod Blob
use go_mesi.Base.{
  ℕ, Bool, List, [], ◌∷◌, ◌++◌, Option, none, some, Bytes, codes, ℤ, is_set, is_true, if◌then◌else◌,
  or_else,
}
use go_mesi.Json.Text.{json_string}
use go_mesi.Json.Number.{show_int}
use go_mesi.Apache.Config.{Config, non_empty}

pub record ParseJsonConfig : Type 0 where
  pub depth : ℤ
  pub base_url : Option Bytes
  pub allowed_hosts : Option Bytes
  pub block_private_ips : ℤ
  pub allow_private_for_allowed : ℤ
  pub request_ctx_json : Option Bytes
  pub timeout_seconds : ℤ
  pub max_response_size : ℤ
  pub max_concurrent_requests : ℤ
  pub max_workers : ℤ
  pub debug : ℤ
  pub parse_on_header : ℤ
  pub include_error_marker : Option Bytes
  pub cache_key_template : Option Bytes

-- apr_pstrcat: the arguments in order
abbrev pub pstrcat : List Bytes → Bytes
pstrcat [] = []
pstrcat (p ∷ ps) = p ++ pstrcat ps

-- v ? "true" : "false"
abbrev pub show_flag : ℤ → Bytes
show_flag v = if is_true v then codes "true" else codes "false"

-- The parts that are rendered only for a configured directive.
unfoldable pub int_part : Bytes → ℤ → Bytes
int_part prefix v = if is_set v then prefix ++ show_int v else []

unfoldable pub flag_part : Bytes → ℤ → Bytes
flag_part prefix v = if is_set v then prefix ++ show_flag v else []

unfoldable pub text_part : Bytes → Option Bytes → Bytes
text_part prefix s = if non_empty s then prefix ++ json_string s else []

unfoldable pub ctx_part : ParseJsonConfig → Bytes
ctx_part cfg =
    if non_empty cfg.cache_key_template
    then (if non_empty cfg.request_ctx_json
        then codes ",\"requestCtx\":" ++ or_else cfg.request_ctx_json []
        else [])
    else []

unfoldable pub mesi_build_parse_json_config : ParseJsonConfig → Bytes
unfolding int_part flag_part text_part ctx_part
mesi_build_parse_json_config cfg = pstrcat (
    codes "{\"maxDepth\":"
    ∷ show_int cfg.depth
    ∷ codes ",\"defaultUrl\":"
    ∷ json_string cfg.base_url
    ∷ codes ",\"allowedHosts\":"
    ∷ json_string cfg.allowed_hosts
    ∷ codes ",\"blockPrivateIPs\":"
    ∷ show_flag cfg.block_private_ips
    ∷ codes ",\"allowPrivateIPsForAllowedHosts\":"
    ∷ show_flag cfg.allow_private_for_allowed
    ∷ int_part (codes ",\"timeoutSeconds\":") cfg.timeout_seconds
    ∷ int_part (codes ",\"maxResponseSize\":") cfg.max_response_size
    ∷ int_part (codes ",\"maxConcurrentRequests\":") cfg.max_concurrent_requests
    ∷ int_part (codes ",\"maxWorkers\":") cfg.max_workers
    ∷ flag_part (codes ",\"debug\":") cfg.debug
    ∷ flag_part (codes ",\"parseOnHeader\":") cfg.parse_on_header
    ∷ text_part (codes ",\"includeErrorMarker\":") cfg.include_error_marker
    ∷ text_part (codes ",\"cacheKeyTemplate\":") cfg.cache_key_template
    ∷ ctx_part cfg
    ∷ codes "}"
    ∷ [])

-- The record that mod_mesi.c fills for one request.
unfoldable pub parse_config_of : Config → ℤ → Bytes → Bytes → ℤ → ℤ → Bytes → ParseJsonConfig
parse_config_of conf depth base_url allowed_hosts_str block_private allow_private ctx_json =
    record {
      depth = depth;
      base_url = some base_url;
      allowed_hosts = some allowed_hosts_str;
      block_private_ips = block_private;
      allow_private_for_allowed = allow_private;
      request_ctx_json = some ctx_json;
      timeout_seconds = conf.timeout_seconds;
      max_response_size = conf.max_response_size;
      max_concurrent_requests = conf.max_concurrent_requests;
      max_workers = conf.max_workers;
      debug = conf.debug;
      parse_on_header = conf.parse_on_header;
      include_error_marker = conf.include_error_marker;
      cache_key_template = conf.cache_key_template;
    }

pub build_parse_json_config : Config → ℤ → Bytes → Bytes → ℤ → ℤ → Bytes → Bytes
build_parse_json_config conf depth base_url allowed_hosts_str block_private allow_private ctx_json =
    mesi_build_parse_json_config
      (parse_config_of conf depth base_url allowed_hosts_str block_private allow_private ctx_json)
