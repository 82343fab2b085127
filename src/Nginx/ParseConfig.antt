-- ===== src/Nginx/ParseConfig.antt =====
-- servers/nginx/ngx_http_mesi_module.c: build_parse_json_config, which measures the configuration of
-- a request for libgomesi's ParseJson, and then writes it. parse() has tested the numbers before, so
-- that none of them is negative here.
pub mod Parts
pub mod Exact
use go_mesi.Base.{
  ℕ, ◌+◌, Bool, true, false, ◌&&◌, List, [], ◌∷◌, ◌++◌, Option, none, some, Bytes, codes, ℤ, is_set,
  is_true, is_some, to_nat, if◌then◌else◌, or_else, length,
}
use go_mesi.Apache.Config.{non_empty}
use go_mesi.Nginx.Config.{LocConf}
use go_mesi.Nginx.Render.{
  Built, built, no_pool, fill, mesi_json_escaped_len, mesi_json_append_str, mesi_json_uint_len,
  mesi_json_off_len, mesi_json_write_uint, mesi_json_write_off,
}

-- v ? "true" : "false", and its length
abbrev pub flag_text : ℤ → Bytes
flag_text v = if is_true v then codes "true" else codes "false"

abbrev pub flag_len : ℤ → ℕ
flag_len v = if is_true v then 4 else 5

-- What is added to `total` for a directive that is set, and what is written for it.
abbrev pub uint_size : Bytes → ℤ → ℕ
uint_size prefix v = if is_set v then length prefix + mesi_json_uint_len (to_nat v) else 0

abbrev pub uint_part : Bytes → ℤ → Bytes
uint_part prefix v = if is_set v then prefix ++ mesi_json_write_uint (to_nat v) else []

abbrev pub off_size : Bytes → ℤ → ℕ
off_size prefix v = if is_set v then length prefix + mesi_json_off_len (to_nat v) else 0

abbrev pub off_part : Bytes → ℤ → Bytes
off_part prefix v = if is_set v then prefix ++ mesi_json_write_off (to_nat v) else []

abbrev pub flag_size : Bytes → ℤ → ℕ
flag_size prefix v = if is_set v then length prefix + flag_len v else 0

abbrev pub flag_part : Bytes → ℤ → Bytes
flag_part prefix v = if is_set v then prefix ++ flag_text v else []

abbrev pub text_size : Bool → Bytes → Option Bytes → ℕ
text_size has prefix s = if has then length prefix + 2 + mesi_json_escaped_len (or_else s []) else 0

abbrev pub text_part : Bool → Bytes → Option Bytes → Bytes
text_part has prefix s = if has then prefix ++ mesi_json_append_str (or_else s []) else []

abbrev pub has_ctx : LocConf → Option Bytes → Bool
has_ctx lcf ctx_json = non_empty lcf.cache_key_template && non_empty ctx_json

-- Pass 1, for the directives that are rendered only if they are set, and for '}'.
unfoldable pub optional_size : LocConf → Option Bytes → ℕ
optional_size lcf ctx_json =
    uint_size (codes ",\"timeoutSeconds\":") lcf.timeout_seconds
    + off_size (codes ",\"maxResponseSize\":") lcf.max_response_size
    + uint_size (codes ",\"maxConcurrentRequests\":") lcf.max_concurrent_requests
    + uint_size (codes ",\"maxWorkers\":") lcf.max_workers
    + flag_size (codes ",\"debug\":") lcf.debug
    + flag_size (codes ",\"parseOnHeader\":") lcf.parse_on_header
    + text_size (is_some lcf.include_error_marker) (codes ",\"includeErrorMarker\":")
        lcf.include_error_marker
    + text_size (non_empty lcf.cache_key_template) (codes ",\"cacheKeyTemplate\":")
        lcf.cache_key_template
    + (if has_ctx lcf ctx_json
        then length (codes ",\"requestCtx\":") + length (or_else ctx_json [])
        else 0)
    + 1

-- Pass 1, and the NUL.
unfoldable pub parse_config_size : LocConf → ℕ → Bytes → Bytes → Option Bytes → ℕ
unfolding optional_size
parse_config_size lcf depth base_url allowed_hosts ctx_json =
    length (codes "{\"maxDepth\":")
    + mesi_json_uint_len depth
    + (length (codes ",\"defaultUrl\":") + 2 + mesi_json_escaped_len base_url)
    + (length (codes ",\"allowedHosts\":") + 2 + mesi_json_escaped_len allowed_hosts)
    + (length (codes ",\"blockPrivateIPs\":") + flag_len lcf.block_private_ips)
    + (length (codes ",\"allowPrivateIPsForAllowedHosts\":")
        + flag_len lcf.allow_private_ips_for_allowed)
    + optional_size lcf ctx_json
    + 1

-- Pass 2, from the first optional key on.
unfoldable pub optional_text : LocConf → Option Bytes → Bytes
optional_text lcf ctx_json =
    uint_part (codes ",\"timeoutSeconds\":") lcf.timeout_seconds
    ++ (off_part (codes ",\"maxResponseSize\":") lcf.max_response_size
        ++ (uint_part (codes ",\"maxConcurrentRequests\":") lcf.max_concurrent_requests
            ++ (uint_part (codes ",\"maxWorkers\":") lcf.max_workers
                ++ (flag_part (codes ",\"debug\":") lcf.debug
                    ++ (flag_part (codes ",\"parseOnHeader\":") lcf.parse_on_header
                        ++ (text_part (is_some lcf.include_error_marker)
                              (codes ",\"includeErrorMarker\":") lcf.include_error_marker
                            ++ (text_part (non_empty lcf.cache_key_template)
                                  (codes ",\"cacheKeyTemplate\":") lcf.cache_key_template
                                ++ ((if has_ctx lcf ctx_json
                                      then codes ",\"requestCtx\":" ++ or_else ctx_json []
                                      else [])
                                    ++ codes "}"))))))))

-- Pass 2.
unfoldable pub parse_config_text : LocConf → ℕ → Bytes → Bytes → Option Bytes → Bytes
unfolding optional_text
parse_config_text lcf depth base_url allowed_hosts ctx_json =
    codes "{\"maxDepth\":"
    ++ (mesi_json_write_uint depth
        ++ (codes ",\"defaultUrl\":"
            ++ (mesi_json_append_str base_url
                ++ (codes ",\"allowedHosts\":"
                    ++ (mesi_json_append_str allowed_hosts
                        ++ (codes ",\"blockPrivateIPs\":"
                            ++ (flag_text lcf.block_private_ips
                                ++ (codes ",\"allowPrivateIPsForAllowedHosts\":"
                                    ++ (flag_text lcf.allow_private_ips_for_allowed
                                        ++ optional_text lcf ctx_json)))))))))

-- `buf` tells whether the allocation succeeds.
unfoldable pub build_parse_json_config : Bool → LocConf → ℕ → Bytes → Bytes → Option Bytes → Built
unfolding parse_config_size parse_config_text fill
build_parse_json_config buf lcf depth base_url allowed_hosts ctx_json =
    if buf
    then fill (parse_config_size lcf depth base_url allowed_hosts ctx_json)
        (parse_config_text lcf depth base_url allowed_hosts ctx_json)
    else no_pool
