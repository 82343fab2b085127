-- ===== src/Apache/Dispatch.antt =====
-- servers/apache/mod_mesi.c: the part of mesi_response_filter that picks libgomesi's entry point and
-- its arguments.
pub mod Protected
use go_mesi.Base.{
  ℕ, Bool, true, false, not, ◌&&◌, ◌||◌, List, [], ◌∷◌, Option, none, some, Bytes, ℤ, pos, is_set,
  is_nat, if◌then◌else◌, or_else, null,
}
use go_mesi.Apache.Config.{Config, non_empty, default_max_depth}
use go_mesi.Apache.Hosts.{join_hosts}
use go_mesi.Apache.Headers.{Server, build_base_url}
use go_mesi.Apache.RequestCtx.{Entry, build_request_ctx_json}
use go_mesi.Apache.ParseConfig.{build_parse_json_config}
use go_mesi.Apache.Process.{Symbols, block_private}

-- The request: its server, its headers (NULL is none), and apr_table_get.
pub record Request : Type 0 where
  pub server : Server
  pub headers_in : Option (List Entry)
  pub table_get : List Entry → Bytes → Option Bytes

-- A call of libgomesi, with its arguments in their order.
pub data ParseCall : Type 0 where
  parse : Bytes → ℤ → Bytes → ParseCall
  parse_with_config : Bytes → ℤ → Bytes → Bytes → ℤ → ParseCall
  parse_with_config_ex : Bytes → ℤ → Bytes → Bytes → ℤ → ℤ → ParseCall
  parse_with_config_ctx : Bytes → ℤ → Bytes → Bytes → ℤ → ℤ → Bytes → Bytes → ParseCall
  parse_json : Bytes → Bytes → ParseCall

-- Security directives without an entry point that takes them, or a pointer that is NULL, leave no
-- call.
pub data Dispatch : Type 0 where
  call : ParseCall → Dispatch
  unprotected : Dispatch
  no_parser : Dispatch

-- The unset values stand for the documented defaults.
abbrev pub allow_private_for_allowed : Config → ℤ
allow_private_for_allowed conf =
    if is_set conf.allow_private_ips_for_allowed then conf.allow_private_ips_for_allowed else pos 0

abbrev pub depth_of : Config → ℤ
depth_of conf = if is_set conf.max_depth then conf.max_depth else pos default_max_depth

unfoldable pub allowed_hosts_str : Config → Bytes
allowed_hosts_str conf = join_hosts conf.allowed_hosts

-- Some directive needs ParseJson.
abbrev pub needs_parse_json : Config → Bool
needs_parse_json conf =
    is_set conf.timeout_seconds
    || is_set conf.max_response_size
    || is_set conf.max_concurrent_requests
    || is_set conf.max_workers
    || is_set conf.debug
    || is_set conf.parse_on_header
    || non_empty conf.include_error_marker

-- conf->block_private_ips != -1 && conf->block_private_ips == 1
abbrev pub has_security_config : Config → Bool
has_security_config conf =
    not (null conf.allowed_hosts)
    || is_set conf.block_private_ips && is_nat 1 conf.block_private_ips

-- The text is never none, since build_request_ctx_json always gives one.
unfoldable pub request_ctx : Config → Request → Bytes
request_ctx conf r = or_else (build_request_ctx_json r.table_get r.headers_in conf) []

unfoldable pub json_call : Config → Request → Bytes → ParseCall
unfolding allowed_hosts_str request_ctx
json_call conf r html = parse_json html (
    build_parse_json_config conf (depth_of conf) (build_base_url r.server) (allowed_hosts_str conf)
      (block_private conf) (allow_private_for_allowed conf) (request_ctx conf r))

-- The chain of entry points that is used without ParseJson.
unfoldable pub legacy_call : Symbols → Config → Request → Bytes → Dispatch
unfolding allowed_hosts_str request_ctx
legacy_call esi conf r html =
    let depth = depth_of conf in
    let url = build_base_url r.server in
    let hosts = allowed_hosts_str conf in
    let block = block_private conf in
    let allow = allow_private_for_allowed conf in
    if non_empty conf.cache_key_template && esi.parse_with_config_ctx
    then call (
        parse_with_config_ctx html depth url hosts block allow (or_else conf.cache_key_template [])
          (request_ctx conf r))
    else if esi.parse_with_config_ex
    then call (parse_with_config_ex html depth url hosts block allow)
    else if esi.parse_with_config
    then call (parse_with_config html depth url hosts block)
    else if has_security_config conf
    then unprotected
    else if esi.parse
    then call (parse html depth url)
    else no_parser

unfoldable pub dispatch : Symbols → Config → Request → Bytes → Dispatch
unfolding json_call legacy_call
dispatch esi conf r html =
    if needs_parse_json conf && esi.parse_json
    then call (json_call conf r html)
    else legacy_call esi conf r html
