-- ===== src/Apache/Dispatch/Protected.antt =====
-- Whatever libgomesi exports, the security directives reach the parser, or the page is not parsed.
use go_mesi.Base.{Bool, true, false, ◌&&◌, [], some, Bytes, if◌then◌else◌, ◌≡◌, refl, arith}
use go_mesi.Json.Value.{Json, size}
use go_mesi.Json.Read.{read}
use go_mesi.Apache.Config.{Config, non_empty}
use go_mesi.Apache.Headers.{build_base_url}
use go_mesi.Apache.RequestCtx.Blob.{context_object}
use go_mesi.Apache.ParseConfig.{parse_config_of}
use go_mesi.Apache.ParseConfig.Blob.{config_object}
use go_mesi.Apache.Process.{Symbols, block_private}
use go_mesi.Apache.Dispatch.{
  Request, ParseCall, parse, parse_with_config, parse_with_config_ex, parse_with_config_ctx,
  parse_json, Dispatch, call, unprotected, no_parser, allow_private_for_allowed, depth_of,
  allowed_hosts_str, needs_parse_json, has_security_config, request_ctx, json_call, legacy_call,
  dispatch,
}

-- The configuration object that ParseJson is to read for a request.
pub expected_object : Config → Request → Json
expected_object conf r =
    config_object
      (parse_config_of conf (depth_of conf) (build_base_url r.server) (allowed_hosts_str conf)
        (block_private conf) (allow_private_for_allowed conf) (request_ctx conf r))
      (context_object r.table_get r.headers_in)

-- A call that carries the allowlist and the block of private addresses.
abbrev pub Protected : Config → Request → ParseCall → Type 0
Protected conf r (parse html depth url) = ⊥
Protected conf r (parse_with_config html depth url hosts block) =
    (hosts ≡ allowed_hosts_str conf) × (block ≡ block_private conf)
Protected conf r (parse_with_config_ex html depth url hosts block allow) =
    (hosts ≡ allowed_hosts_str conf) × (block ≡ block_private conf)
Protected conf r (parse_with_config_ctx html depth url hosts block allow template ctx) =
    (hosts ≡ allowed_hosts_str conf) × (block ≡ block_private conf)
Protected conf r (parse_json html blob) =
    read (size (expected_object conf r)) blob ≡ some (expected_object conf r, [])

-- Protected, or no call at all.
abbrev pub Safe : Config → Request → Dispatch → Type 0
Safe conf r (call c) = Protected conf r c
Safe conf r unprotected = Unit
Safe conf r no_parser = Unit

-- The entry point that a call needs is there.
abbrev pub Present : Symbols → Dispatch → Type 0
Present esi (call (parse html depth url)) = esi.parse ≡ true
Present esi (call (parse_with_config html depth url hosts block)) = esi.parse_with_config ≡ true
Present esi (call (parse_with_config_ex html depth url hosts block allow)) =
    esi.parse_with_config_ex ≡ true
Present esi (call (parse_with_config_ctx html depth url hosts block allow template ctx)) =
    esi.parse_with_config_ctx ≡ true
Present esi (call (parse_json html blob)) = esi.parse_json ≡ true
Present esi unprotected = Unit
Present esi no_parser = Unit

if_dispatch :
    (P : Dispatch → Type 0) (b : Bool) (x y : Dispatch)
    → (b ≡ true → P x)
    → (b ≡ false → P y)
    → P (if b then x else y)
if_dispatch P true x y hx hy = hx refl
if_dispatch P false x y hx hy = hy refl

-- The entry point that is called is never NULL.
pub dispatch-Present :
    (esi : Symbols) (conf : Config) (r : Request) (html : Bytes)
    → Present esi (dispatch esi conf r html)
unfolding dispatch legacy_call json_call
dispatch-Present esi conf r html =
    if_dispatch (Present esi) (needs_parse_json conf && esi.parse_json) _ _ (λ e. ground arith)
      λ e.
        if_dispatch (Present esi) (non_empty conf.cache_key_template && esi.parse_with_config_ctx) _
          _ (λ e. ground arith)
          λ e.
            if_dispatch (Present esi) esi.parse_with_config_ex _ _ (λ e. e)
              λ e.
                if_dispatch (Present esi) esi.parse_with_config _ _ (λ e. e)
                  λ e.
                    if_dispatch (Present esi) (has_security_config conf) _ _ (λ e. tt)
                      λ e. if_dispatch (Present esi) esi.parse _ _ (λ e. e) (λ e. tt)
