-- ===== src/Php/ParseBlob.antt =====
-- php-ext/mesi.c: build_parse_json_blob, the configuration for libgomesi's ParseJson.
pub mod Exact
use go_mesi.Base.{
  ℕ, ◌+◌, ◌*◌, Bool, List, [], ◌∷◌, ◌++◌, Option, none, some, Bytes, codes, ℤ, is_some,
  if◌then◌else◌, or_else, length, ◌&&◌,
}
use go_mesi.Json.Number.{show_int}
use go_mesi.Apache.Config.{non_empty}
use go_mesi.Php.Buffer.{mesi_json_append_str, mesi_appendf, in_order}

-- The arguments. A value with its flag `…_set` is an Option.
pub record Blob : Type 0 where
  pub depth : ℤ
  pub default_url : Bytes
  pub allowed_hosts : Bytes
  pub block_private : Bool
  pub allow_private_for_allowed : Bool
  pub timeout_seconds : Option ℤ
  pub max_response_size : Option ℤ
  pub max_concurrent_requests : Option ℤ
  pub max_workers : Option ℤ
  pub debug : Option Bool
  pub include_error_marker : Option Bytes
  pub tmpl : Option Bytes
  pub ctx_json : Option Bytes

-- b ? "true" : "false"
abbrev pub bool_text : Bool → Bytes
bool_text b = if b then codes "true" else codes "false"

abbrev pub has_ctx : Blob → Bool
has_ctx b = non_empty b.tmpl && non_empty b.ctx_json

-- Six bytes for each byte of a string, and the fixed keys.
unfoldable pub blob_cap : Blob → ℕ
blob_cap b =
    360
    + length b.default_url * 6
    + length b.allowed_hosts * 6
    + (if non_empty b.tmpl then length (or_else b.tmpl []) * 6 else 0)
    + (if has_ctx b then length (or_else b.ctx_json []) else 0)
    + (if is_some b.include_error_marker then length (or_else b.include_error_marker []) * 6 else 0)

-- if (set && !mesi_appendf(… "%ld", value)) goto fail;
abbrev pub long_step : ℕ → Bytes → Option ℤ → Bytes → Option Bytes
long_step cap key none = some
long_step cap key (some v) = λ out. mesi_appendf cap out (key ++ show_int v)

abbrev pub flag_step : ℕ → Bytes → Option Bool → Bytes → Option Bytes
flag_step cap key none = some
flag_step cap key (some b) = λ out. mesi_appendf cap out (key ++ bool_text b)

-- A key, and then a string in quotes.
abbrev pub text_steps : ℕ → Bytes → Bytes → Bytes → Option Bytes
text_steps cap key s =
    in_order ((λ out. mesi_appendf cap out key) ∷ (λ out. mesi_json_append_str cap out s) ∷ [])

-- The appends, in their order.
abbrev pub blob_steps : ℕ → Blob → List (Bytes → Option Bytes)
blob_steps cap b =
    (λ out.
      mesi_appendf cap out
        (codes "{\"maxDepth\":" ++ (show_int b.depth ++ codes ",\"defaultUrl\":")))
    ∷ (λ out. mesi_json_append_str cap out b.default_url)
    ∷ (λ out. mesi_appendf cap out (codes ",\"allowedHosts\":"))
    ∷ (λ out. mesi_json_append_str cap out b.allowed_hosts)
    ∷ (λ out. mesi_appendf cap out (
        codes ",\"blockPrivateIPs\":"
        ++ (bool_text b.block_private
            ++ (codes ",\"allowPrivateIPsForAllowedHosts\":"
                ++ bool_text b.allow_private_for_allowed))))
    ∷ long_step cap (codes ",\"timeoutSeconds\":") b.timeout_seconds
    ∷ long_step cap (codes ",\"maxResponseSize\":") b.max_response_size
    ∷ long_step cap (codes ",\"maxConcurrentRequests\":") b.max_concurrent_requests
    ∷ long_step cap (codes ",\"maxWorkers\":") b.max_workers
    ∷ flag_step cap (codes ",\"debug\":") b.debug
    ∷ (if is_some b.include_error_marker
        then text_steps cap (codes ",\"includeErrorMarker\":") (or_else b.include_error_marker [])
        else some)
    ∷ (if non_empty b.tmpl
        then text_steps cap (codes ",\"cacheKeyTemplate\":") (or_else b.tmpl [])
        else some)
    ∷ (if has_ctx b
        then (λ out. mesi_appendf cap out (codes ",\"requestCtx\":" ++ or_else b.ctx_json []))
        else some)
    ∷ (λ out. mesi_appendf cap out (codes "}"))
    ∷ []

-- `alloc` tells whether malloc succeeds; none is NULL.
unfoldable pub build_parse_json_blob : Bool → Blob → Option Bytes
unfolding blob_cap mesi_appendf mesi_json_append_str in_order
build_parse_json_blob alloc b = if alloc then in_order (blob_steps (blob_cap b) b) [] else none
