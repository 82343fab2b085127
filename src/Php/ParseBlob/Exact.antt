-- ===== src/Php/ParseBlob/Exact.antt =====
-- The blob always fits the buffer that is allocated, and is the one that the Apache module builds.
use go_mesi.Base.{
  ℕ, ◌+◌, ◌*◌, ◌≤◌, ◌<◌, Bool, true, false, List, [], ◌∷◌, ◌++◌, Option, none, some, Bytes, codes,
  ltb, ℤ, pos, negsuc, is_some, if◌then◌else◌, or_else, length, length-append, append_assoc,
  append-nil, ◌≡◌, ◌≢◌, refl, ap, ◌∙◌, arith, Bool-cases, inl, inr,
}
use go_mesi.Json.Text.{json_string, length-json_string}
use go_mesi.Json.Number.{show_int}
use go_mesi.Apache.Config.{non_empty}
use go_mesi.Apache.ParseConfig.{
  ParseJsonConfig, pstrcat, show_flag, int_part, flag_part, text_part, ctx_part,
  mesi_build_parse_json_config,
}
use go_mesi.Nginx.Render.Exact.{mesi_json_write_uint-show_nat}
use go_mesi.Php.Buffer.{mesi_json_append_str, mesi_appendf}
use go_mesi.Php.Buffer.Fits.{
  fits, Writes, nothing-Writes, appendf-Writes, append_str-Writes, if-Writes, in_order-Writes,
}
use go_mesi.Php.ParseBlob.{
  Blob, bool_text, has_ctx, blob_cap, long_step, flag_step, text_steps, blob_steps,
  build_parse_json_blob,
}

-- The parts of the text.
abbrev long_text : Bytes → Option ℤ → Bytes
long_text key none = []
long_text key (some v) = key ++ show_int v

abbrev debug_text : Option Bool → Bytes
debug_text none = []
debug_text (some b) = codes ",\"debug\":" ++ bool_text b

abbrev string_text : Bool → Bytes → Bytes → Bytes
string_text has key s = if has then key ++ (json_string (some s) ++ []) else []

abbrev context_text : Blob → Bytes
context_text b = if has_ctx b then codes ",\"requestCtx\":" ++ or_else b.ctx_json [] else []

unfoldable blob_parts : Blob → List Bytes
blob_parts b =
    (codes "{\"maxDepth\":" ++ (show_int b.depth ++ codes ",\"defaultUrl\":"))
    ∷ json_string (some b.default_url)
    ∷ codes ",\"allowedHosts\":"
    ∷ json_string (some b.allowed_hosts)
    ∷ (codes ",\"blockPrivateIPs\":"
        ++ (bool_text b.block_private
            ++ (codes ",\"allowPrivateIPsForAllowedHosts\":"
                ++ bool_text b.allow_private_for_allowed)))
    ∷ long_text (codes ",\"timeoutSeconds\":") b.timeout_seconds
    ∷ long_text (codes ",\"maxResponseSize\":") b.max_response_size
    ∷ long_text (codes ",\"maxConcurrentRequests\":") b.max_concurrent_requests
    ∷ long_text (codes ",\"maxWorkers\":") b.max_workers
    ∷ debug_text b.debug
    ∷ string_text (is_some b.include_error_marker) (codes ",\"includeErrorMarker\":")
        (or_else b.include_error_marker [])
    ∷ string_text (non_empty b.tmpl) (codes ",\"cacheKeyTemplate\":") (or_else b.tmpl [])
    ∷ context_text b
    ∷ codes "}"
    ∷ []

module _ (cap : ℕ) where
  long_step-Writes :
      (key : Bytes) (v : Option ℤ) → Writes cap (long_step cap key v) (long_text key v)
  long_step-Writes key none = nothing-Writes cap
  long_step-Writes key (some v) = appendf-Writes cap (key ++ show_int v)

  flag_step-Writes :
      (v : Option Bool) → Writes cap (flag_step cap (codes ",\"debug\":") v) (debug_text v)
  flag_step-Writes none = nothing-Writes cap
  flag_step-Writes (some v) = appendf-Writes cap (codes ",\"debug\":" ++ bool_text v)

  text_steps-Writes :
      (has : Bool) (key s : Bytes)
      → Writes cap (if has then text_steps cap key s else some) (string_text has key s)
  text_steps-Writes has key s =
      if-Writes cap has (text_steps cap key s) (key ++ (json_string (some s) ++ [])) (
        in_order-Writes cap
          ((λ out. mesi_appendf cap out key) ∷ (λ out. mesi_json_append_str cap out s) ∷ [])
          (key ∷ json_string (some s) ∷ []) (appendf-Writes cap key, (append_str-Writes cap s, tt)))

-- The numbers are neither negative nor above the signed 64-bit range.
abbrev pub Natural : ℤ → Type 0
Natural (pos n) = n < 9223372036854775808
Natural (negsuc n) = ⊥

abbrev pub Unsigned : Option ℤ → Type 0
Unsigned none = Unit
Unsigned (some v) = Natural v

length-show_int : (v : ℤ) → Natural v → length (show_int v) ≤ 19
unfolding show_int
length-show_int (pos n) h =
    let (same, len, most) = mesi_json_write_uint-show_nat n h in
    omega (arith, ap length same, len, most)
length-show_int (negsuc n) h = absurd h

length-long_text :
    (key : Bytes) (v : Option ℤ) → Unsigned v → length (long_text key v) ≤ length key + 19
length-long_text key none h = omega arith
length-long_text key (some v) h = omega (arith, length-append key (show_int v), length-show_int v h)

length-string_text :
    (has : Bool) (key s : Bytes)
    → length (string_text has key s) ≤ length key + 2 + (if has then length s * 6 else 0)
length-string_text false key s = omega arith
length-string_text true key s = omega (
  arith,
  length-append key (json_string (some s) ++ []),
  length-append (json_string (some s)) [],
  length-json_string s,
)

length-context_text :
    (b : Blob)
    → length (context_text b) ≤ 14 + (if has_ctx b then length (or_else b.ctx_json []) else 0)
length-context_text b = elim (Bool-cases (has_ctx b)) [
  | inl e ↦ rw e (omega (arith, length-append (codes ",\"requestCtx\":") (or_else b.ctx_json [])))
  | inr e ↦ rw e (omega arith)
]

length-bool_text : (b : Bool) → length (bool_text b) ≤ 5
length-bool_text true = omega arith
length-bool_text false = omega arith

length-debug_text : (v : Option Bool) → length (debug_text v) ≤ 14
length-debug_text none = omega arith
length-debug_text (some true) = omega arith
length-debug_text (some false) = omega arith

-- The numbers of a blob, as parse_with_config lets them through.
pub record Ranged (b : Blob) : Type 0 where
  pub depth : Natural b.depth
  pub timeout_seconds : Unsigned b.timeout_seconds
  pub max_response_size : Unsigned b.max_response_size
  pub max_concurrent_requests : Unsigned b.max_concurrent_requests
  pub max_workers : Unsigned b.max_workers

-- Every byte that is allocated but the 360 for the keys is for a string.
room : (b : Blob) → 0 < blob_cap b
unfolding blob_cap
room b = omega arith

written-fits :
    (b : Blob) → build_parse_json_blob true b ≡ fits (blob_cap b) (pstrcat (blob_parts b))
unfolding build_parse_json_blob blob_parts
written-fits b =
    let cap = blob_cap b in
    in_order-Writes cap (blob_steps cap b) (blob_parts b)
      (
        appendf-Writes cap _,
        (
          append_str-Writes cap _,
          (
            appendf-Writes cap _,
            (
              append_str-Writes cap _,
              (
                appendf-Writes cap _,
                (
                  long_step-Writes cap (codes ",\"timeoutSeconds\":") b.timeout_seconds,
                  (
                    long_step-Writes cap (codes ",\"maxResponseSize\":") b.max_response_size,
                    (
                      long_step-Writes cap (codes ",\"maxConcurrentRequests\":")
                          b.max_concurrent_requests,
                      (
                        long_step-Writes cap (codes ",\"maxWorkers\":") b.max_workers,
                        (
                          flag_step-Writes cap b.debug,
                          (
                            text_steps-Writes cap (is_some b.include_error_marker)
                                (codes ",\"includeErrorMarker\":")
                                (or_else b.include_error_marker []),
                            (
                              text_steps-Writes cap (non_empty b.tmpl)
                                  (codes ",\"cacheKeyTemplate\":") (or_else b.tmpl []),
                              (
                                if-Writes cap (has_ctx b) _ _ (appendf-Writes cap _),
                                (appendf-Writes cap _, tt),
                              ),
                            ),
                          ),
                        ),
                      ),
                    ),
                  ),
                ),
              ),
            ),
          ),
        ),
      )
      [] (room b)

sizes : List Bytes → ℕ
sizes [] = 0
sizes (p ∷ ps) = length p + sizes ps

length-pstrcat : (ps : List Bytes) → length (pstrcat ps) ≡ sizes ps
unfolding sizes
length-pstrcat [] = refl
length-pstrcat (p ∷ ps) = omega (arith, length-append p (pstrcat ps), length-pstrcat ps)

-- The first part and the one with the two flags.
length-depth :
    (v : ℤ)
    → Natural v
    → length (codes "{\"maxDepth\":" ++ (show_int v ++ codes ",\"defaultUrl\":")) ≤ 45
length-depth v h = omega (
  arith,
  length-append (codes "{\"maxDepth\":") (show_int v ++ codes ",\"defaultUrl\":"),
  length-append (show_int v) (codes ",\"defaultUrl\":"),
  length-show_int v h,
)

length-flags :
    (x y : Bool)
    → length (
        codes ",\"blockPrivateIPs\":"
        ++ (bool_text x ++ (codes ",\"allowPrivateIPsForAllowedHosts\":" ++ bool_text y)))
      ≤ 64
length-flags true true = omega arith
length-flags true false = omega arith
length-flags false true = omega arith
length-flags false false = omega arith

length-blob : (b : Blob) → Ranged b → length (pstrcat (blob_parts b)) < blob_cap b
unfolding blob_parts blob_cap sizes
length-blob b r = omega (
  arith,
  length-pstrcat (blob_parts b),
  length-depth b.depth r.depth,
  length-json_string b.default_url,
  length-json_string b.allowed_hosts,
  length-flags b.block_private b.allow_private_for_allowed,
  length-long_text (codes ",\"timeoutSeconds\":") b.timeout_seconds r.timeout_seconds,
  length-long_text (codes ",\"maxResponseSize\":") b.max_response_size r.max_response_size,
  length-long_text (codes ",\"maxConcurrentRequests\":") b.max_concurrent_requests
      r.max_concurrent_requests,
  length-long_text (codes ",\"maxWorkers\":") b.max_workers r.max_workers,
  length-debug_text b.debug,
  length-string_text (is_some b.include_error_marker) (codes ",\"includeErrorMarker\":")
      (or_else b.include_error_marker []),
  length-string_text (non_empty b.tmpl) (codes ",\"cacheKeyTemplate\":") (or_else b.tmpl []),
  length-context_text b,
)

-- The settings as the Apache module holds them.
abbrev pub long_setting : Option ℤ → ℤ
long_setting none = negsuc 0
long_setting (some v) = v

abbrev pub bool_setting : Bool → ℤ
bool_setting b = pos (if b then 1 else 0)

abbrev pub debug_setting : Option Bool → ℤ
debug_setting none = negsuc 0
debug_setting (some b) = bool_setting b

abbrev pub settings : Blob → ParseJsonConfig
settings b = record {
  depth = b.depth;
  base_url = some b.default_url;
  allowed_hosts = some b.allowed_hosts;
  block_private_ips = bool_setting b.block_private;
  allow_private_for_allowed = bool_setting b.allow_private_for_allowed;
  request_ctx_json = b.ctx_json;
  timeout_seconds = long_setting b.timeout_seconds;
  max_response_size = long_setting b.max_response_size;
  max_concurrent_requests = long_setting b.max_concurrent_requests;
  max_workers = long_setting b.max_workers;
  debug = debug_setting b.debug;
  parse_on_header = negsuc 0;
  include_error_marker = b.include_error_marker;
  cache_key_template = b.tmpl;
}

flag-Apache : (b : Bool) → bool_text b ≡ show_flag (bool_setting b)
flag-Apache true = refl
flag-Apache false = refl

long-Apache :
    (key : Bytes) (v : Option ℤ) → Unsigned v → long_text key v ≡ int_part key (long_setting v)
unfolding int_part
long-Apache key none h = refl
long-Apache key (some (pos n)) h = refl
long-Apache key (some (negsuc n)) h = absurd h

debug-Apache : (v : Option Bool) → debug_text v ≡ flag_part (codes ",\"debug\":") (debug_setting v)
unfolding flag_part
debug-Apache none = refl
debug-Apache (some true) = refl
debug-Apache (some false) = refl

template-Apache :
    (key : Bytes) (t : Option Bytes)
    → string_text (non_empty t) key (or_else t []) ≡ text_part key t
unfolding text_part
template-Apache key none = refl
template-Apache key (some []) = refl
template-Apache key (some (c ∷ s)) = ap (λ t. key ++ t) (append-nil (json_string (some (c ∷ s))))

marker-Apache :
    (key : Bytes) (t : Option Bytes)
    → t ≢ some []
    → string_text (is_some t) key (or_else t []) ≡ text_part key t
marker-Apache key none h = template-Apache key none
marker-Apache key (some []) h = absurd (h refl)
marker-Apache key (some (c ∷ s)) h = template-Apache key (some (c ∷ s))

context-Apache : (b : Blob) → context_text b ≡ ctx_part (settings b)
unfolding ctx_part
context-Apache b = elim (Bool-cases (non_empty b.tmpl)) [ inl e ↦ rw e refl | inr e ↦ rw e refl ]

text-Apache :
    (b : Blob)
    → Ranged b
    → b.include_error_marker ≢ some []
    → pstrcat (blob_parts b) ≡ mesi_build_parse_json_config (settings b)
unfolding blob_parts mesi_build_parse_json_config
text-Apache b r m =
    rw
      (
        flag-Apache b.block_private,
        flag-Apache b.allow_private_for_allowed,
        long-Apache (codes ",\"timeoutSeconds\":") b.timeout_seconds r.timeout_seconds,
        long-Apache (codes ",\"maxResponseSize\":") b.max_response_size r.max_response_size,
        long-Apache (codes ",\"maxConcurrentRequests\":") b.max_concurrent_requests
            r.max_concurrent_requests,
        long-Apache (codes ",\"maxWorkers\":") b.max_workers r.max_workers,
        debug-Apache b.debug,
        marker-Apache (codes ",\"includeErrorMarker\":") b.include_error_marker m,
        template-Apache (codes ",\"cacheKeyTemplate\":") b.tmpl,
        context-Apache b,
        append_assoc (show_int b.depth),
        append_assoc (show_flag (bool_setting b.block_private)),
      )
      refl

-- Where the numbers are those that parse_with_config lets through and malloc succeeds, none of the
-- checks on the buffer fails: the blob with its NUL fits what was allocated; and if the marker is not
-- the explicitly empty one, the blob is byte for byte the one that the Apache module builds for the
-- same settings without MesiParseOnHeader.
pub build_parse_json_blob-Apache :
    (b : Blob)
    → Ranged b
    → ((text : Bytes) × (build_parse_json_blob true b ≡ some text) × (length text + 1 ≤ blob_cap b))
      × (b.include_error_marker ≢ some []
          → build_parse_json_blob true b ≡ some (mesi_build_parse_json_config (settings b)))
build_parse_json_blob-Apache b r =
    let within = length-blob b r in
    let fitting : ltb (length (pstrcat (blob_parts b))) (blob_cap b) ≡ true = ground arith in
    let text : build_parse_json_blob true b ≡ some (pstrcat (blob_parts b)) =
      written-fits b ∙ rw fitting refl in
    ((pstrcat (blob_parts b), text, omega (arith, within)), λ m. text ∙ ap some (text-Apache b r m))
