-- ===== src/Apache/ParseConfig/Blob.antt =====
-- The blob is the text of a JSON object, and a reader of JSON gets back what was configured.
use go_mesi.Base.{
  Bool, true, false, [], ◌∷◌, ◌++◌, Option, some, Bytes, codes, ℤ, is_set, is_true, if◌then◌else◌,
  or_else, ◌≡◌, refl, sym, ap, ◌∙◌, Bool-cases, inl, inr, append-nil, append_assoc,
}
use go_mesi.Json.Text.{json_string, escape, escape_byte}
use go_mesi.Json.Number.{show_int}
use go_mesi.Json.Value.{Json, str, num, bool, obj, Fields, end, field, print, more_fields, size}
use go_mesi.Json.Read.{read}
use go_mesi.Json.RoundTrip.{read-print_lem}
use go_mesi.Apache.Config.{Config, non_empty}
use go_mesi.Apache.ParseConfig.{
  ParseJsonConfig, show_flag, int_part, flag_part, text_part, ctx_part,
  mesi_build_parse_json_config, parse_config_of, build_parse_json_config,
}

-- A field that is there only under a test.
abbrev when : Bool → Bytes → Json → Fields → Fields
when b k v fs = if b then field k v fs else fs

abbrev text_of : Option Bytes → Json
text_of s = str (or_else s [])

-- The request context, which the builder gets as a text.
abbrev context : ParseJsonConfig → Json → Fields → Fields
context cfg ctx fs =
    if non_empty cfg.cache_key_template
    then when (non_empty cfg.request_ctx_json) (codes "requestCtx") ctx fs
    else fs

-- The fields that are there only when configured.
abbrev optional_fields : ParseJsonConfig → Json → Fields
optional_fields cfg ctx =
    when (is_set cfg.timeout_seconds) (codes "timeoutSeconds") (num cfg.timeout_seconds) (
      when (is_set cfg.max_response_size) (codes "maxResponseSize") (num cfg.max_response_size) (
        when (is_set cfg.max_concurrent_requests) (codes "maxConcurrentRequests")
          (num cfg.max_concurrent_requests)
          (when (is_set cfg.max_workers) (codes "maxWorkers") (num cfg.max_workers) (
            when (is_set cfg.debug) (codes "debug") (bool (is_true cfg.debug)) (
              when (is_set cfg.parse_on_header) (codes "parseOnHeader")
                (bool (is_true cfg.parse_on_header))
                (when (non_empty cfg.include_error_marker) (codes "includeErrorMarker")
                  (text_of cfg.include_error_marker)
                  (when (non_empty cfg.cache_key_template) (codes "cacheKeyTemplate")
                    (text_of cfg.cache_key_template) (context cfg ctx end))))))))

-- The five fields that are always there, in front of others.
abbrev fixed_fields : ParseJsonConfig → Fields → Fields
fixed_fields cfg fs = field (codes "maxDepth") (num cfg.depth) (
    field (codes "defaultUrl") (text_of cfg.base_url) (
      field (codes "allowedHosts") (text_of cfg.allowed_hosts) (
        field (codes "blockPrivateIPs") (bool (is_true cfg.block_private_ips)) (
          field (codes "allowPrivateIPsForAllowedHosts")
            (bool (is_true cfg.allow_private_for_allowed)) fs))))

-- The object that the blob stands for.
pub config_object : ParseJsonConfig → Json → Json
config_object cfg ctx = obj (fixed_fields cfg (optional_fields cfg ctx))

-- ",\"key\":" in front of a value
abbrev prefix_of : Bytes → Bytes
prefix_of k = b',' ∷ (json_string (some k) ++ b':' ∷ [])

more_fields-when :
    (b : Bool) (k : Bytes) (v : Json) (fs : Fields)
    → more_fields (when b k v fs) ≡ (if b then prefix_of k ++ print v else []) ++ more_fields fs
unfolding print
more_fields-when true k v fs =
    ap (λ t. b',' ∷ t)
      (sym (
        append_assoc (json_string (some k) ++ b':' ∷ []) (print v) (more_fields fs)
        ∙ append_assoc (json_string (some k)) (b':' ∷ []) (print v ++ more_fields fs)))
more_fields-when false k v fs = refl

-- The request context is the text of a value, wherever it is not empty.
abbrev pub IsText : Option Bytes → Json → Type 0
IsText s j = non_empty s ≡ true → or_else s [] ≡ print j

more_fields-end : more_fields end ≡ codes "}"
unfolding print
more_fields-end = refl

ctx_part-more :
    (cfg : ParseJsonConfig) (ctx : Json) (fs : Fields)
    → IsText cfg.request_ctx_json ctx
    → more_fields (context cfg ctx fs) ≡ ctx_part cfg ++ more_fields fs
unfolding ctx_part json_string escape escape_byte
ctx_part-more cfg ctx fs e = elim (Bool-cases (non_empty cfg.cache_key_template)) [
  | inr t ↦ rw t refl
  | inl t ↦ elim (Bool-cases (non_empty cfg.request_ctx_json)) [
    | inl r ↦ rw (t, r) (rw (e r) (more_fields-when true (codes "requestCtx") ctx fs))
    | inr r ↦ rw (t, r) refl
  ]
]

if_append :
    (b : Bool) (p x y : Bytes) → x ≡ y → (if b then p ++ x else []) ≡ (if b then p ++ y else [])
if_append b p x y e = rw e refl

-- Each optional part of the blob in front of the fields that follow it.
module _ (fs : Fields) where
  int_part-more :
      (k : Bytes) (v : ℤ)
      → more_fields (when (is_set v) k (num v) fs) ≡ int_part (prefix_of k) v ++ more_fields fs
  unfolding int_part print
  int_part-more k v = more_fields-when (is_set v) k (num v) fs ∙ refl

  flag_part-more :
      (k : Bytes) (v : ℤ)
      → more_fields (when (is_set v) k (bool (is_true v)) fs)
        ≡ flag_part (prefix_of k) v ++ more_fields fs
  unfolding flag_part print
  flag_part-more k v = more_fields-when (is_set v) k (bool (is_true v)) fs

  text_part-more :
      (k : Bytes) (s : Option Bytes)
      → more_fields (when (non_empty s) k (text_of s) fs)
        ≡ text_part (prefix_of k) s ++ more_fields fs
  unfolding text_part print json_string
  text_part-more k s = more_fields-when (non_empty s) k (text_of s) fs

chain_parts : (p : Bytes) {a b c : Bytes} → a ≡ p ++ b → b ≡ c → a ≡ p ++ c
chain_parts p e f = e ∙ ap (λ t. p ++ t) f

optional_parts : ParseJsonConfig → Bytes
optional_parts cfg =
    int_part (codes ",\"timeoutSeconds\":") cfg.timeout_seconds
    ++ (int_part (codes ",\"maxResponseSize\":") cfg.max_response_size
        ++ (int_part (codes ",\"maxConcurrentRequests\":") cfg.max_concurrent_requests
            ++ (int_part (codes ",\"maxWorkers\":") cfg.max_workers
                ++ (flag_part (codes ",\"debug\":") cfg.debug
                    ++ (flag_part (codes ",\"parseOnHeader\":") cfg.parse_on_header
                        ++ (text_part (codes ",\"includeErrorMarker\":") cfg.include_error_marker
                            ++ (text_part (codes ",\"cacheKeyTemplate\":") cfg.cache_key_template
                                ++ (ctx_part cfg ++ codes "}"))))))))

optional-parts :
    (cfg : ParseJsonConfig) (ctx : Json)
    → IsText cfg.request_ctx_json ctx
    → more_fields (optional_fields cfg ctx) ≡ optional_parts cfg
unfolding optional_parts json_string escape escape_byte
optional-parts cfg ctx e =
    chain_parts _ (int_part-more _ (codes "timeoutSeconds") cfg.timeout_seconds) (
      chain_parts _ (int_part-more _ (codes "maxResponseSize") cfg.max_response_size) (
        chain_parts _ (int_part-more _ (codes "maxConcurrentRequests") cfg.max_concurrent_requests)
          (chain_parts _ (int_part-more _ (codes "maxWorkers") cfg.max_workers) (
            chain_parts _ (flag_part-more _ (codes "debug") cfg.debug) (
              chain_parts _ (flag_part-more _ (codes "parseOnHeader") cfg.parse_on_header) (
                chain_parts _
                  (text_part-more _ (codes "includeErrorMarker") cfg.include_error_marker)
                  (chain_parts _
                    (text_part-more _ (codes "cacheKeyTemplate") cfg.cache_key_template)
                    (ctx_part-more cfg ctx end e
                      ∙ (ap (λ t. ctx_part cfg ++ t) more_fields-end)))))))))

fixed_parts : ParseJsonConfig → Bytes → Bytes
fixed_parts cfg t =
    codes "{\"maxDepth\":"
    ++ (show_int cfg.depth
        ++ (codes ",\"defaultUrl\":"
            ++ (json_string cfg.base_url
                ++ (codes ",\"allowedHosts\":"
                    ++ (json_string cfg.allowed_hosts
                        ++ (codes ",\"blockPrivateIPs\":"
                            ++ (show_flag cfg.block_private_ips
                                ++ (codes ",\"allowPrivateIPsForAllowedHosts\":"
                                    ++ (show_flag cfg.allow_private_for_allowed ++ t)))))))))

fixed-parts :
    (cfg : ParseJsonConfig) (fs : Fields)
    → print (obj (fixed_fields cfg fs)) ≡ fixed_parts cfg (more_fields fs)
unfolding print fixed_parts json_string escape escape_byte
fixed-parts cfg fs = refl

assembled :
    (cfg : ParseJsonConfig)
    → mesi_build_parse_json_config cfg ≡ fixed_parts cfg (optional_parts cfg)
unfolding mesi_build_parse_json_config fixed_parts optional_parts
assembled cfg = refl

-- The blob is the text of the object, if the request context is the text of a value.
pub build-print :
    (cfg : ParseJsonConfig) (ctx : Json)
    → IsText cfg.request_ctx_json ctx
    → mesi_build_parse_json_config cfg ≡ print (config_object cfg ctx)
unfolding config_object
build-print cfg ctx e =
    assembled cfg
    ∙ sym (
        fixed-parts cfg (optional_fields cfg ctx) ∙ ap (fixed_parts cfg) (optional-parts cfg ctx e))

-- If the request context is empty or the text of a JSON value, what mod_mesi.c sends for a request
-- reads back, with nothing behind it, as the object of its settings: no text that an operator or a
-- client supplies changes the keys or the values.
pub read-build_parse_json_config :
    (conf : Config) (depth block allow : ℤ) (base_url hosts ctx_json : Bytes) (ctx : Json)
    → IsText (some ctx_json) ctx
    → let object =
        config_object (parse_config_of conf depth base_url hosts block allow ctx_json) ctx in
      read (size object) (build_parse_json_config conf depth base_url hosts block allow ctx_json)
      ≡ some (object, [])
unfolding build_parse_json_config parse_config_of
read-build_parse_json_config conf depth block allow base_url hosts ctx_json ctx e =
    let cfg = parse_config_of conf depth base_url hosts block allow ctx_json in
    let object = config_object cfg ctx in
    ap (read (size object)) (build-print cfg ctx e ∙ sym (append-nil (print object)))
    ∙ read-print_lem object [] tt
