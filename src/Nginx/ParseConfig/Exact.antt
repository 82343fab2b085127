-- ===== src/Nginx/ParseConfig/Exact.antt =====
-- The configuration fills its buffer to the last byte, and is the one that the Apache module builds
-- for the same settings.
use go_mesi.Base.{
  ℕ, ◌+◌, ◌≤◌, Bool, true, false, sym, [], ◌++◌, Option, some, Bytes, codes, is_some, if◌then◌else◌,
  or_else, length, ◌≡◌, ◌≢◌, refl, ap, ◌∙◌, arith,
}
use go_mesi.Json.Number.{show_int}
use go_mesi.Apache.Config.{non_empty}
use go_mesi.Apache.ParseConfig.{mesi_build_parse_json_config}
use go_mesi.Nginx.Config.{
  LocConf, max_max_response_size, max_timeout_seconds, max_max_concurrent_requests, max_max_workers,
}
use go_mesi.Nginx.Config.Valid.{IsValid}
use go_mesi.Nginx.Render.{built, overrun, mesi_json_append_str, mesi_json_write_uint}
use go_mesi.Nginx.Render.Exact.{fill-built, mesi_json_append_str-json_string}
use go_mesi.Nginx.ParseConfig.{
  flag_text, uint_part, off_part, flag_part, text_part, has_ctx, parse_config_size,
  parse_config_text, optional_size, optional_text, build_parse_json_config,
}
use go_mesi.Nginx.ParseConfig.Parts.{
  Numbers, number_same, uint-Apache, off-Apache, length-flag_text, flag-Apache, length-text_part,
  text-Apache, marker-Apache, settings, ctx-Apache, then_length, Within-Renders, length-context,
}

module _ (lcf : LocConf) (v : Numbers lcf) (depth : ℕ) (in_range : depth ≤ max_max_response_size)
    (u h ctx : Bytes) where
  text-settings :
      lcf.include_error_marker ≢ some []
      → parse_config_text lcf depth u h (some ctx)
        ≡ mesi_build_parse_json_config (settings lcf depth u h ctx)
  unfolding parse_config_text optional_text mesi_build_parse_json_config show_int
  text-settings m =
      rw
        (
          (number_same depth in_range).0,
          (mesi_json_append_str-json_string u).0,
          (mesi_json_append_str-json_string h).0,
          (uint-Apache (codes ",\"timeoutSeconds\":") lcf.timeout_seconds v.timeout_seconds).0,
          (off-Apache (codes ",\"maxResponseSize\":") lcf.max_response_size v.max_response_size).0,
          (uint-Apache (codes ",\"maxConcurrentRequests\":") lcf.max_concurrent_requests
              v.max_concurrent_requests).0,
          (uint-Apache (codes ",\"maxWorkers\":") lcf.max_workers v.max_workers).0,
          (flag-Apache (codes ",\"debug\":") lcf.debug).0,
          (flag-Apache (codes ",\"parseOnHeader\":") lcf.parse_on_header).0,
          marker-Apache (codes ",\"includeErrorMarker\":") lcf.include_error_marker m,
          text-Apache (codes ",\"cacheKeyTemplate\":") lcf.cache_key_template,
          ctx-Apache lcf depth u h ctx,
        )
        refl

  length-optional_text : (c : Option Bytes) → length (optional_text lcf c) ≡ optional_size lcf c
  unfolding optional_text optional_size
  length-optional_text c =
      let context = if has_ctx lcf c then codes ",\"requestCtx\":" ++ or_else c [] else [] in
      let template =
        text_part (non_empty lcf.cache_key_template) (codes ",\"cacheKeyTemplate\":")
          lcf.cache_key_template in
      let marker =
        text_part (is_some lcf.include_error_marker) (codes ",\"includeErrorMarker\":")
          lcf.include_error_marker in
      let header = flag_part (codes ",\"parseOnHeader\":") lcf.parse_on_header in
      let debugging = flag_part (codes ",\"debug\":") lcf.debug in
      let pool = uint_part (codes ",\"maxWorkers\":") lcf.max_workers in
      let cap = uint_part (codes ",\"maxConcurrentRequests\":") lcf.max_concurrent_requests in
      let body = off_part (codes ",\"maxResponseSize\":") lcf.max_response_size in
      let budget = uint_part (codes ",\"timeoutSeconds\":") lcf.timeout_seconds in
      let t9 = context ++ codes "}" in
      let t8 = template ++ t9 in
      let t7 = marker ++ t8 in
      let t6 = header ++ t7 in
      let t5 = debugging ++ t6 in
      let t4 = pool ++ t5 in
      let t3 = cap ++ t4 in
      let t2 = body ++ t3 in
      omega (
        arith,
        then_length budget t2
            (uint-Apache (codes ",\"timeoutSeconds\":") lcf.timeout_seconds v.timeout_seconds).1,
        then_length body t3
            (off-Apache (codes ",\"maxResponseSize\":") lcf.max_response_size
              v.max_response_size).1,
        then_length cap t4
            (uint-Apache (codes ",\"maxConcurrentRequests\":") lcf.max_concurrent_requests
              v.max_concurrent_requests).1,
        then_length pool t5
            (uint-Apache (codes ",\"maxWorkers\":") lcf.max_workers v.max_workers).1,
        then_length debugging t6 (flag-Apache (codes ",\"debug\":") lcf.debug).1,
        then_length header t7 (flag-Apache (codes ",\"parseOnHeader\":") lcf.parse_on_header).1,
        then_length marker t8 (
            length-text_part (is_some lcf.include_error_marker) (codes ",\"includeErrorMarker\":")
              lcf.include_error_marker),
        then_length template t9 (
            length-text_part (non_empty lcf.cache_key_template) (codes ",\"cacheKeyTemplate\":")
              lcf.cache_key_template),
        then_length context (codes "}") (length-context (has_ctx lcf c) (or_else c [])),
      )

  length-parse_config_text :
      (c : Option Bytes)
      → parse_config_size lcf depth u h c ≡ length (parse_config_text lcf depth u h c) + 1
  unfolding parse_config_text parse_config_size
  length-parse_config_text c =
      let rest = optional_text lcf c in
      let bypass = flag_text lcf.allow_private_ips_for_allowed in
      let blocks = flag_text lcf.block_private_ips in
      let allow = codes ",\"allowPrivateIPsForAllowedHosts\":" ++ (bypass ++ rest) in
      let block = codes ",\"blockPrivateIPs\":" ++ (blocks ++ allow) in
      let hosts = codes ",\"allowedHosts\":" ++ (mesi_json_append_str h ++ block) in
      let url = codes ",\"defaultUrl\":" ++ (mesi_json_append_str u ++ hosts) in
      omega (
        arith,
        then_length (mesi_json_write_uint depth) url (number_same depth in_range).1,
        then_length (mesi_json_append_str u) hosts (mesi_json_append_str-json_string u).1,
        then_length (mesi_json_append_str h) block (mesi_json_append_str-json_string h).1,
        then_length blocks allow (length-flag_text lcf.block_private_ips),
        then_length bypass rest (length-flag_text lcf.allow_private_ips_for_allowed),
        length-optional_text c,
      )

valid-Numbers : (lcf : LocConf) → IsValid lcf → Numbers lcf
valid-Numbers lcf v = record {
  timeout_seconds = Within-Renders 1 max_timeout_seconds _ (omega arith) v.timeout_seconds;
  max_response_size = v.max_response_size;
  max_concurrent_requests =
      Within-Renders 0 max_max_concurrent_requests _ (omega arith) v.max_concurrent_requests;
  max_workers = Within-Renders 0 max_max_workers _ (omega arith) v.max_workers;
}

-- With numbers in range the blob is built or its allocation fails.
pub build_parse_json_config-built :
    (buf : Bool) (lcf : LocConf) (depth : ℕ) (u h ctx : Bytes)
    → Numbers lcf
    → depth ≤ max_max_response_size
    → build_parse_json_config buf lcf depth u h (some ctx) ≢ overrun
unfolding build_parse_json_config
build_parse_json_config-built true lcf depth u h ctx v le e =
    let size = length-parse_config_text lcf v depth le u h ctx (some ctx) in
    let text =
      fill-built (parse_config_size lcf depth u h (some ctx))
        (parse_config_text lcf depth u h (some ctx)) (omega (arith, size)) in
    let wrong = sym text ∙ e in absurd cc
build_parse_json_config-built false lcf depth u h ctx v le e = absurd cc

-- Among valid settings whose marker is not the explicitly empty one, the configuration that nginx
-- sends for a request is byte for byte the one that the Apache module builds for the same settings,
-- if the allocation succeeds; for any marker it fills the buffer that the first pass measured to the
-- last byte, the NUL included.
pub build_parse_json_config-Apache :
    (lcf : LocConf) (depth : ℕ) (u h ctx : Bytes)
    → IsValid lcf
    → depth ≤ max_max_response_size
    → (lcf.include_error_marker ≢ some []
        → build_parse_json_config true lcf depth u h (some ctx)
          ≡ built (mesi_build_parse_json_config (settings lcf depth u h ctx)))
      × (build_parse_json_config true lcf depth u h (some ctx)
          ≡ built (parse_config_text lcf depth u h (some ctx)))
      × (parse_config_size lcf depth u h (some ctx)
          ≡ length (parse_config_text lcf depth u h (some ctx)) + 1)
unfolding build_parse_json_config
build_parse_json_config-Apache lcf depth u h ctx valid le =
    let v = valid-Numbers lcf valid in
    let size = length-parse_config_text lcf v depth le u h ctx (some ctx) in
    let text =
      fill-built (parse_config_size lcf depth u h (some ctx))
        (parse_config_text lcf depth u h (some ctx)) (omega (arith, size)) in
    (λ m. text ∙ ap built (text-settings lcf v depth le u h ctx m), text, size)
