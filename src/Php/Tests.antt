-- ===== src/Php/Tests.antt =====
-- The theorems on the extension for PHP at concrete inputs.
use go_mesi.Base.{
  ◌+◌, ◌≤◌, true, false, [], none, some, Bytes, codes, length, pos, ◌≡◌, ◌≢◌, ◌↔◌, refl, arith, not,
  null,
}
use go_mesi.Apache.ParseConfig.{mesi_build_parse_json_config}
use go_mesi.Apache.Hosts.Fields.{fields}
use go_mesi.Php.CacheState.{CacheState, loaded, init_cache}
use go_mesi.Php.CacheState.Again.{init_cache-again}
use go_mesi.Php.Hosts.{mesi_allowed_hosts_has_token}
use go_mesi.Php.Hosts.Agree.{has_token-fields}
use go_mesi.Php.ParseBlob.{Blob, blob_cap, build_parse_json_blob}
use go_mesi.Php.ParseBlob.Exact.{Ranged, settings, build_parse_json_blob-Apache}
use go_mesi.Php.CacheBlob.{CacheOptions, overrun, build_cache_config_json}
use go_mesi.Php.CacheBlob.Overrun.{PassesEnd, build_cache_config_json-PassesEnd}

abbrev blob : Blob
blob = record {
  depth = pos 5;
  default_url = codes "http://e/";
  allowed_hosts = codes "e.org";
  block_private = true;
  allow_private_for_allowed = false;
  timeout_seconds = some (pos 10);
  max_response_size = none;
  max_concurrent_requests = none;
  max_workers = some (pos 8);
  debug = some true;
  include_error_marker = some (codes "<b>\"</b>");
  tmpl = some (codes "${header:A}");
  ctx_json = some (codes "{}");
}

blob-Ranged : Ranged blob
blob-Ranged = record {
  depth = omega arith;
  timeout_seconds = omega arith;
  max_response_size = tt;
  max_concurrent_requests = tt;
  max_workers = omega arith;
}

build_parse_json_blob-Apache_example :
    ((text : Bytes) × (build_parse_json_blob true blob ≡ some text)
      × (length text + 1 ≤ blob_cap blob))
    × (blob.include_error_marker ≢ some []
        → build_parse_json_blob true blob ≡ some (mesi_build_parse_json_config (settings blob)))
build_parse_json_blob-Apache_example = build_parse_json_blob-Apache blob blob-Ranged

-- An address of 20 bytes, in a buffer of 40: its closing quote is byte 35, and the key ends at 52.
abbrev options : CacheOptions
options = record {
  backend = codes "redis";
  cache_redis_addr = codes "redis.internal:63790";
  cache_redis_password = none;
  cache_redis_db = some (pos 3);
  cache_memcached_servers = none;
}

build_cache_config_json-PassesEnd_example :
    (options.backend ≡ codes "redis"
      → (build_cache_config_json 40 options ≡ overrun) ↔ PassesEnd 40 options)
    × (options.backend ≢ codes "redis" → build_cache_config_json 40 options ≢ overrun)
build_cache_config_json-PassesEnd_example =
    build_cache_config_json-PassesEnd 40 options (omega arith)

abbrev settings_of_cache : CacheState
settings_of_cache = record {
  backend = codes "redis";
  size = pos 10000;
  ttl = pos 30;
  cfg_json = codes "{}";
}

init_cache-again_example :
    ((init_cache (λ o. true) loaded settings_of_cache).ok ≡ true
      → ((init_cache (λ o. true) loaded settings_of_cache).state ≡ settings_of_cache)
        × ((init_cache
              (λ o. true)
              (init_cache (λ o. true) loaded settings_of_cache).state
              settings_of_cache).calls
            ≡ []))
    × ((init_cache (λ o. true) loaded settings_of_cache).ok ≡ false
        → (init_cache (λ o. true) loaded settings_of_cache).state ≡ loaded)
    × ((init_cache (λ o. true) loaded settings_of_cache).calls ≡ [] → loaded ≡ settings_of_cache)
init_cache-again_example =
    init_cache-again (λ o. true) loaded settings_of_cache
      (record { backend = omega arith; cfg_json = omega arith })

has_token-fields_example :
    mesi_allowed_hosts_has_token (codes " e") ≡ not (null (fields (codes " e")))
has_token-fields_example = has_token-fields (codes " e") (refl, (refl, tt))
