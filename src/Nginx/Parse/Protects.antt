-- ===== src/Nginx/Parse/Protects.antt =====
-- The calls of parse() that carry the protection of the location, and the outcomes that are safe.
use go_mesi.Base.{
  true, false, [], Option, none, some, Bytes, codes, to_nat, or_else, bytes_eq, ◌≡◌, ◌⊎◌, All,
}
use go_mesi.Apache.Config.{non_empty}
use go_mesi.Nginx.Config.{LocConf}
use go_mesi.Nginx.Render.{overrun}
use go_mesi.Nginx.ParseConfig.{parse_config_text}
use go_mesi.Nginx.Worker.{Worker, Call}
use go_mesi.Nginx.Worker
use go_mesi.Nginx.CacheBlobs.{build_redis_config_json}
use go_mesi.Nginx.Parse.{undefined, Request, page, null_str, closed, Parsed, base_url_of, hosts_of}

module _ (lcf : LocConf) (esi : Worker.Symbols) (r : Request) (input : Bytes) where
  -- The page and the allowlist and the flags of the location, as an entry point takes them. The one
  -- without protection is called only without an allowlist, and if the library has no other.
  abbrev pub Protects : Call → Type 0
  Protects (Worker.parse i d u) =
      (i ≡ input)
      × (non_empty lcf.allowed_hosts ≡ false)
      × (esi.parse_with_config ≡ false)
      × (esi.parse_with_config_ex ≡ false)
  Protects (Worker.parse_with_config i d u h b) =
      (i ≡ input) × (h ≡ hosts_of lcf) × (b ≡ lcf.block_private_ips)
  Protects (Worker.parse_with_config_ex i d u h b a) =
      (i ≡ input)
      × (h ≡ hosts_of lcf)
      × (b ≡ lcf.block_private_ips)
      × (a ≡ lcf.allow_private_ips_for_allowed)
  Protects (Worker.parse_with_config_ctx i d u h b a t c) =
      (i ≡ input)
      × (h ≡ hosts_of lcf)
      × (b ≡ lcf.block_private_ips)
      × (a ≡ lcf.allow_private_ips_for_allowed)
      × (t ≡ or_else lcf.cache_key_template [])
  Protects (Worker.parse_json i cfg) =
      (i ≡ input)
      × ((ctx : Bytes) × (cfg
            ≡ parse_config_text lcf (to_nat lcf.max_depth) (base_url_of r) (hosts_of lcf)
                (some ctx)))
  Protects (Worker.init_cache b size ttl) = b ≡ or_else lcf.cache_backend []
  Protects (Worker.init_cache_with_config b size ttl blob) = b ≡ or_else lcf.cache_backend []
  Protects Worker.free_cache = ⊥
  Protects Worker.dlclose = ⊥

  -- What C leaves undefined: a request without a Host, whose NULL is read, and a Redis configuration
  -- whose blob passes the end of its buffer.
  abbrev pub Breaks : Type 0
  Breaks =
      (r.host ≡ none)
      ⊎ ((bytes_eq (or_else lcf.cache_backend []) (codes "redis") ≡ true)
          × (build_redis_config_json true true lcf ≡ overrun))

  -- The page is a message of the library for a protected call, or nothing at all; or C
  -- leaves it undefined.
  abbrev pub Safe : (Call → Option Bytes) → Parsed → Type 0
  Safe lib p =
      All Protects p.calls
      × ((p.output ≡ closed)
          ⊎ (p.output ≡ null_str)
          ⊎ ((c : Call) × (m : Bytes) × Protects c × (lib c ≡ some m) × (p.output ≡ page m))
          ⊎ ((p.output ≡ undefined) × Breaks))
