-- ===== src/Nginx/Parse/Caches.antt =====
-- The calls that initialise the cache, and that their blobs stay inside their buffers.
use go_mesi.Base.{
  ◌≢◌, bytes_eq, codes, Bool, not, List, [], Bytes, ℤ, pos, negsuc, if◌then◌else◌, or_else, ◌≡◌,
  refl, sym, ◌∙◌, arith, if-elim,
}
use go_mesi.Apache.Config.Valid.{UpTo}
use go_mesi.Nginx.Config.{LocConf}
use go_mesi.Nginx.Render.{Built, built, no_pool, overrun}
use go_mesi.Nginx.CacheBlobs.{build_memcached_config_json, build_redis_config_json}
use go_mesi.Nginx.CacheBlobs.Agree.{build_memcached_config_json-built, redis-overrun, redis-Apache}
use go_mesi.Nginx.Worker.{Worker, Call}
use go_mesi.Nginx.Parse.{
  Alloc, needs_cache, cache_calls, Cached, called, broken_blob, call_with_blob,
}

-- A blob that is built, or that there is no memory for.
abbrev pub Whole : Cached → Type 0
Whole (called cs) = Unit
Whole broken_blob = ⊥

blob-Whole :
    (backend : Bytes) (lcf : LocConf) (b : Built)
    → b ≢ overrun
    → Whole (call_with_blob backend lcf b)
blob-Whole backend lcf (built t) h = tt
blob-Whole backend lcf no_pool h = tt
blob-Whole backend lcf overrun h = h refl

-- A number of at most two digits leaves the blob for Redis inside its buffer.
redis-built :
    (cstr buf : Bool) (lcf : LocConf) (v : ℤ)
    → lcf.cache_redis_db ≡ v
    → UpTo 99 v
    → build_redis_config_json cstr buf lcf ≢ overrun
redis-built cstr buf lcf (pos n) e h o =
    let wrong = sym (redis-Apache lcf n e (omega arith)) ∙ redis-overrun cstr buf lcf o in absurd cc
redis-built cstr buf lcf (negsuc n) e h o = absurd h

pub cache-Whole :
    (alloc : Alloc) (lcf : LocConf) (w : Worker) (backend : Bytes)
    → UpTo 99 lcf.cache_redis_db
    → Whole (cache_calls alloc lcf w backend)
unfolding cache_calls
cache-Whole alloc lcf w backend h =
    let blob_or_none = λ (b : Built) (fits : b ≢ overrun).
      if-elim Whole (not w.esi.init_cache_with_config) (called []) (call_with_blob backend lcf b)
        (λ n. tt) (λ n. blob-Whole backend lcf b fits) in
    if-elim Whole (bytes_eq backend (codes "memcached")) _ _
      (λ m.
        blob_or_none (build_memcached_config_json alloc.blob_copy alloc.blob lcf)
          (build_memcached_config_json-built alloc.blob_copy alloc.blob lcf))
      (λ m.
        if-elim Whole (bytes_eq backend (codes "redis")) _ _
          (λ d.
            blob_or_none (build_redis_config_json alloc.blob_copy alloc.blob lcf)
              (redis-built alloc.blob_copy alloc.blob lcf lcf.cache_redis_db refl h))
          (λ d. if-elim Whole w.esi.init_cache _ _ (λ n. tt) (λ n. tt)))

abbrev pub calls_of : Cached → List Call
calls_of (called cs) = cs
calls_of broken_blob = []

-- The calls that initialise the cache for a request.
abbrev pub first_calls : Alloc → LocConf → Worker → List Call
first_calls alloc lcf w =
    if needs_cache lcf w
    then calls_of (cache_calls alloc lcf w (or_else lcf.cache_backend []))
    else []
