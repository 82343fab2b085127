-- ===== src/Nginx/Parse/Calls.antt =====
-- What parse() calls, and what it returns.
use go_mesi.Base.{
  ◌≢◌, ◌≤◌, is_some, Bool, true, not, ◌&&◌, ◌||◌, List, [], ◌∷◌, ◌++◌, Option, none, some, Bytes,
  codes, to_nat, or_else, bytes_eq, ◌≡◌, ◌⊎◌, inl, inr, refl, All, All-append, if-elim, ◌≤◌,
  is_some,
}
use mathlib.Core.Path.{subst}
use go_mesi.Apache.Config.{non_empty}
use go_mesi.Apache.Filter.{c_string}
use go_mesi.Nginx.Config.{LocConf}
use go_mesi.Nginx.Render.{Built, built, no_pool, overrun}
use go_mesi.Nginx.Render.Exact.{fill-text}
use go_mesi.Nginx.RequestCtx.{build_request_ctx_json}
use go_mesi.Nginx.ParseConfig.{parse_config_text, build_parse_json_config}
use go_mesi.Nginx.Worker.{Worker, Call}
use go_mesi.Nginx.Worker
use go_mesi.Nginx.Config.{max_max_response_size}
use go_mesi.Nginx.CacheBlobs.{build_memcached_config_json, build_redis_config_json}
use go_mesi.Nginx.CacheBlobs.Agree.{build_memcached_config_json-built, redis-overrun}
use go_mesi.Nginx.RequestCtx.Exact.{build_request_ctx_json-built}
use go_mesi.Nginx.ParseConfig.Parts.{Numbers}
use go_mesi.Nginx.ParseConfig.Exact.{build_parse_json_config-built}
use go_mesi.Nginx.Parse.Guards.{good_settings}
use go_mesi.Nginx.Parse.{
  undefined, Cached, called, broken_blob, broken, with_cache, Request, Alloc, Output, page,
  null_str, closed, bad_settings, needs_cache, call_with_blob, cache_calls, configured, base_url_of,
  hosts_of, Message, message, out_of_pool, legacy_calls, after_ctx, with_ctx, ctx_call,
  template_calls, json_calls, ask_json, json_with_ctx, outcome, parse_page, parse,
}
use go_mesi.Nginx.Parse.Protects.{Protects, Breaks, Safe}

module _ (lcf : LocConf) (w : Worker) (r : Request) (input : Bytes) (alloc : Alloc)
    (lib : Call → Option Bytes) where
  abbrev Protected : Call → Type 0
  Protected = Protects lcf w.esi r input

  -- The calls are protected, and the message is what the library gave for one of them.
  abbrev Fair : Message → Type 0
  Fair (message cs none) = All Protected cs
  Fair (message cs (some m)) = All Protected cs × ((c : Call) × Protected c × (lib c ≡ some m))
  Fair out_of_pool = Unit
  Fair broken = ⊥

  ask-Fair :
      (before : List Call) (c : Call) (o : Option Bytes)
      → lib c ≡ o
      → All Protected before
      → Protected c
      → Fair (message (before ++ c ∷ []) o)
  ask-Fair before c none e h p = All-append Protected before (c ∷ []) h (p, tt)
  ask-Fair before c (some m) e h p = (All-append Protected before (c ∷ []) h (p, tt), (c, p, e))

  legacy-Fair :
      (before : List Call) → All Protected before → Fair (legacy_calls lib lcf w r input before)
  unfolding legacy_calls
  legacy-Fair before h =
      if-elim Fair w.esi.parse_with_config_ex _ _
        (λ e. ask-Fair before _ _ refl h (refl, refl, refl, refl))
        (λ e.
          if-elim Fair w.esi.parse_with_config _ _
            (λ c. ask-Fair before _ _ refl h (refl, refl, refl))
            (λ c.
              if-elim Fair (non_empty lcf.allowed_hosts) _ _ (λ n. h)
                (λ n. ask-Fair before _ _ refl h (refl, n, c, e))))

  after_ctx-Fair :
      (c : Call) (o : Option Bytes)
      → lib c ≡ o
      → Protected c
      → Fair (after_ctx lib lcf w r input c o)
  after_ctx-Fair c none e p = legacy-Fair (c ∷ []) (p, tt)
  after_ctx-Fair c (some m) e p = ((p, tt), (c, p, e))

  with_ctx-Fair :
      (b : Built) (next : Bytes → Message)
      → b ≢ overrun
      → ((t : Bytes) → b ≡ built t → Fair (next t))
      → Fair (with_ctx b next)
  with_ctx-Fair (built t) next fits h = h t refl
  with_ctx-Fair no_pool next fits h = tt
  with_ctx-Fair overrun next fits h = fits refl

  template-Fair : Fair (template_calls alloc lib lcf w r input)
  unfolding template_calls
  template-Fair =
      if-elim Fair (non_empty lcf.cache_key_template && w.esi.parse_with_config_ctx) _ _
        (λ e.
          if-elim Fair alloc.template_cstr _ _
            (λ a.
              with_ctx-Fair _ _
                (build_request_ctx_json-built alloc.ctx_json r.headers_in lcf.cache_key_template)
                (λ t s.
                  after_ctx-Fair (ctx_call lcf r input t) _ refl (refl, refl, refl, refl, refl)))
            (λ a. tt))
        (λ e. legacy-Fair [] tt)

  config_text :
      (buf : Bool) (ctx cfg : Bytes)
      → build_parse_json_config buf lcf
          (to_nat lcf.max_depth)
          (base_url_of r)
          (hosts_of lcf)
          (some ctx)
        ≡ built cfg
      → cfg ≡ parse_config_text lcf (to_nat lcf.max_depth) (base_url_of r) (hosts_of lcf) (some ctx)
  unfolding build_parse_json_config
  config_text buf ctx cfg e = fill-text buf _ _ cfg e

  json-Fair :
      Numbers lcf × (to_nat lcf.max_depth ≤ max_max_response_size)
      → Fair (json_calls alloc lib lcf r input)
  unfolding json_calls
  json-Fair numbers =
      with_ctx-Fair (build_request_ctx_json alloc.ctx_json r.headers_in lcf.cache_key_template)
        (json_with_ctx alloc lib lcf r input)
        (build_request_ctx_json-built alloc.ctx_json r.headers_in lcf.cache_key_template)
        (λ ctx s.
          with_ctx-Fair
            (build_parse_json_config alloc.parse_config lcf (to_nat lcf.max_depth) (base_url_of r)
              (hosts_of lcf) (some ctx))
            (ask_json lib input)
            (build_parse_json_config-built alloc.parse_config lcf (to_nat lcf.max_depth)
              (base_url_of r) (hosts_of lcf) ctx numbers.0 numbers.1)
            (λ cfg t.
              ask-Fair [] (Worker.parse_json input cfg) _ refl tt
                (refl, (ctx, config_text alloc.parse_config ctx cfg t))))

  outcome-Safe :
      (w' : Worker) (before : List Call) (m : Message)
      → All Protected before
      → Fair m
      → Safe lcf w.esi r input lib (outcome alloc w' before m)
  outcome-Safe w' before (message cs none) h f = (All-append Protected before cs h f, inl refl)
  outcome-Safe w' before (message cs (some m)) h (f, (c, p, e)) = (
    All-append Protected before cs h f,
    if-elim
        (λ (o : Output).
          (o ≡ closed)
          ⊎ (o ≡ null_str)
          ⊎ ((c : Call) × (m : Bytes) × Protected c × (lib c ≡ some m) × (o ≡ page m))
          ⊎ ((o ≡ undefined) × Breaks lcf w.esi r input))
        alloc.output _ _ (λ a. inr (inr (inl (c, m, p, e, refl)))) (λ a. inr (inl refl)),
  )
  outcome-Safe w' before out_of_pool h f = (h, inl refl)
  outcome-Safe w' before broken h f = absurd f

  -- Calls that are protected, or a blob for Redis that breaks.
  abbrev CachedFair : Cached → Type 0
  CachedFair (called cs) = All Protected cs
  CachedFair broken_blob = Breaks lcf w.esi r input

  blob-Fair :
      (backend : Bytes)
      → backend ≡ or_else lcf.cache_backend []
      → (b : Built) → (b ≡ overrun → Breaks lcf w.esi r input)
      → CachedFair (call_with_blob backend lcf b)
  blob-Fair backend e (built t) h = (e, tt)
  blob-Fair backend e no_pool h = tt
  blob-Fair backend e overrun h = h refl

  cache-Fair :
      (backend : Bytes)
      → backend ≡ or_else lcf.cache_backend []
      → CachedFair (cache_calls alloc lcf w backend)
  unfolding cache_calls
  cache-Fair backend e =
      let blob_or_none = λ (b : Built) (h : b ≡ overrun → Breaks lcf w.esi r input).
        if-elim CachedFair (not w.esi.init_cache_with_config) (called [])
          (call_with_blob backend lcf b) (λ n. tt) (λ n. blob-Fair backend e b h) in
      if-elim CachedFair (bytes_eq backend (codes "memcached")) _ _
        (λ m.
          blob_or_none (build_memcached_config_json alloc.blob_copy alloc.blob lcf)
            (λ o. absurd (build_memcached_config_json-built alloc.blob_copy alloc.blob lcf o)))
        (λ m.
          if-elim CachedFair (bytes_eq backend (codes "redis")) _ _
            (λ d. blob_or_none (build_redis_config_json alloc.blob_copy alloc.blob lcf) (λ o. inr (
              subst (λ s. bytes_eq s (codes "redis") ≡ true) e d,
              redis-overrun alloc.blob_copy alloc.blob lcf o,
            )))
            (λ d. if-elim CachedFair w.esi.init_cache _ _ (λ n. (e, tt)) (λ n. tt)))

  page-Safe :
      Numbers lcf × (to_nat lcf.max_depth ≤ max_max_response_size)
      → (before : List Call) → All Protected before
      → Safe lcf w.esi r input lib (parse_page alloc lib lcf r input w before)
  unfolding parse_page
  page-Safe numbers before h =
      let S = Safe lcf w.esi r input lib in
      if-elim S (not (is_some r.host)) _ _
        (λ n. (h, inr (inr (inr (refl, inl (missing r.host n))))))
        (λ n.
          if-elim S (not alloc.base_url) _ _ (λ b. (h, inr (inl refl)))
            (λ b.
              if-elim S
                (not (
                  alloc.input_cstr
                  && alloc.base_url_cstr
                  && (not (non_empty lcf.allowed_hosts) || alloc.hosts_cstr)))
                _ _ (λ c. (h, inl refl))
                (λ c. outcome-Safe w before _ h (
                  if-elim Fair (configured lcf && w.esi.parse_json)
                    (json_calls alloc lib lcf r input) (template_calls alloc lib lcf w r input)
                    (λ j. json-Fair numbers) (λ j. template-Fair)))))
    where
      missing : (o : Option Bytes) → not (is_some o) ≡ true → o ≡ none
      missing none e = refl
      missing (some s) e = absurd cc

-- Behind the initialisation of the cache.
with_cache-Safe :
    (lcf : LocConf) (w : Worker) (r : Request) (input : Bytes) (alloc : Alloc)
    (lib : Call → Option Bytes) (c : Cached)
    → Numbers lcf × (to_nat lcf.max_depth ≤ max_max_response_size)
    → CachedFair lcf w r input alloc lib c
    → Safe lcf w.esi r input lib (with_cache alloc lib lcf r input w c)
with_cache-Safe lcf w r input alloc lib (called cs) numbers h =
    page-Safe lcf (record w { cache_initialized = true; cache_last_backend = lcf.cache_backend }) r
      input alloc lib numbers cs h
with_cache-Safe lcf w r input alloc lib broken_blob numbers h = (tt, inr (inr (inr (refl, h))))

-- Whatever the settings, the allocations and the answers of libgomesi are: every call that parse()
-- makes to parse gets the page that was received, up to its first NUL, and the allowlist and flags
-- of the location, and Parse, which knows neither, is called only where no allowlist is set and the
-- library exports neither ParseWithConfig nor ParseWithConfigEx; and what goes to the client is the
-- answer of one of these calls, or empty, unless C leaves it undefined, which only a request without
-- a Host or a Redis blob that passes the end of its buffer does.
pub parse-Safe :
    (alloc : Alloc) (lib : Call → Option Bytes) (lcf : LocConf) (r : Request) (input : Bytes)
    (w : Worker)
    → Safe lcf w.esi r (c_string input) lib (parse alloc lib lcf r input w)
unfolding parse
parse-Safe alloc lib lcf r input w =
    let S = Safe lcf w.esi r (c_string input) lib in
    let backend = or_else lcf.cache_backend [] in
    if-elim S (bad_settings lcf) _ _ (λ b. (tt, inl refl))
      (λ b.
        let numbers = good_settings lcf b in
        if-elim S (needs_cache lcf w) _ _
          (λ n.
            if-elim S alloc.backend _ _
              (λ a.
                with_cache-Safe lcf w r (c_string input) alloc lib (cache_calls alloc lcf w backend)
                  numbers (cache-Fair lcf w r (c_string input) alloc lib backend refl))
              (λ a. (tt, inl refl)))
          (λ n. page-Safe lcf w r (c_string input) alloc lib numbers [] tt))
