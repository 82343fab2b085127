-- ===== src/Apache/Process/Once.antt =====
-- The cache and the shared client are initialised at most once.
use mathlib.Core.Path.{subst}
use go_mesi.Base.{
  ℕ, ◌+◌, ◌≤◌, Bool, true, false, List, [], ◌∷◌, ◌++◌, Option, none, some, Bytes, ℤ, is_nat, ltb,
  length, ◌≡◌, refl, ap, arith, Bool-cases, inl, inr, if◌then◌else◌,
}
use go_mesi.Apache.Config.{Config, non_empty}
use go_mesi.Apache.CacheConfig.{build_cache_config_json}
use go_mesi.Apache.Process.{
  Symbols, Process, Call, call_init_cache, call_init_cache_with_config, call_init_http_client,
  call_free_cache, call_free_http_client, call_dlclose, Ran, mesi_init_cache, init_backend, resolve,
  init_with_blob, after_init, mesi_init_http_client, max_cache_config_json, needs_config, quiet,
  prepare,
}

-- The calls that initialise the cache with success, and those that initialise the client.
abbrev cache_call : (Call → ℤ) → Call → ℕ
cache_call rc (call_init_cache b s t) = if is_nat 0 (rc (call_init_cache b s t)) then 1 else 0
cache_call rc (call_init_cache_with_config b s t j) =
    if is_nat 0 (rc (call_init_cache_with_config b s t j)) then 1 else 0
cache_call rc _ = 0

abbrev client_call : Call → ℕ
client_call (call_init_http_client b) = 1
client_call _ = 0

abbrev pub cache_inits : (Call → ℤ) → List Call → ℕ
cache_inits rc [] = 0
cache_inits rc (c ∷ cs) = cache_call rc c + cache_inits rc cs

abbrev pub client_inits : List Call → ℕ
client_inits [] = 0
client_inits (c ∷ cs) = client_call c + client_inits cs

abbrev bit : Bool → ℕ
bit b = if b then 1 else 0

-- A step on the cache that starts from the flag b, and leaves the client alone.
abbrev CacheStep : (Call → ℤ) → Bool → Process → Ran → Type 0
CacheStep rc b p r =
    (cache_inits rc r.calls + bit b ≤ bit r.process.cache_initialized)
    × (client_inits r.calls ≡ 0)
    × (r.process.http_client_initialized ≡ p.http_client_initialized)

cache_call-bit : (rc : Call → ℤ) (c : Call) → cache_call rc c ≤ bit (is_nat 0 (rc c))
cache_call-bit rc (call_init_cache b s t) = omega arith
cache_call-bit rc (call_init_cache_with_config b s t j) = omega arith
cache_call-bit rc (call_init_http_client b) = omega arith
cache_call-bit rc call_free_cache = omega arith
cache_call-bit rc call_free_http_client = omega arith
cache_call-bit rc call_dlclose = omega arith

cache_call-bound :
    (rc : Call → ℤ) (c : Call) {v : Bool} → is_nat 0 (rc c) ≡ v → cache_call rc c ≤ bit v
cache_call-bound rc c e = subst (λ v. cache_call rc c ≤ bit v) e (cache_call-bit rc c)

after_init-CacheStep :
    (rc : Call → ℤ) (p : Process) (c : Call)
    → p.cache_initialized ≡ true
    → client_call c ≡ 0
    → CacheStep rc false p (after_init rc p c)
unfolding after_init
after_init-CacheStep rc p c h n = elim (Bool-cases (is_nat 0 (rc c))) [
  | inl e ↦ rw e (rw h (omega (arith, cache_call-bound rc c e)), omega arith, refl)
  | inr e ↦ rw e (omega (arith, cache_call-bound rc c e), omega arith, refl)
]

init_with_blob-CacheStep :
    (rc : Call → ℤ) (conf : Config) (backend : Bytes) (p : Process) (blob : Option Bytes)
    → p.cache_initialized ≡ true
    → CacheStep rc false p (init_with_blob rc conf backend p blob)
unfolding init_with_blob
init_with_blob-CacheStep rc conf backend p none h = (omega arith, refl, refl)
init_with_blob-CacheStep rc conf backend p (some j) h =
    elim (Bool-cases (ltb max_cache_config_json (length j))) [
      | inl e ↦ rw e (omega arith, refl, refl)
      | inr e ↦ rw e (after_init-CacheStep rc p _ h refl)
    ]

init_backend-CacheStep :
    (library : Symbols) (rc : Call → ℤ) (conf : Config) (backend : Bytes) (p : Process)
    → p.cache_initialized ≡ true
    → CacheStep rc false p (init_backend library rc conf backend p)
unfolding init_backend
init_backend-CacheStep library rc conf backend p h =
    let with_config = resolve p.esi.init_cache_with_config p library.init_cache_with_config in
    let plain = resolve p.esi.init_cache p library.init_cache in
    elim (Bool-cases (needs_config backend)) [
      | inl e ↦ elim (Bool-cases with_config) [
        | inl f ↦
            rw e
              (rw f (init_with_blob-CacheStep rc conf backend _ (build_cache_config_json conf) h))
        | inr f ↦ rw e (rw f (rw h (omega arith), refl, refl))
      ]
      | inr e ↦ elim (Bool-cases plain) [
        | inl f ↦ rw e (rw f (after_init-CacheStep rc _ _ h refl))
        | inr f ↦ rw e (rw f (rw h (omega arith), refl, refl))
      ]
    ]

mesi_init_cache-CacheStep :
    (library : Symbols) (rc : Call → ℤ) (conf : Config) (p : Process)
    → CacheStep rc p.cache_initialized p (mesi_init_cache library rc conf p)
unfolding mesi_init_cache
mesi_init_cache-CacheStep library rc conf p = elim (Bool-cases p.cache_initialized) [
  | inl e ↦ rw e (omega arith, refl, refl)
  | inr e ↦ elim (Bool-cases (non_empty conf.cache_backend)) [
    | inl f ↦ rw e (
        rw f
          (init_backend-CacheStep library rc conf _ (record p { cache_initialized = true }) refl))
    | inr f ↦ rw e (rw f (omega arith, refl, refl))
  ]
]

-- The same for the client.
mesi_init_http_client-once :
    (library : Symbols) (rc : Call → ℤ) (conf : Config) (p : Process)
    → let r = mesi_init_http_client library conf p in
      (client_inits r.calls + bit p.http_client_initialized ≤ bit r.process.http_client_initialized)
      × (cache_inits rc r.calls ≡ 0)
      × (r.process.cache_initialized ≡ p.cache_initialized)
unfolding mesi_init_http_client
mesi_init_http_client-once library rc conf p = elim (Bool-cases p.http_client_initialized) [
  | inl e ↦ rw e (omega arith, refl, refl)
  | inr e ↦ elim (Bool-cases (is_nat 1 conf.shared_http_client)) [
    | inl f ↦ elim (Bool-cases (resolve p.esi.init_http_client p library.init_http_client)) [
      | inl g ↦ rw e (rw f (rw g (omega arith, refl, refl)))
      | inr g ↦ rw e (rw f (rw g (omega arith, refl, refl)))
    ]
    | inr f ↦ rw e (rw f (omega arith, refl, refl))
  ]
]

cache_inits-append :
    (rc : Call → ℤ) (cs ds : List Call)
    → cache_inits rc (cs ++ ds) ≡ cache_inits rc cs + cache_inits rc ds
cache_inits-append rc [] ds = omega arith
cache_inits-append rc (c ∷ cs) ds = omega (arith, cache_inits-append rc cs ds)

client_inits-append :
    (cs ds : List Call) → client_inits (cs ++ ds) ≡ client_inits cs + client_inits ds
client_inits-append [] ds = omega arith
client_inits-append (c ∷ cs) ds = omega (arith, client_inits-append cs ds)

-- The calls for a sequence of requests, each with the configuration of its server.
unfoldable pub serve : Symbols → (Call → ℤ) → List Config → Process → List Call
unfolding prepare
serve library rc [] p = []
serve library rc (conf ∷ confs) p =
    let q = prepare library rc conf p in q.1 ++ serve library rc confs q.0

-- The filter's own tests come before those of the two functions.
tested_cache :
    (library : Symbols) (rc : Call → ℤ) (conf : Config) (p : Process) (b : Bool)
    → CacheStep rc p.cache_initialized p (if b then mesi_init_cache library rc conf p else quiet p)
tested_cache library rc conf p true = mesi_init_cache-CacheStep library rc conf p
tested_cache library rc conf p false = (omega arith, refl, refl)

tested_client :
    (library : Symbols) (rc : Call → ℤ) (conf : Config) (p : Process) (b : Bool)
    → let r = if b then mesi_init_http_client library conf p else quiet p in
      (client_inits r.calls + bit p.http_client_initialized ≤ bit r.process.http_client_initialized)
      × (cache_inits rc r.calls ≡ 0)
      × (r.process.cache_initialized ≡ p.cache_initialized)
tested_client library rc conf p true = mesi_init_http_client-once library rc conf p
tested_client library rc conf p false = (omega arith, refl, refl)

prepare-once :
    (library : Symbols) (rc : Call → ℤ) (conf : Config) (p : Process)
    → let q = prepare library rc conf p in
      (cache_inits rc q.1 + bit p.cache_initialized ≤ bit q.0.cache_initialized)
      × (client_inits q.1 + bit p.http_client_initialized ≤ bit q.0.http_client_initialized)
unfolding prepare
prepare-once library rc conf p =
    let r = if non_empty conf.cache_backend then mesi_init_cache library rc conf p else quiet p in
    let s =
      if is_nat 1 conf.shared_http_client
      then mesi_init_http_client library conf r.process
      else quiet r.process in
    let (a, b, c) = tested_cache library rc conf p (non_empty conf.cache_backend) in
    let (d, e, f) = tested_client library rc conf r.process (is_nat 1 conf.shared_http_client) in
    let g = cache_inits-append rc r.calls s.calls in
    let h = client_inits-append r.calls s.calls in
    let i : bit s.process.cache_initialized ≡ bit r.process.cache_initialized = ap bit f in
    let j : bit r.process.http_client_initialized ≡ bit p.http_client_initialized = ap bit c in
    (omega (arith, a, e, g, i), omega (arith, b, d, h, j))

-- In every sequence of requests, from every state, at most one call that initialises the cache
-- succeeds, and the client is initialised at most once; neither if it already was.
pub serve-once :
    (library : Symbols) (rc : Call → ℤ) (confs : List Config) (p : Process)
    → (cache_inits rc (serve library rc confs p) + bit p.cache_initialized ≤ 1)
      × (client_inits (serve library rc confs p) + bit p.http_client_initialized ≤ 1)
unfolding serve
serve-once library rc [] p = (ground arith, ground arith)
serve-once library rc (conf ∷ confs) p =
    let q = prepare library rc conf p in
    let (one, two) = prepare-once library rc conf p in
    let (rest1, rest2) = serve-once library rc confs q.0 in
    (
      omega (arith, cache_inits-append rc q.1 (serve library rc confs q.0), one, rest1),
      omega (arith, client_inits-append q.1 (serve library rc confs q.0), two, rest2),
    )
