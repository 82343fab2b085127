-- ===== src/Apache/Process/Lookup.antt =====
-- The initialisation of the cache and of the client keeps the pointers into libgomesi sound.
use go_mesi.Base.{
  Bool, true, false, [], Option, none, some, Bytes, ℤ, ◌≡◌, refl, ap, ◌∙◌, arith, Bool-cases, inl,
  inr, if◌then◌else◌, is_nat, ltb, length, or_else,
}
use go_mesi.Apache.Config.{Config, non_empty}
use go_mesi.Apache.CacheConfig.{build_cache_config_json}
use go_mesi.Apache.Process.{quiet, prepare, call_init_cache, size_of, ttl_of}
use go_mesi.Apache.Process.{
  Symbols, Process, Call, mesi_init_cache, init_backend, init_with_blob, after_init,
  mesi_init_http_client, resolve, max_cache_config_json, quiet, needs_config,
}
use go_mesi.Apache.Process.Mapped.{Sound}

-- A pointer that is looked up again.
resolved :
    (l : Symbols) (p : Process) (pointer exported : Bool)
    → (pointer ≡ true → exported ≡ true)
    → resolve pointer p exported ≡ true
    → exported ≡ true
resolved l p true exported h e = h refl
resolved l p false true h e = refl
resolved l p false false h e = ground arith

unresolved :
    (p : Process) (pointer exported : Bool)
    → p.go_module ≡ false
    → resolve pointer p exported ≡ pointer
unresolved p true exported h = refl
unresolved p false exported h = rw h refl

-- The lookup of each of the three symbols keeps the state sound.
module _ (l : Symbols) (p : Process) (s : Sound l p) where
  init_cache-Sound :
      Sound l
        (record p { esi = record p.esi { init_cache = resolve p.esi.init_cache p l.init_cache } })
  init_cache-Sound = record {
    among =
        (let a = s.among in
          assumption (a, resolved l p p.esi.init_cache l.init_cache a.init_cache));
    usable_when_loaded = s.usable_when_loaded;
    null_when_not = λ h.
        ap (λ b. record p.esi { init_cache = b }) (unresolved p p.esi.init_cache l.init_cache h)
        ∙ s.null_when_not h;
  }

  init_cache_with_config-Sound : Sound l (record p {
    esi = record p.esi {
      init_cache_with_config = resolve p.esi.init_cache_with_config p l.init_cache_with_config;
    };
  })
  init_cache_with_config-Sound = record {
    among =
        (let a = s.among in
          assumption (
            a,
            resolved l p p.esi.init_cache_with_config l.init_cache_with_config
                a.init_cache_with_config,
          ));
    usable_when_loaded = s.usable_when_loaded;
    null_when_not = λ h.
        ap (λ b. record p.esi { init_cache_with_config = b })
          (unresolved p p.esi.init_cache_with_config l.init_cache_with_config h)
        ∙ s.null_when_not h;
  }

  init_http_client-Sound : Sound l (record p {
    esi = record p.esi { init_http_client = resolve p.esi.init_http_client p l.init_http_client };
  })
  init_http_client-Sound = record {
    among =
        (let a = s.among in
          assumption
            (a, resolved l p p.esi.init_http_client l.init_http_client a.init_http_client));
    usable_when_loaded = s.usable_when_loaded;
    null_when_not = λ h.
        ap (λ b. record p.esi { init_http_client = b })
          (unresolved p p.esi.init_http_client l.init_http_client h)
        ∙ s.null_when_not h;
  }

  cache_flag-Sound : (b : Bool) → Sound l (record p { cache_initialized = b })
  cache_flag-Sound b = record {
    among = s.among;
    usable_when_loaded = s.usable_when_loaded;
    null_when_not = s.null_when_not;
  }

  client_flag-Sound : (b : Bool) → Sound l (record p { http_client_initialized = b })
  client_flag-Sound b = record {
    among = s.among;
    usable_when_loaded = s.usable_when_loaded;
    null_when_not = s.null_when_not;
  }

  after_init-Sound : (rc : Call → ℤ) (c : Call) → Sound l (after_init rc p c).process
  unfolding after_init
  after_init-Sound rc c = elim (Bool-cases (is_nat 0 (rc c))) [
    | inl e ↦ rw e s
    | inr e ↦ rw e (cache_flag-Sound false)
  ]

init_with_blob-Sound :
    (l : Symbols) (p : Process)
    → Sound l p
    → (rc : Call → ℤ) (conf : Config) (backend : Bytes) (blob : Option Bytes)
    → Sound l (init_with_blob rc conf backend p blob).process
unfolding init_with_blob
init_with_blob-Sound l p s rc conf backend none = cache_flag-Sound l p s false
init_with_blob-Sound l p s rc conf backend (some j) =
    elim (Bool-cases (ltb max_cache_config_json (length j))) [
      | inl e ↦ rw e (cache_flag-Sound l p s false)
      | inr e ↦ rw e (after_init-Sound l p s rc _)
    ]

init_backend-Sound :
    (l : Symbols) (p : Process)
    → Sound l p
    → (rc : Call → ℤ) (conf : Config) (backend : Bytes)
    → Sound l (init_backend l rc conf backend p).process
unfolding init_backend
init_backend-Sound l p s rc conf backend =
    let s1 = init_cache_with_config-Sound l p s in
    let s2 = init_cache-Sound l p s in
    elim (Bool-cases (needs_config backend)) [
      | inl e ↦
          elim (Bool-cases (resolve p.esi.init_cache_with_config p l.init_cache_with_config)) [
            | inl f ↦ rw e (
                rw f (
                  rw f at
                    (init_with_blob-Sound l _ s1 rc conf backend (build_cache_config_json conf))))
            | inr f ↦ rw e (rw f (rw f at s1))
          ]
      | inr e ↦ elim (Bool-cases (resolve p.esi.init_cache p l.init_cache)) [
        | inl f ↦ rw e (
            rw f (
              rw f at (
                after_init-Sound l _ s2 rc (call_init_cache backend (size_of conf) (ttl_of conf)))))
        | inr f ↦ rw e (rw f (rw f at s2))
      ]
    ]

-- The initialisation of the cache keeps the pointers sound, on each of its branches.
pub mesi_init_cache-Sound :
    (l : Symbols) (p : Process)
    → Sound l p
    → (rc : Call → ℤ) (conf : Config) → Sound l (mesi_init_cache l rc conf p).process
unfolding mesi_init_cache
mesi_init_cache-Sound l p s rc conf = elim (Bool-cases p.cache_initialized) [
  | inl e ↦ rw e (cache_flag-Sound l p s true)
  | inr e ↦ elim (Bool-cases (non_empty conf.cache_backend)) [
    | inl f ↦ rw e (
        rw f (
          init_backend-Sound l _ (cache_flag-Sound l p s true) rc conf
            (or_else conf.cache_backend [])))
    | inr f ↦ rw e (rw f (cache_flag-Sound l p s false))
  ]
]

-- So does the initialisation of the client.
pub mesi_init_http_client-Sound :
    (l : Symbols) (p : Process)
    → Sound l p
    → (conf : Config) → Sound l (mesi_init_http_client l conf p).process
unfolding mesi_init_http_client
mesi_init_http_client-Sound l p s conf =
    let s1 = init_http_client-Sound l p s in
    elim (Bool-cases p.http_client_initialized) [
      | inl e ↦ rw e (client_flag-Sound l p s true)
      | inr e ↦ elim (Bool-cases (is_nat 1 conf.shared_http_client)) [
        | inl f ↦ elim (Bool-cases (resolve p.esi.init_http_client p l.init_http_client)) [
          | inl g ↦ rw e (rw f (rw g (rw g at (client_flag-Sound l _ s1 true))))
          | inr g ↦ rw e (rw f (rw g (rw g at (client_flag-Sound l _ s1 false))))
        ]
        | inr f ↦ rw e (rw f (client_flag-Sound l p s false))
      ]
    ]

-- From a sound state, with every configuration and whatever the library's functions return, what the
-- filter runs before it parses leaves a sound state.
pub prepare-Sound :
    (l : Symbols) (p : Process)
    → Sound l p
    → (rc : Call → ℤ) (conf : Config) → Sound l (prepare l rc conf p).0
unfolding prepare
prepare-Sound l p s rc conf =
    client (cache (non_empty conf.cache_backend)) (is_nat 1 conf.shared_http_client)
  where
    cache : (b : Bool) → Sound l (if b then mesi_init_cache l rc conf p else quiet p).process
    cache true = mesi_init_cache-Sound l p s rc conf
    cache false = s

    client :
        {q : Process}
        → Sound l q
        → (b : Bool) → Sound l (if b then mesi_init_http_client l conf q else quiet q).process
    client s' true = mesi_init_http_client-Sound l _ s' conf
    client s' false = s'
