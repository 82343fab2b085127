-- ===== src/Php/CacheBlob/Overrun.antt =====
-- Exactly when the blob for the cache is written behind the end of its buffer.
use go_mesi.Base.{
  ℕ, ◌+◌, ◌≤◌, ◌<◌, ◌||◌, true, false, List, [], ◌++◌, Option, none, some, Bytes, codes, ltb, leb,
  if◌then◌else◌, or_else, null, length, length-append, bytes_eq, bytes_eq_iff, ◌≡◌, ◌≢◌, ◌↔◌, refl,
  arith, Bool-cases, if-elim, inl, inr,
}
use go_mesi.Json.Text.{json_string}
use go_mesi.Php.Buffer.{mesi_json_append_str}
use go_mesi.Php.Buffer.Fits.{fits, append_str-Writes}
use go_mesi.Php.CacheBlob.{
  CacheOptions, Rendered, failed, overrun, or_failed, copied, closed, put_db, redis_blob,
  put_servers, memcached_blob, build_cache_config_json,
}

abbrev Inside : Rendered → Type 0
Inside r = r ≢ overrun

-- Behind the address nothing but the copy of the key can pass the end.
or_failed-Inside :
    (o : Option Bytes) (next : Bytes → Rendered)
    → ((b : Bytes) → Inside (next b))
    → Inside (or_failed o next)
or_failed-Inside none next h e = absurd cc
or_failed-Inside (some b) next h e = h b e

-- The guard in front of the end of the object leaves room for two bytes and the NUL.
closed-Inside : (cap : ℕ) (out s : Bytes) → length s ≤ 2 → Inside (closed cap out s)
closed-Inside cap out s short =
    if-elim Inside (leb cap (length out + 2)) _ _ (λ _ e. absurd cc)
      (λ guard.
        let room : ltb cap (length out + length s + 1) ≡ false = ground arith in
        rw room (λ e. absurd cc))

password-Inside :
    (cap : ℕ) (c : CacheOptions) (d : Bytes)
    → Inside (
        or_failed
          (mesi_json_append_str cap d (or_else c.cache_redis_password []))
          (λ e. or_failed (put_db cap e c.cache_redis_db) (λ f. closed cap f (codes "}"))))
password-Inside cap c d =
    or_failed-Inside (mesi_json_append_str cap d (or_else c.cache_redis_password [])) _ (λ e.
      or_failed-Inside (put_db cap e c.cache_redis_db) _
        (λ f. closed-Inside cap f (codes "}") (omega arith)))

-- The length of the text up to the closing quote of the address.
abbrev pub addr_end : CacheOptions → ℕ
addr_end c = 13 + length (json_string (some c.cache_redis_addr))

-- The address fits, and the key behind it does not.
abbrev pub PassesEnd : ℕ → CacheOptions → Type 0
PassesEnd cap c = (addr_end c < cap) × (cap < addr_end c + 17)

-- A copy of 17 bytes behind a text that may fit.
copied-overrun :
    (cap : ℕ) (text key : Bytes) (next : Bytes → Rendered)
    → ((d : Bytes) → Inside (next d))
    → (or_failed (fits cap text) (λ b. copied cap b key next) ≡ overrun)
      ↔ ((length text < cap) × (cap < length text + length key))
copied-overrun cap text key next h = elim (Bool-cases (ltb (length text) cap)) [
  | inl e ↦ elim (Bool-cases (ltb cap (length text + length key))) [
    | inl f ↦ rw (e, f) ((λ o. (ground arith, ground arith)), (λ o. refl))
    | inr f ↦ rw (e, f) ((λ o. absurd (h (text ++ key) o)), (λ o. absurd (ground arith)))
  ]
  | inr e ↦ rw e ((λ o. absurd cc), (λ o. absurd (ground arith)))
]

redis-PassesEnd :
    (cap : ℕ) (c : CacheOptions) → 32 ≤ cap → (redis_blob cap c ≡ overrun) ↔ PassesEnd cap c
unfolding redis_blob
redis-PassesEnd cap c large =
    let prefix = codes "{\"redisAddr\":" in
    let text = prefix ++ json_string (some c.cache_redis_addr) in
    let start : ltb cap 32 ≡ false = ground arith in
    let copy : ltb cap 13 ≡ false = ground arith in
    let len : length text ≡ addr_end c =
      length-append prefix (json_string (some c.cache_redis_addr)) in
    let exact =
      copied-overrun cap text (codes ",\"redisPassword\":")
        (λ d.
          or_failed (mesi_json_append_str cap d (or_else c.cache_redis_password []))
            (λ e. or_failed (put_db cap e c.cache_redis_db) (λ f. closed cap f (codes "}"))))
        (password-Inside cap c) in
    rw (start, copy, append_str-Writes cap c.cache_redis_addr prefix (omega arith))
      (
        (λ o. (let (a, b) = exact.0 o in (omega (arith, len), omega (arith, len)))),
        (λ p. exact.1 (omega (arith, len), omega (arith, len))),
      )

memcached-Inside : (cap : ℕ) (c : CacheOptions) → Inside (memcached_blob cap c)
unfolding memcached_blob
memcached-Inside cap c = listed c.cache_memcached_servers
  where
    listed :
        (vs : Option (List (Option Bytes)))
        → Inside (elim vs [
          | none ↦ failed
          | some vs ↦
              if ltb cap 16
              then failed
              else copied cap []
                  (codes "{\"servers\":[")
                  (λ a. or_failed (put_servers cap true a vs) (λ b. closed cap b (codes "]}")))
        ])
    listed none = λ e. absurd cc
    listed (some vs) =
        if-elim Inside (ltb cap 16) _ _ (λ _ e. absurd cc)
          (λ small.
            let copy : ltb cap 12 ≡ false = ground arith in
            rw copy (
              or_failed-Inside (put_servers cap true (codes "{\"servers\":[") vs) _
                (λ b. closed-Inside cap b (codes "]}") (omega arith))))

-- In a buffer of 32 bytes or more, as the caller's is, the blob is written behind the end exactly if
-- the backend is redis, and the text up to the closing quote of the address fits but not the 17 bytes
-- of the key behind it, which are copied without a test; in every other case nothing is written behind
-- the end, the end of the object and its NUL included.
pub build_cache_config_json-PassesEnd :
    (cap : ℕ) (c : CacheOptions)
    → 32 ≤ cap
    → (c.backend ≡ codes "redis" → (build_cache_config_json cap c ≡ overrun) ↔ PassesEnd cap c)
      × (c.backend ≢ codes "redis" → build_cache_config_json cap c ≢ overrun)
unfolding build_cache_config_json bytes_eq
build_cache_config_json-PassesEnd cap c large = (
  (λ e. rw e (redis-PassesEnd cap c large)),
  λ n.
      if-elim Inside (null c.backend || bytes_eq c.backend (codes "memory")) _ _
        (λ _. if-elim Inside (ltb cap 3) _ _ (λ _ e. absurd cc) (λ _ e. absurd cc))
        (λ _.
          if-elim Inside (bytes_eq c.backend (codes "redis")) _ _
            (λ q. absurd (n ((bytes_eq_iff c.backend (codes "redis")).0 q)))
            (λ _.
              if-elim Inside (bytes_eq c.backend (codes "memcached")) _ _
                (λ _. memcached-Inside cap c) (λ _ e. absurd cc))),
)
