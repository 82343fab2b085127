-- ===== src/Apache/Directive/Load/Keeps.antt =====
-- Every directive keeps the configuration valid, accepted or not.
use go_mesi.Base.{
  ℕ, ◌≤◌, Bool, true, false, not, List, [], ◌∷◌, some, Bytes, ℤ, pos, ◌≡◌, refl, arith, Bool-cases,
  Option-cases, if◌then◌else◌, null, any_byte, NoneOf-any_byte, codes, is_control, inl, inr,
}
use go_mesi.Apache.Number.{Parsed, ok, err, parse_nonneg_int, parse_nonneg_off, int64_max}
use go_mesi.Apache.Number.Exact.{parse_nonneg_int-Accepted, parse_nonneg_off-AcceptedOff}
use go_mesi.Apache.Config.{
  Config, max_cache_size, max_cache_ttl_seconds, max_redis_db, max_max_depth, max_timeout_seconds,
  max_max_response_size, max_max_concurrent_requests, max_max_workers,
}
use go_mesi.Apache.Config.Valid.{Within, UpTo, IsBackend, IsValid, create-IsValid}
use go_mesi.Apache.Config.Merge.{merge-IsValid}
use go_mesi.Base.{drop_while}
use go_mesi.Apache.Hosts.{is_space}
use go_mesi.Apache.Directive.{
  eq_ignore_case, oversize_unknown, marker_missing, marker_extra, Outcome, number, accept, refuse,
  flag, set_enable_mesi, set_block_private_ips, set_allow_private_for_allowed,
  set_shared_http_client, set_debug, set_parse_on_header, set_max_depth, set_timeout,
  set_max_response_size, set_max_body_size, set_max_concurrent_requests, set_max_workers,
  set_cache_size, set_cache_ttl, set_cache_redis_db, set_on_oversize, set_cache_backend,
  set_cache_redis_password, set_include_error_marker,
}
use go_mesi.Apache.Directive.Load.Texts.{
  set_allowed_hosts-IsValid, set_cache_memcached_servers-IsValid, set_cache_redis_addr-IsValid,
  set_cache_key_template-IsValid,
}
use go_mesi.Apache.Directive.Load.{
  enable_mesi, block_private_ips, allow_private_ips_for_allowed_hosts, shared_http_client, debug,
  parse_on_header, allowed_hosts, include_error_marker, cache_memcached_servers, max_depth, timeout,
  max_response_size, max_body_size, on_oversize, max_concurrent_requests, max_workers,
  cache_backend, cache_size, cache_ttl, cache_redis_addr, cache_redis_password, cache_redis_db,
  cache_key_template, Directive, apply, load, Loaded, block, nested,
}

flag-Within : (on : Bool) → Within 0 1 (flag on)
flag-Within true = omega arith
flag-Within false = omega arith

flag-UpTo : (on : Bool) → UpTo 1 (flag on)
flag-UpTo true = omega arith
flag-UpTo false = omega arith

-- What a number directive does with the outcome of its parser.
abbrev stored : Config → Parsed → (ℤ → Config) → Outcome
stored c (ok v) put = accept (put (pos v))
stored c (err e) put = refuse c (number e)

int_Within :
    (arg : Bytes) (lo hi v : ℕ) → parse_nonneg_int (some arg) lo hi ≡ ok v → Within lo hi (pos v)
int_Within arg lo hi v h = let a = (parse_nonneg_int-Accepted arg lo hi v).0 h in (a.lower, a.upper)

off_Within :
    (arg : Bytes) (lo hi v : ℕ)
    → hi ≤ int64_max
    → parse_nonneg_off (some arg) lo hi ≡ ok v
    → Within lo hi (pos v)
off_Within arg lo hi v fits h =
    let a = (parse_nonneg_off-AcceptedOff arg lo hi v fits).0 h in (a.lower, a.upper)

-- The configuration that an outcome gives back is valid.
record Keeps (o : Outcome) : Type 0 where
  valid : IsValid o.0

outcome_if : (b : Bool) {x y : Outcome} → Keeps x → Keeps y → Keeps (if b then x else y)
outcome_if true kx ky = kx
outcome_if false kx ky = ky

kept : {o : Outcome} → IsValid o.0 → Keeps o
kept v = record { valid = v }

module _ {c : Config} (v : IsValid c) where
  stored-IsValid :
      (p : Parsed) (put : ℤ → Config)
      → ((n : ℕ) → p ≡ ok n → IsValid (put (pos n)))
      → IsValid (stored c p put).0
  stored-IsValid (ok n) put h = h n refl
  stored-IsValid (err e) put h = v

  flags-IsValid :
      (on : Bool)
      → IsValid (set_enable_mesi c on).0
        × IsValid (set_block_private_ips c on).0
        × IsValid (set_allow_private_for_allowed c on).0
        × IsValid (set_shared_http_client c on).0
        × IsValid (set_debug c on).0
        × IsValid (set_parse_on_header c on).0
  unfolding set_enable_mesi set_block_private_ips set_allow_private_for_allowed
      set_shared_http_client set_debug set_parse_on_header
  flags-IsValid on = (
    assumption (v, flag-UpTo on),
    assumption (v, flag-Within on),
    assumption (v, flag-Within on),
    assumption (v, flag-Within on),
    assumption (v, flag-Within on),
    assumption (v, flag-Within on),
  )

  set_max_depth-IsValid : (arg : Bytes) → IsValid (set_max_depth c (some arg)).0
  unfolding set_max_depth
  set_max_depth-IsValid arg =
      stored-IsValid (parse_nonneg_int (some arg) 0 max_max_depth) (λ x. record c { max_depth = x })
        λ n e. assumption (v, int_Within arg 0 max_max_depth n e)

  set_timeout-IsValid : (arg : Bytes) → IsValid (set_timeout c (some arg)).0
  unfolding set_timeout
  set_timeout-IsValid arg =
      stored-IsValid (parse_nonneg_int (some arg) 1 max_timeout_seconds)
        (λ x. record c { timeout_seconds = x })
        λ n e. assumption (v, int_Within arg 1 max_timeout_seconds n e)

  set_max_response_size-IsValid : (arg : Bytes) → IsValid (set_max_response_size c (some arg)).0
  unfolding set_max_response_size
  set_max_response_size-IsValid arg =
      stored-IsValid (parse_nonneg_off (some arg) 0 max_max_response_size)
        (λ x. record c { max_response_size = x })
        λ n e. assumption (v, off_Within arg 0 max_max_response_size n (omega arith) e)

  set_max_body_size-IsValid : (arg : Bytes) → IsValid (set_max_body_size c (some arg)).0
  unfolding set_max_body_size
  set_max_body_size-IsValid arg =
      stored-IsValid (parse_nonneg_off (some arg) 0 max_max_response_size)
        (λ x. record c { max_body_size = x })
        λ n e. assumption (v, off_Within arg 0 max_max_response_size n (omega arith) e)

  set_max_concurrent_requests-IsValid :
      (arg : Bytes) → IsValid (set_max_concurrent_requests c (some arg)).0
  unfolding set_max_concurrent_requests
  set_max_concurrent_requests-IsValid arg =
      stored-IsValid (parse_nonneg_int (some arg) 0 max_max_concurrent_requests)
        (λ x. record c { max_concurrent_requests = x })
        λ n e. assumption (v, int_Within arg 0 max_max_concurrent_requests n e)

  set_max_workers-IsValid : (arg : Bytes) → IsValid (set_max_workers c (some arg)).0
  unfolding set_max_workers
  set_max_workers-IsValid arg =
      stored-IsValid (parse_nonneg_int (some arg) 0 max_max_workers)
        (λ x. record c { max_workers = x })
        λ n e. assumption (v, int_Within arg 0 max_max_workers n e)

  set_cache_size-IsValid : (arg : Bytes) → IsValid (set_cache_size c (some arg)).0
  unfolding set_cache_size
  set_cache_size-IsValid arg =
      stored-IsValid (parse_nonneg_int (some arg) 1 max_cache_size)
        (λ x. record c { cache_size = x })
        λ n e. assumption (v, (int_Within arg 1 max_cache_size n e).1)

  set_cache_ttl-IsValid : (arg : Bytes) → IsValid (set_cache_ttl c (some arg)).0
  unfolding set_cache_ttl
  set_cache_ttl-IsValid arg =
      stored-IsValid (parse_nonneg_int (some arg) 0 max_cache_ttl_seconds)
        (λ x. record c { cache_ttl = x })
        λ n e. assumption (v, int_Within arg 0 max_cache_ttl_seconds n e)

  set_cache_redis_db-IsValid : (arg : Bytes) → IsValid (set_cache_redis_db c (some arg)).0
  unfolding set_cache_redis_db
  set_cache_redis_db-IsValid arg =
      stored-IsValid (parse_nonneg_int (some arg) 0 max_redis_db)
        (λ x. record c { cache_redis_db = x })
        λ n e. assumption (v, int_Within arg 0 max_redis_db n e)

  -- A word directive stores one of its words or nothing.
  stores_on_oversize : (z : ℤ) → Within 0 1 z → Keeps (accept (record c { on_oversize = z }))
  stores_on_oversize z h = kept (assumption (v, h))

  set_on_oversize-Keeps : (arg : Bytes) → Keeps (set_on_oversize c arg)
  unfolding set_on_oversize
  set_on_oversize-Keeps arg =
      outcome_if (eq_ignore_case arg (codes "pass"))
        (stores_on_oversize (pos 0) (flag-Within false))
        (outcome_if (eq_ignore_case arg (codes "error"))
          (stores_on_oversize (pos 1) (flag-Within true)) (kept {o = refuse c oversize_unknown} v))

  stores_backend :
      (s : Bytes) → IsBackend (some s) → Keeps (accept (record c { cache_backend = some s }))
  stores_backend s h = kept (assumption (v, h))

  set_cache_backend-Keeps : (arg : Bytes) → Keeps (set_cache_backend c (some arg))
  unfolding set_cache_backend
  set_cache_backend-Keeps arg = outcome_if _ (stores_backend _ (inl refl)) (
      outcome_if _ (stores_backend _ (inr (inl refl))) (
        outcome_if _ (stores_backend _ (inr (inr (inl refl))))
          (outcome_if _ (stores_backend _ (inr (inr (inr refl)))) (kept v))))

  set_cache_redis_password-IsValid :
      (arg : Bytes) → IsValid (set_cache_redis_password c (some arg)).0
  unfolding set_cache_redis_password
  set_cache_redis_password-IsValid arg = elim (Bool-cases (any_byte is_control arg)) [
    | inl e ↦ rw e v
    | inr e ↦ rw e (assumption (v, NoneOf-any_byte is_control arg e))
  ]

  stores_marker : (s : Bytes) → Keeps (accept (record c { include_error_marker = some s }))
  stores_marker s = kept (assumption v)

  set_include_error_marker-Keeps :
      (getword : Bytes → Bytes × Bytes) (arg : Bytes)
      → Keeps (set_include_error_marker getword c (some arg))
  unfolding set_include_error_marker
  set_include_error_marker-Keeps getword arg =
      let p = drop_while is_space arg in
      let (marker, rest) = getword p in
      outcome_if (null p) (kept {o = refuse c marker_missing} v)
        (outcome_if (not (null rest)) (kept {o = refuse c marker_extra} v) (stores_marker marker))

module _ (getword : Bytes → Bytes × Bytes) where
  -- Accepted or refused, a directive leaves a valid configuration valid.
  pub apply-IsValid : {c : Config} (d : Directive) → IsValid c → IsValid (apply getword c d).0
  unfolding apply
  apply-IsValid (enable_mesi on) v = (flags-IsValid v on).0
  apply-IsValid (block_private_ips on) v = (flags-IsValid v on).1
  apply-IsValid (allow_private_ips_for_allowed_hosts on) v = (flags-IsValid v on).2
  apply-IsValid (shared_http_client on) v = (flags-IsValid v on).3
  apply-IsValid (debug on) v = (flags-IsValid v on).4
  apply-IsValid (parse_on_header on) v = (flags-IsValid v on).5
  apply-IsValid (max_depth arg) v = set_max_depth-IsValid v arg
  apply-IsValid (timeout arg) v = set_timeout-IsValid v arg
  apply-IsValid (max_response_size arg) v = set_max_response_size-IsValid v arg
  apply-IsValid (max_body_size arg) v = set_max_body_size-IsValid v arg
  apply-IsValid (max_concurrent_requests arg) v = set_max_concurrent_requests-IsValid v arg
  apply-IsValid (max_workers arg) v = set_max_workers-IsValid v arg
  apply-IsValid (cache_size arg) v = set_cache_size-IsValid v arg
  apply-IsValid (cache_ttl arg) v = set_cache_ttl-IsValid v arg
  apply-IsValid (cache_redis_db arg) v = set_cache_redis_db-IsValid v arg
  apply-IsValid (cache_redis_password arg) v = set_cache_redis_password-IsValid v arg
  apply-IsValid (allowed_hosts arg) v = set_allowed_hosts-IsValid v arg
  apply-IsValid (cache_memcached_servers arg) v = set_cache_memcached_servers-IsValid v arg
  apply-IsValid (cache_redis_addr arg) v = set_cache_redis_addr-IsValid v arg
  apply-IsValid (cache_key_template arg) v = set_cache_key_template-IsValid v arg
  apply-IsValid (on_oversize arg) v = (set_on_oversize-Keeps v arg).valid
  apply-IsValid (cache_backend arg) v = (set_cache_backend-Keeps v arg).valid
  apply-IsValid (include_error_marker arg) v = (set_include_error_marker-Keeps v getword arg).valid

  pub load-IsValid : (ds : List Directive) {c : Config} → IsValid c → IsValid (load getword c ds).0
  unfolding load
  load-IsValid [] v = v
  load-IsValid (d ∷ ds) {c} v = elim (Option-cases (apply getword c d).1) [
    | inl e ↦ rw (e, load) (load-IsValid ds (apply-IsValid d v))
    | inr (why, e) ↦ rw (e, load) (apply-IsValid d v)
  ]

  -- Every configuration that a server can run with is valid: blocks of directives from a fresh
  -- configuration, merged in any nesting.
  pub Loaded-IsValid : {c : Config} → Loaded getword c → IsValid c
  Loaded-IsValid (block {c} ds e) = rw e at (load-IsValid ds create-IsValid)
  Loaded-IsValid (nested a b) = merge-IsValid (Loaded-IsValid a) (Loaded-IsValid b)
