-- ===== src/Apache/Config/Merge.antt =====
-- Nested configurations: the merge is a monoid on valid configurations, and it keeps them valid.
use go_mesi.Base.{
  ℕ, Bool, true, false, List, [], ◌∷◌, Option, none, some, Bytes, ℤ, pos, negsuc, inl, inr, unset,
  is_nonneg, is_pos, is_true, if◌then◌else◌, ◌≡◌, refl, arith, All, NoneOf, is_control, Bool-cases,
}
use go_mesi.Apache.Config.{
  Config, create_server_config, merge_server_config, max_cache_size, max_cache_ttl_seconds,
  max_redis_db, max_max_depth, max_timeout_seconds, max_max_response_size,
  max_max_concurrent_requests, max_max_workers, pick_int, pick_ptr, pick_list, non_empty,
}
use go_mesi.Apache.Config.Valid.{
  Within, UpTo, OrNull, IsBackend, unsafe_addr, unsafe_entry, unsafe_host, Clean, Template, IsValid,
}

pick_int_assoc : (a b c : ℤ) → pick_int c (pick_int b a) ≡ pick_int (pick_int c b) a
pick_int_assoc a b c = ground arith

pick_ptr_assoc : (a b c : Option Bytes) → pick_ptr c (pick_ptr b a) ≡ pick_ptr (pick_ptr c b) a
pick_ptr_assoc a b none = refl
pick_ptr_assoc a b (some c) = refl

pick_list_assoc : (a b c : List Bytes) → pick_list c (pick_list b a) ≡ pick_list (pick_list c b) a
pick_list_assoc a b [] = refl
pick_list_assoc a b (c ∷ cs) = refl

-- A choice by a test of the inner value.
choice_assoc {ℓ} :
    {A : Type ℓ} (test : A → Bool) (a b c : A)
    → (if test c then c else (if test b then b else a))
      ≡ (if test (if test c then c else b) then (if test c then c else b) else a)
choice_assoc test a b c = elim (Bool-cases (test c)) [
  | inl h ↦ rw h (rw h refl)
  | inr h ↦ rw h refl
]

-- The merge groups as it likes: a chain of configurations has one meaning.
pub merge_assoc :
    (a b c : Config)
    → merge_server_config (merge_server_config a b) c
      ≡ merge_server_config a (merge_server_config b c)
unfolding merge_server_config
merge_assoc a b c = λ i. record {
  enable_mesi = choice_assoc is_true a.enable_mesi b.enable_mesi c.enable_mesi i;
  allowed_hosts = pick_list_assoc a.allowed_hosts b.allowed_hosts c.allowed_hosts i;
  block_private_ips = pick_int_assoc a.block_private_ips b.block_private_ips c.block_private_ips i;
  allow_private_ips_for_allowed =
      pick_int_assoc a.allow_private_ips_for_allowed b.allow_private_ips_for_allowed
        c.allow_private_ips_for_allowed i;
  shared_http_client =
      pick_int_assoc a.shared_http_client b.shared_http_client c.shared_http_client i;
  cache_backend = choice_assoc non_empty a.cache_backend b.cache_backend c.cache_backend i;
  cache_size = choice_assoc is_pos a.cache_size b.cache_size c.cache_size i;
  cache_ttl = choice_assoc is_nonneg a.cache_ttl b.cache_ttl c.cache_ttl i;
  cache_redis_addr = pick_ptr_assoc a.cache_redis_addr b.cache_redis_addr c.cache_redis_addr i;
  cache_redis_password =
      pick_ptr_assoc a.cache_redis_password b.cache_redis_password c.cache_redis_password i;
  cache_redis_db = choice_assoc is_nonneg a.cache_redis_db b.cache_redis_db c.cache_redis_db i;
  cache_memcached_servers =
      pick_list_assoc a.cache_memcached_servers b.cache_memcached_servers c.cache_memcached_servers
        i;
  cache_key_template =
      pick_ptr_assoc a.cache_key_template b.cache_key_template c.cache_key_template i;
  max_depth = pick_int_assoc a.max_depth b.max_depth c.max_depth i;
  timeout_seconds = pick_int_assoc a.timeout_seconds b.timeout_seconds c.timeout_seconds i;
  max_response_size = pick_int_assoc a.max_response_size b.max_response_size c.max_response_size i;
  max_body_size = pick_int_assoc a.max_body_size b.max_body_size c.max_body_size i;
  on_oversize = pick_int_assoc a.on_oversize b.on_oversize c.on_oversize i;
  max_concurrent_requests =
      pick_int_assoc a.max_concurrent_requests b.max_concurrent_requests c.max_concurrent_requests
        i;
  max_workers = pick_int_assoc a.max_workers b.max_workers c.max_workers i;
  debug = pick_int_assoc a.debug b.debug c.debug i;
  parse_on_header = pick_int_assoc a.parse_on_header b.parse_on_header c.parse_on_header i;
  include_error_marker =
      pick_ptr_assoc a.include_error_marker b.include_error_marker c.include_error_marker i;
}

-- A block without directives leaves what it is merged into as it was.
pub merge-create : (a : Config) → merge_server_config a create_server_config ≡ a
unfolding merge_server_config create_server_config
merge-create a = refl

-- What holds of both values holds of the one that a test picks.
if_either {ℓ κ} :
    {A : Type ℓ} (P : A → Type κ) (b : Bool) {x y : A} → P x → P y → P (if b then x else y)
if_either P true px py = px
if_either P false px py = py

-- A merge of valid configurations is valid.
pub merge-IsValid : {a b : Config} → IsValid a → IsValid b → IsValid (merge_server_config a b)
unfolding merge_server_config
merge-IsValid {a} {b} va vb = record {
  enable_mesi = if_either (UpTo 1) _ vb.enable_mesi va.enable_mesi;
  allowed_hosts = if_either (All (Clean unsafe_host)) _ vb.allowed_hosts va.allowed_hosts;
  block_private_ips = if_either (Within 0 1) _ vb.block_private_ips va.block_private_ips;
  allow_private_ips_for_allowed =
      if_either (Within 0 1) _ vb.allow_private_ips_for_allowed va.allow_private_ips_for_allowed;
  shared_http_client = if_either (Within 0 1) _ vb.shared_http_client va.shared_http_client;
  cache_backend = if_either (IsBackend) _ vb.cache_backend va.cache_backend;
  cache_size = if_either (UpTo max_cache_size) _ vb.cache_size va.cache_size;
  cache_ttl = if_either (Within 0 max_cache_ttl_seconds) _ vb.cache_ttl va.cache_ttl;
  cache_redis_addr =
      if_either (OrNull (Clean unsafe_addr)) _ vb.cache_redis_addr va.cache_redis_addr;
  cache_redis_password =
      if_either (OrNull (NoneOf is_control)) _ vb.cache_redis_password va.cache_redis_password;
  cache_redis_db = if_either (Within 0 max_redis_db) _ vb.cache_redis_db va.cache_redis_db;
  cache_memcached_servers =
      if_either (All (Clean unsafe_entry)) _ vb.cache_memcached_servers va.cache_memcached_servers;
  cache_key_template = if_either (OrNull Template) _ vb.cache_key_template va.cache_key_template;
  max_depth = if_either (Within 0 max_max_depth) _ vb.max_depth va.max_depth;
  timeout_seconds =
      if_either (Within 1 max_timeout_seconds) _ vb.timeout_seconds va.timeout_seconds;
  max_response_size =
      if_either (Within 0 max_max_response_size) _ vb.max_response_size va.max_response_size;
  max_body_size = if_either (Within 0 max_max_response_size) _ vb.max_body_size va.max_body_size;
  on_oversize = if_either (Within 0 1) _ vb.on_oversize va.on_oversize;
  max_concurrent_requests =
      if_either (Within 0 max_max_concurrent_requests) _ vb.max_concurrent_requests
        va.max_concurrent_requests;
  max_workers = if_either (Within 0 max_max_workers) _ vb.max_workers va.max_workers;
  debug = if_either (Within 0 1) _ vb.debug va.debug;
  parse_on_header = if_either (Within 0 1) _ vb.parse_on_header va.parse_on_header;
}

pick_int-unset : (v : ℤ) → pick_int v unset ≡ v
pick_int-unset v = ground arith

pick_ptr-none : (v : Option Bytes) → pick_ptr v none ≡ v
pick_ptr-none none = refl
pick_ptr-none (some s) = refl

pick_list-nil : (v : List Bytes) → pick_list v [] ≡ v
pick_list-nil [] = refl
pick_list-nil (s ∷ l) = refl

is_true-zero : (v : ℤ) → (if is_true v then v else pos 0) ≡ v
is_true-zero v = ground arith

is_pos-zero : (v : ℤ) (hi : ℕ) → UpTo hi v → (if is_pos v then v else pos 0) ≡ v
is_pos-zero (pos n) hi h = ground arith
is_pos-zero (negsuc n) hi h = absurd h

is_nonneg-unset : (v : ℤ) (hi : ℕ) → Within 0 hi v → (if is_nonneg v then v else unset) ≡ v
is_nonneg-unset (pos n) hi h = refl
is_nonneg-unset (negsuc n) hi h = ground arith

non_empty-nil : (v : Option Bytes) → IsBackend v → (if non_empty v then v else some []) ≡ v
non_empty-nil none h = absurd h
non_empty-nil (some []) h = refl
non_empty-nil (some (c ∷ s)) h = refl

-- A valid configuration merged into a fresh one is itself.
pub create-merge : {a : Config} → IsValid a → merge_server_config create_server_config a ≡ a
unfolding merge_server_config create_server_config
create-merge {a} v = λ i. record {
  enable_mesi = is_true-zero a.enable_mesi i;
  allowed_hosts = pick_list-nil a.allowed_hosts i;
  block_private_ips = pick_int-unset a.block_private_ips i;
  allow_private_ips_for_allowed = pick_int-unset a.allow_private_ips_for_allowed i;
  shared_http_client = pick_int-unset a.shared_http_client i;
  cache_backend = non_empty-nil a.cache_backend v.cache_backend i;
  cache_size = is_pos-zero a.cache_size max_cache_size v.cache_size i;
  cache_ttl = is_nonneg-unset a.cache_ttl max_cache_ttl_seconds v.cache_ttl i;
  cache_redis_addr = pick_ptr-none a.cache_redis_addr i;
  cache_redis_password = pick_ptr-none a.cache_redis_password i;
  cache_redis_db = is_nonneg-unset a.cache_redis_db max_redis_db v.cache_redis_db i;
  cache_memcached_servers = pick_list-nil a.cache_memcached_servers i;
  cache_key_template = pick_ptr-none a.cache_key_template i;
  max_depth = pick_int-unset a.max_depth i;
  timeout_seconds = pick_int-unset a.timeout_seconds i;
  max_response_size = pick_int-unset a.max_response_size i;
  max_body_size = pick_int-unset a.max_body_size i;
  on_oversize = pick_int-unset a.on_oversize i;
  max_concurrent_requests = pick_int-unset a.max_concurrent_requests i;
  max_workers = pick_int-unset a.max_workers i;
  debug = pick_int-unset a.debug i;
  parse_on_header = pick_int-unset a.parse_on_header i;
  include_error_marker = pick_ptr-none a.include_error_marker i;
}
