-- ===== src/Nginx/Config/Valid.antt =====
-- The values of a location's configuration: what the setters store, and what a merge leaves.
use go_mesi.Base.{
  ℕ, ℤ, true, false, is_set, ◌≤◌, [], Option, none, some, Bytes, length, NoneOf, ◌≡◌, ◌≢◌, ◌⊎◌, inl,
  refl,
}
use go_mesi.Apache.Config.Valid.{Within, UpTo, unsafe_template}
use go_mesi.Apache.Hosts.Fields.{fields}
use go_mesi.Nginx.Config.{
  LocConf, Macros, create_loc_conf, unset_uint, on_oversize_error, max_cache_key_template,
  max_max_depth, max_timeout_seconds, max_max_response_size, max_max_concurrent_requests,
  max_max_workers,
}

-- Every number is unset or in its range.
pub record IsValid (c : LocConf) : Type 0 where
  pub enable_mesi : Within 0 1 c.enable_mesi
  pub max_depth : Within 0 max_max_depth c.max_depth
  pub timeout_seconds : Within 1 max_timeout_seconds c.timeout_seconds
  pub max_response_size : Within 0 max_max_response_size c.max_response_size
  pub max_concurrent_requests : Within 0 max_max_concurrent_requests c.max_concurrent_requests
  pub max_workers : Within 0 max_max_workers c.max_workers
  pub block_private_ips : Within 0 1 c.block_private_ips
  pub allow_private_ips_for_allowed : Within 0 1 c.allow_private_ips_for_allowed
  pub max_body_size : Within 0 max_max_response_size c.max_body_size
  pub on_oversize : (c.on_oversize ≡ unset_uint) ⊎ (c.on_oversize ≤ on_oversize_error)
  pub debug : Within 0 1 c.debug
  pub parse_on_header : Within 0 1 c.parse_on_header

-- A text that is not NULL, with a property.
abbrev pub Text : (Bytes → Type 0) → Option Bytes → Type 0
Text P none = ⊥
Text P (some s) = P s

abbrev pub Template : Bytes → Type 0
Template s = NoneOf unsafe_template s × (length s ≤ max_cache_key_template)

-- No restriction, or one with a hostname.
abbrev pub Allowlist : Bytes → Type 0
Allowlist s = (s ≡ []) ⊎ (fields s ≢ [])

-- What requests work with: the values that the merge gives a default are set, and the two texts that
-- it tests are in order. The other values, debug and parse_on_header among them, may stay unset.
pub record IsMerged (c : LocConf) : Type 0 where
  pub numbers : IsValid c
  pub enable_mesi : UpTo 1 c.enable_mesi
  pub max_depth : UpTo max_max_depth c.max_depth
  pub max_body_size : UpTo max_max_response_size c.max_body_size
  pub block_private_ips : UpTo 1 c.block_private_ips
  pub allow_private_ips_for_allowed : UpTo 1 c.allow_private_ips_for_allowed
  pub on_oversize : c.on_oversize ≤ on_oversize_error
  pub cache_key_template : Text Template c.cache_key_template
  pub allowed_hosts : Text Allowlist c.allowed_hosts

pub create-IsValid : IsValid create_loc_conf
unfolding create_loc_conf
create-IsValid = record {
  enable_mesi = refl;
  max_depth = refl;
  timeout_seconds = refl;
  max_response_size = refl;
  max_concurrent_requests = refl;
  max_workers = refl;
  block_private_ips = refl;
  allow_private_ips_for_allowed = refl;
  max_body_size = refl;
  on_oversize = inl refl;
  debug = refl;
  parse_on_header = refl;
}

-- What nginx documents of its macros: the value of the location if it is set, else that of the outer
-- one if it is set, else the default.
pub record Documented (nginx : Macros) : Type 0 where
  pub own : (c p d : ℤ) → is_set c ≡ true → nginx.merge_value c p d ≡ c
  pub outer : (c p d : ℤ) → is_set c ≡ false → is_set p ≡ true → nginx.merge_value c p d ≡ p
  pub default : (c p d : ℤ) → is_set c ≡ false → is_set p ≡ false → nginx.merge_value c p d ≡ d
  pub uint_own : (c p d : ℕ) → c ≢ unset_uint → nginx.merge_uint_value c p d ≡ c
  pub uint_outer : (p d : ℕ) → p ≢ unset_uint → nginx.merge_uint_value unset_uint p d ≡ p
  pub uint_default : (d : ℕ) → nginx.merge_uint_value unset_uint unset_uint d ≡ d
  pub str_own : (c d : Bytes) (p : Option Bytes) → nginx.merge_str_value (some c) p d ≡ some c
  pub str_outer : (p d : Bytes) → nginx.merge_str_value none (some p) d ≡ some p
  pub str_default : (d : Bytes) → nginx.merge_str_value none none d ≡ some d
