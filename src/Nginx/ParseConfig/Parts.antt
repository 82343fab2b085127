-- ===== src/Nginx/ParseConfig/Parts.antt =====
-- Each part of the configuration is measured exactly, and is the part that the Apache module writes.
use go_mesi.Base.{
  ℕ, ◌+◌, ◌≤◌, Bool, true, false, [], ◌∷◌, ◌++◌, Option, none, some, Bytes, codes, ◌==◌, ℤ, pos,
  negsuc, is_set, is_true, is_some, if◌then◌else◌, or_else, length, length-append, ◌≡◌, ◌≢◌, refl,
  ap, arith, Bool-cases, inl, inr,
}
use go_mesi.Json.Number.{show_nat, show_int}
use go_mesi.Apache.Config.{non_empty}
use go_mesi.Apache.Config.Valid.{Within}
use go_mesi.Apache.ParseConfig.{ParseJsonConfig, mesi_build_parse_json_config}
use go_mesi.Apache.ParseConfig
use go_mesi.Nginx.Config.{LocConf, max_max_response_size}
use go_mesi.Nginx.Render.{
  mesi_json_append_str, mesi_json_uint_len, mesi_json_off_len, mesi_json_write_uint,
  mesi_json_write_off,
}
use go_mesi.Nginx.Render.Exact.{mesi_json_append_str-json_string, mesi_json_write_uint-show_nat}
use go_mesi.Nginx.ParseConfig.{
  flag_text, flag_len, uint_size, uint_part, off_size, off_part, flag_size, flag_part, text_size,
  text_part, has_ctx,
}

-- The numbers that are rendered.
abbrev pub Renders : ℤ → Type 0
Renders v = Within 0 max_max_response_size v

-- The numbers of a location that are rendered where they are set.
pub record Numbers (lcf : LocConf) : Type 0 where
  pub timeout_seconds : Renders lcf.timeout_seconds
  pub max_response_size : Renders lcf.max_response_size
  pub max_concurrent_requests : Renders lcf.max_concurrent_requests
  pub max_workers : Renders lcf.max_workers

pub number_same :
    (n : ℕ)
    → n ≤ max_max_response_size
    → (mesi_json_write_uint n ≡ show_nat n)
      × (length (mesi_json_write_uint n) ≡ mesi_json_uint_len n)
number_same n h = let (s, l, _) = mesi_json_write_uint-show_nat n (omega arith) in (s, l)

pub uint-Apache :
    (prefix : Bytes) (v : ℤ)
    → Renders v
    → (uint_part prefix v ≡ ParseConfig.int_part prefix v)
      × (length (uint_part prefix v) ≡ uint_size prefix v)
unfolding ParseConfig.int_part show_int
uint-Apache prefix (pos n) h =
    let (same, len) = number_same n h.1 in
    (rw same refl, omega (arith, length-append prefix (mesi_json_write_uint n), len))
uint-Apache prefix (negsuc n) h =
    let none_set : (n == 0) ≡ true = ground arith in rw none_set (refl, refl)

pub off-Apache :
    (prefix : Bytes) (v : ℤ)
    → Renders v
    → (off_part prefix v ≡ ParseConfig.int_part prefix v)
      × (length (off_part prefix v) ≡ off_size prefix v)
unfolding mesi_json_write_off mesi_json_off_len mesi_json_write_uint mesi_json_uint_len
off-Apache prefix v h = uint-Apache prefix v h

pub length-flag_text : (v : ℤ) → length (flag_text v) ≡ flag_len v
length-flag_text v = elim (Bool-cases (is_true v)) [ inl e ↦ rw e refl | inr e ↦ rw e refl ]

pub flag-Apache :
    (prefix : Bytes) (v : ℤ)
    → (flag_part prefix v ≡ ParseConfig.flag_part prefix v)
      × (length (flag_part prefix v) ≡ flag_size prefix v)
unfolding ParseConfig.flag_part
flag-Apache prefix v = (
  refl,
  elim (Bool-cases (is_set v)) [
    | inl e ↦ rw e (omega (arith, length-append prefix (flag_text v), length-flag_text v))
    | inr e ↦ rw e refl
  ],
)

pub length-text_part :
    (has : Bool) (prefix : Bytes) (s : Option Bytes)
    → length (text_part has prefix s) ≡ text_size has prefix s
length-text_part false prefix s = refl
length-text_part true prefix s = omega (
  arith,
  length-append prefix (mesi_json_append_str (or_else s [])),
  (mesi_json_append_str-json_string (or_else s [])).1,
)

pub text-Apache :
    (prefix : Bytes) (s : Option Bytes)
    → text_part (non_empty s) prefix s ≡ ParseConfig.text_part prefix s
unfolding ParseConfig.text_part
text-Apache prefix none = refl
text-Apache prefix (some []) = refl
text-Apache prefix (some (c ∷ s)) =
    ap (λ t. prefix ++ t) (mesi_json_append_str-json_string (c ∷ s)).0

-- A marker that is not the empty one is rendered by both modules, or by none.
pub marker-Apache :
    (prefix : Bytes) (s : Option Bytes)
    → s ≢ some []
    → text_part (is_some s) prefix s ≡ ParseConfig.text_part prefix s
marker-Apache prefix none h = text-Apache prefix none
marker-Apache prefix (some []) h = absurd (h refl)
marker-Apache prefix (some (c ∷ s)) h = text-Apache prefix (some (c ∷ s))

-- The settings of a request as the Apache module collects them.
abbrev pub settings : LocConf → ℕ → Bytes → Bytes → Bytes → ParseJsonConfig
settings lcf depth base_url allowed_hosts ctx_json = record {
  depth = pos depth;
  base_url = some base_url;
  allowed_hosts = some allowed_hosts;
  block_private_ips = lcf.block_private_ips;
  allow_private_for_allowed = lcf.allow_private_ips_for_allowed;
  request_ctx_json = some ctx_json;
  timeout_seconds = lcf.timeout_seconds;
  max_response_size = lcf.max_response_size;
  max_concurrent_requests = lcf.max_concurrent_requests;
  max_workers = lcf.max_workers;
  debug = lcf.debug;
  parse_on_header = lcf.parse_on_header;
  include_error_marker = lcf.include_error_marker;
  cache_key_template = lcf.cache_key_template;
}

pub ctx-Apache :
    (lcf : LocConf) (depth : ℕ) (u h ctx : Bytes)
    → (if has_ctx lcf (some ctx) then codes ",\"requestCtx\":" ++ ctx else [])
      ≡ ParseConfig.ctx_part (settings lcf depth u h ctx)
unfolding ParseConfig.ctx_part
ctx-Apache lcf depth u h ctx = elim (Bool-cases (non_empty lcf.cache_key_template)) [
  | inl e ↦ rw e refl
  | inr e ↦ rw e refl
]

-- The length of a measured text and of what follows it.
pub then_length : (p t : Bytes) {n : ℕ} → length p ≡ n → length (p ++ t) ≡ n + length t
then_length p t e = omega (arith, length-append p t, e)

pub Within-Renders : (lo hi : ℕ) (v : ℤ) → hi ≤ max_max_response_size → Within lo hi v → Renders v
Within-Renders lo hi (pos n) le (a, b) = (omega arith, omega arith)
Within-Renders lo hi (negsuc n) le e = e

pub length-context :
    (has : Bool) (ctx : Bytes)
    → length (if has then codes ",\"requestCtx\":" ++ ctx else [])
      ≡ (if has then length (codes ",\"requestCtx\":") + length ctx else 0)
length-context true ctx = omega arith
length-context false ctx = refl
