-- ===== src/Nginx/Config/Merge.antt =====
-- A merge of valid configurations that nginx accepts leaves a valid one.
use go_mesi.Base.{
  ℕ, zero, suc, ◌≤◌, Bool, true, false, not, [], ◌∷◌, Option, none, some, Bytes, ltb, ◌==◌, ℤ, pos,
  negsuc, is_set, is_some, null, length, is_control, NoneOf, ◌≡◌, ◌⊎◌, inl, inr, refl, sym, ap, ◌∙◌,
  arith, Bool-cases,
}
use mathlib.Core.Path.{subst}
use mathlib.Core.Bool.{true≢false}
use go_mesi.Apache.Config.Valid.{Within, UpTo, unsafe_template}
use go_mesi.Apache.Hosts.{is_space, unicode_space, token_from, has_hostname_token}
use go_mesi.Apache.Hosts.Fields.{fields, has_hostname_token-fields}
use go_mesi.Nginx.Config.{
  LocConf, Outcome, Refusal, merged, template_byte, template_refusal, only_spaces, hosts_refusal,
  merge_loc_conf, Macros, unset_uint, on_oversize_pass, on_oversize_error, max_cache_key_template,
}
use go_mesi.Nginx.Config.Valid.{IsValid, Text, Template, Allowlist, IsMerged, Documented}

rune-token :
    (s : Bytes) (w : ℕ)
    → ((k : ℕ) → only_spaces k s ≡ not (token_from k s))
    → (elim w [ zero ↦ false | suc k ↦ only_spaces k s ])
      ≡ not (elim w [ zero ↦ true | suc k ↦ token_from k s ])
rune-token s zero h = refl
rune-token s (suc k) h = h k

-- The end of the scan is reached exactly if there is no hostname.
only_spaces-token : (k : ℕ) (s : Bytes) → only_spaces k s ≡ not (token_from k s)
unfolding only_spaces token_from
only_spaces-token k [] = refl
only_spaces-token (suc k) (c ∷ s) = only_spaces-token k s
only_spaces-token zero (c ∷ s) = elim (Bool-cases (is_space c)) [
  | inl e ↦ rw (e, only_spaces, token_from) (only_spaces-token 0 s)
  | inr e ↦
      rw (e, only_spaces, token_from)
        (rune-token s (unicode_space (c ∷ s)) (λ k. only_spaces-token k s))
]

UpTo-set : (hi : ℕ) (v : ℤ) → Within 0 hi v → is_set v ≡ true → UpTo hi v
UpTo-set hi (pos n) h e = h.1
UpTo-set hi (negsuc n) h e = absurd (ground arith)

-- A text with no refused byte, and what the two tests of the merge leave.
template_byte-NoneOf : (s : Bytes) → template_byte s ≡ none → NoneOf unsafe_template s
unfolding template_byte
template_byte-NoneOf [] h = tt
template_byte-NoneOf (c ∷ s) h = elim (Bool-cases (is_control c)) [
  | inl e ↦ absurd (ground arith)
  | inr e ↦ elim (Bool-cases (c == 0x7f)) [
    | inl f ↦ absurd (ground arith)
    | inr f ↦ (ground arith, template_byte-NoneOf s (rw (e, f) at h))
  ]
]

template_refusal-Template :
    (t : Option Bytes) → is_some t ≡ true → template_refusal t ≡ none → Text Template t
unfolding template_refusal
template_refusal-Template none e h = absurd (true≢false (sym e))
template_refusal-Template (some []) e h = (tt, omega arith)
template_refusal-Template (some (c ∷ s)) e h =
    elim (Bool-cases (ltb max_cache_key_template (length (c ∷ s)))) [
      | inl f ↦ absurd (ground arith)
      | inr f ↦ (template_byte-NoneOf (c ∷ s) (rw f at h), ground arith)
    ]

not-not : (b : Bool) → not (not b) ≡ b
not-not true = refl
not-not false = refl

token-fields : (s : Bytes) → token_from 0 s ≡ not (null (fields s))
unfolding has_hostname_token
token-fields s = has_hostname_token-fields s

hosts-Allowlist : (t : Option Bytes) → is_some t ≡ true → hosts_refusal t ≡ none → Text Allowlist t
unfolding hosts_refusal
hosts-Allowlist none e h = absurd (true≢false (sym e))
hosts-Allowlist (some []) e h = inl refl
hosts-Allowlist (some (c ∷ s)) e h = elim (Bool-cases (only_spaces 0 (c ∷ s))) [
  | inl f ↦ (let g = rw f at h in absurd cc)
  | inr f ↦ inr (λ g. true≢false (
      ap not (sym f ∙ only_spaces-token 0 (c ∷ s))
      ∙ not-not (token_from 0 (c ∷ s))
      ∙ token-fields (c ∷ s)
      ∙ ap (λ l. not (null l)) g))
]

module _ (nginx : Macros) (law : Documented nginx) where
  merge_value-Within :
      (lo hi : ℕ) (c p d : ℤ)
      → Within lo hi c
      → Within lo hi p
      → Within lo hi d
      → Within lo hi (nginx.merge_value c p d)
  merge_value-Within lo hi c p d hc hp hd = elim (Bool-cases (is_set c)) [
    | inl e ↦ rw (law.own c p d e) hc
    | inr e ↦ elim (Bool-cases (is_set p)) [
      | inl f ↦ rw (law.outer c p d e f) hp
      | inr f ↦ rw (law.default c p d e f) hd
    ]
  ]

  merge_value-UpTo :
      (hi : ℕ) (c p d : ℤ)
      → Within 0 hi c
      → Within 0 hi p
      → UpTo hi d
      → UpTo hi (nginx.merge_value c p d)
  merge_value-UpTo hi c p d hc hp hd = elim (Bool-cases (is_set c)) [
    | inl e ↦ rw (law.own c p d e) (UpTo-set hi c hc e)
    | inr e ↦ elim (Bool-cases (is_set p)) [
      | inl f ↦ rw (law.outer c p d e f) (UpTo-set hi p hp f)
      | inr f ↦ rw (law.default c p d e f) hd
    ]
  ]

  merge_str-some :
      (conf prev : Option Bytes) (default : Bytes)
      → is_some (nginx.merge_str_value conf prev default) ≡ true
  merge_str-some none none d = rw (law.str_default d) refl
  merge_str-some none (some p) d = rw (law.str_outer p d) refl
  merge_str-some (some c) prev d = rw (law.str_own c d prev) refl

  merge_uint-pass :
      (c p : ℕ)
      → (c ≡ unset_uint) ⊎ (c ≤ on_oversize_error)
      → (p ≡ unset_uint) ⊎ (p ≤ on_oversize_error)
      → nginx.merge_uint_value c p on_oversize_pass ≤ on_oversize_error
  merge_uint-pass c p (inr h) hp = rw (law.uint_own c p on_oversize_pass (λ e. omega arith)) h
  merge_uint-pass c p (inl e) (inr h) =
      rw (e, law.uint_outer p on_oversize_pass (λ f. omega arith)) h
  merge_uint-pass c p (inl e) (inl f) = rw (e, f, law.uint_default on_oversize_pass) (omega arith)

  merged-IsValid :
      (prev conf : LocConf) → IsValid prev → IsValid conf → IsValid (merged nginx prev conf)
  unfolding merged
  merged-IsValid prev conf p c = record {
    enable_mesi = merge_value-Within 0 1 _ _ _ c.enable_mesi p.enable_mesi (omega arith);
    max_depth = merge_value-Within 0 _ _ _ _ c.max_depth p.max_depth (omega arith);
    timeout_seconds = merge_value-Within 1 _ _ _ _ c.timeout_seconds p.timeout_seconds refl;
    max_response_size = merge_value-Within 0 _ _ _ _ c.max_response_size p.max_response_size refl;
    max_concurrent_requests =
        merge_value-Within 0 _ _ _ _ c.max_concurrent_requests p.max_concurrent_requests refl;
    max_workers = merge_value-Within 0 _ _ _ _ c.max_workers p.max_workers refl;
    block_private_ips =
        merge_value-Within 0 1 _ _ _ c.block_private_ips p.block_private_ips (omega arith);
    allow_private_ips_for_allowed =
        merge_value-Within 0 1 _ _ _ c.allow_private_ips_for_allowed p.allow_private_ips_for_allowed
          (omega arith);
    max_body_size = merge_value-Within 0 _ _ _ _ c.max_body_size p.max_body_size (omega arith);
    on_oversize = inr (merge_uint-pass _ _ c.on_oversize p.on_oversize);
    debug = merge_value-Within 0 1 _ _ _ c.debug p.debug refl;
    parse_on_header = merge_value-Within 0 1 _ _ _ c.parse_on_header p.parse_on_header refl;
  }

  merged-IsMerged :
      (prev conf : LocConf)
      → IsValid prev
      → IsValid conf
      → template_refusal (merged nginx prev conf).cache_key_template ≡ none
      → hosts_refusal (merged nginx prev conf).allowed_hosts ≡ none
      → IsMerged (merged nginx prev conf)
  unfolding merged
  merged-IsMerged prev conf p c t h = record {
    numbers = merged-IsValid prev conf p c;
    enable_mesi = merge_value-UpTo 1 _ _ _ c.enable_mesi p.enable_mesi (omega arith);
    max_depth = merge_value-UpTo _ _ _ _ c.max_depth p.max_depth (omega arith);
    max_body_size = merge_value-UpTo _ _ _ _ c.max_body_size p.max_body_size (omega arith);
    block_private_ips =
        merge_value-UpTo 1 _ _ _ c.block_private_ips p.block_private_ips (omega arith);
    allow_private_ips_for_allowed =
        merge_value-UpTo 1 _ _ _ c.allow_private_ips_for_allowed p.allow_private_ips_for_allowed
          (omega arith);
    on_oversize = merge_uint-pass _ _ c.on_oversize p.on_oversize;
    cache_key_template =
        template_refusal-Template _
          (merge_str-some conf.cache_key_template prev.cache_key_template []) t;
    allowed_hosts = hosts-Allowlist _ (merge_str-some conf.allowed_hosts prev.allowed_hosts []) h;
  }

-- The outcome, by what the test of the template says.
outcome-IsMerged :
    (m c : LocConf) (t : Option Refusal)
    → (t ≡ none → hosts_refusal m.allowed_hosts ≡ none → IsMerged m)
    → ◌≡◌ {A = Outcome}
        (elim t as (λ x. Outcome) [
          | some why ↦ (m, some why)
          | none ↦ (m, hosts_refusal m.allowed_hosts)
        ])
        (c, none)
    → IsMerged c
outcome-IsMerged m c none valid h =
    subst IsMerged (ap (λ (o : Outcome). o.0) h) (valid refl (ap (λ (o : Outcome). o.1) h))
outcome-IsMerged m c (some why) valid h =
    let wrong : some why ≡ none = ap (λ (o : Outcome). o.1) h in absurd cc

-- With macros that merge as nginx documents: if the numbers of a location and of the one around it
-- are unset or in their ranges, a merge that nginx accepts leaves each number unset or in its range
-- (so debug and parse_on_header may stay unset); enable_mesi, the depth, the body limit, the policy
-- for a page over it and the two flags on private addresses set and in their ranges; a template
-- without control characters of at most 4096 bytes; and an allowlist that is empty or has a hostname
-- as strings.Fields splits it.
pub merge_loc_conf-IsMerged :
    (nginx : Macros) (prev conf c : LocConf)
    → Documented nginx
    → IsValid prev
    → IsValid conf
    → merge_loc_conf nginx prev conf ≡ (c, none)
    → IsMerged c
unfolding merge_loc_conf
merge_loc_conf-IsMerged nginx prev conf c law p v h =
    outcome-IsMerged (merged nginx prev conf) c
      (template_refusal (merged nginx prev conf).cache_key_template)
      (merged-IsMerged nginx law prev conf p v) h
