-- ===== src/Php/Hosts/Agree.antt =====
-- The test for a host is the one that Go's strings.Fields makes.
use go_mesi.Base.{
  ℕ, zero, suc, true, false, not, [], ◌∷◌, Bytes, ◌==◌, null, NoneOf, is_control, ◌≡◌, refl, ◌∙◌,
  arith, Bool-cases, inl, inr,
}
use go_mesi.Apache.Hosts.{is_space, unicode_space, token_from, has_hostname_token}
use go_mesi.Apache.Hosts.Fields.{fields, has_hostname_token-fields}
use go_mesi.Php.Hosts.{
  mesi_unicode_ws_len, starts_space, has_token_from, mesi_allowed_hosts_has_token,
}

ws_len-Apache : (s : Bytes) → mesi_unicode_ws_len s ≡ unicode_space s
unfolding mesi_unicode_ws_len unicode_space
ws_len-Apache [] = refl
ws_len-Apache (a ∷ []) = ground arith
ws_len-Apache (a ∷ b ∷ []) = ground arith
ws_len-Apache (a ∷ b ∷ c ∷ s) = refl

starts-nothing : (c : ℕ) (s : Bytes) → starts_space c ≡ false → unicode_space (c ∷ s) ≡ 0
unfolding unicode_space
starts-nothing c [] h = refl
starts-nothing c (b ∷ []) h = ground arith
starts-nothing c (b ∷ d ∷ s) h = ground arith

blank : (c : ℕ) → is_control c ≡ false → is_space c ≡ (c == b' ')
blank c h = ground arith

after_rune :
    (w : ℕ) (s : Bytes)
    → ((k : ℕ) → has_token_from k s ≡ token_from k s)
    → (elim w [ zero ↦ true | suc k ↦ has_token_from k s ])
      ≡ (elim w [ zero ↦ true | suc k ↦ token_from k s ])
after_rune zero s h = refl
after_rune (suc k) s h = h k

token_from-Apache : (k : ℕ) (s : Bytes) → NoneOf is_control s → has_token_from k s ≡ token_from k s
unfolding has_token_from token_from
token_from-Apache k [] h = refl
token_from-Apache (suc k) (c ∷ s) (h, hs) = token_from-Apache k s hs
token_from-Apache zero (c ∷ s) (h, hs) = elim (Bool-cases (c == b' ')) [
  | inl e ↦ rw (blank c h, e, has_token_from, token_from) (token_from-Apache 0 s hs)
  | inr e ↦ elim (Bool-cases (starts_space c)) [
    | inl f ↦
        rw (blank c h, e, f, ws_len-Apache (c ∷ s), has_token_from, token_from)
          (after_rune (unicode_space (c ∷ s)) s (λ k. token_from-Apache k s hs))
    | inr f ↦ rw (blank c h, e, f, starts-nothing c s f, has_token_from, token_from) refl
  ]
]

-- For a value without control characters, which parse_with_config has refused before, the test says
-- yes exactly if strings.Fields of Go, by which libgomesi reads the list, gives a field; so no value
-- of white space alone passes as an empty allowlist.
pub has_token-fields :
    (s : Bytes) → NoneOf is_control s → mesi_allowed_hosts_has_token s ≡ not (null (fields s))
unfolding mesi_allowed_hosts_has_token has_hostname_token
has_token-fields s h = token_from-Apache 0 s h ∙ has_hostname_token-fields s
