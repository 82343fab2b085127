-- ===== src/Php/CacheState/Again.antt =====
-- A cache that was initialised once is not initialised again with the same settings.
use go_mesi.Base.{
  ℕ, zero, suc, ◌≤◌, ◌-◌, Bool, true, false, ◌&&◌, [], ◌∷◌, Bytes, ℤ, pos, negsuc, null, take,
  length, bytes_eq, bytes_eq_iff, ◌≡◌, ◌↔◌, refl, sym, ap, ◌∙◌, arith, Bool-cases, if-elim, inl,
  inr,
}
use mathlib.Core.Path.{subst}
use mathlib.Core.Bool.{true≢false}
use go_mesi.Php.CacheState.{
  CacheState, backend_max, cfg_max, same_long, mesi_cache_state_matches, mesi_cache_state_record,
  Initialized, init_cache,
}

same_long_iff : (a b : ℤ) → (same_long a b ≡ true) ↔ (a ≡ b)
same_long_iff (pos n) (pos m) = ground arith
same_long_iff (negsuc n) (negsuc m) = ground arith
same_long_iff (pos n) (negsuc m) = ((λ e. absurd (true≢false (sym e))), (λ e. absurd cc))
same_long_iff (negsuc n) (pos m) = ((λ e. absurd (true≢false (sym e))), (λ e. absurd cc))

and3 : (a b c : Bool) → (a && b && c) ≡ true → (a ≡ true) × (b ≡ true) × (c ≡ true)
and3 a b c h = ground arith

and4 : (a b c d : Bool) → (a && b && c && d) ≡ true → (a ≡ true) × ((b && c && d) ≡ true)
and4 a b c d h = ground arith

and2 : (a b : Bool) → (a && b) ≡ true → (a ≡ true) × (b ≡ true)
and2 a b h = ground arith

null-nil : (s : Bytes) → null s ≡ true → s ≡ []
null-nil [] h = refl
null-nil (c ∷ s) h = absurd (true≢false (sym h))

four :
    (g o : CacheState)
    → g.backend ≡ o.backend
    → (same_long g.size o.size && same_long g.ttl o.ttl && bytes_eq g.cfg_json o.cfg_json) ≡ true
    → g ≡ o
four g o b h =
    let (s, t, c) =
      and3 (same_long g.size o.size) (same_long g.ttl o.ttl) (bytes_eq g.cfg_json o.cfg_json) h in
    let size = (same_long_iff g.size o.size).0 s in
    let ttl = (same_long_iff g.ttl o.ttl).0 t in
    let cfg = (bytes_eq_iff g.cfg_json o.cfg_json).0 c in
    (λ i. record { backend = b i; size = size i; ttl = ttl i; cfg_json = cfg i })

matches-same : (g o : CacheState) → mesi_cache_state_matches g o ≡ true → g ≡ o
unfolding mesi_cache_state_matches
matches-same g o =
    if-elim (λ b. b ≡ true → g ≡ o) (null o.backend && null g.backend) _ _
      (λ n h.
        let (a, b) = and2 (null o.backend) (null g.backend) n in
        four g o (null-nil g.backend b ∙ sym (null-nil o.backend a)) h)
      (λ n h.
        let (b, rest) =
          and4 (bytes_eq g.backend o.backend) (same_long g.size o.size) (same_long g.ttl o.ttl)
            (bytes_eq g.cfg_json o.cfg_json) h in
        four g o ((bytes_eq_iff g.backend o.backend).0 b) rest)

matches_refl : (o : CacheState) → mesi_cache_state_matches o o ≡ true
unfolding mesi_cache_state_matches
matches_refl o =
    rw
      (
        (same_long_iff o.size o.size).1 refl,
        (same_long_iff o.ttl o.ttl).1 refl,
        (bytes_eq_iff o.cfg_json o.cfg_json).1 refl,
        (bytes_eq_iff o.backend o.backend).1 refl,
      )
      (if-elim (λ b. b ≡ true) (null o.backend && null o.backend) true true (λ _. refl) (λ _. refl))

take-all : (n : ℕ) (s : Bytes) → length s ≤ n → take n s ≡ s
take-all n [] h = none_left n
  where
    none_left : (n : ℕ) → take {A = ℕ} n [] ≡ []
    none_left zero = refl
    none_left (suc n) = refl
take-all zero (c ∷ s) h = absurd (omega arith)
take-all (suc n) (c ∷ s) h = ap (λ t. c ∷ t) (take-all n s (omega arith))

-- The texts fit their arrays.
pub record Fits (o : CacheState) : Type 0 where
  pub backend : length o.backend ≤ backend_max - 1
  pub cfg_json : length o.cfg_json ≤ cfg_max - 1

record-same : (o : CacheState) → Fits o → mesi_cache_state_record o ≡ o
unfolding mesi_cache_state_record
record-same o f = rw (take-all 15 o.backend f.backend, take-all 4095 o.cfg_json f.cfg_json) refl

init-matched :
    (succeeds : CacheState → Bool) (g o : CacheState)
    → mesi_cache_state_matches g o ≡ true
    → init_cache succeeds g o ≡ record { state = g; ok = true; calls = [] }
unfolding init_cache
init-matched succeeds g o m = rw (m, init_cache) refl

init-succeeds :
    (succeeds : CacheState → Bool) (g o : CacheState)
    → Fits o
    → mesi_cache_state_matches g o ≡ false
    → succeeds o ≡ true
    → init_cache succeeds g o ≡ record { state = o; ok = true; calls = o ∷ [] }
unfolding init_cache
init-succeeds succeeds g o f m s = rw (m, s, record-same o f, init_cache) refl

init-fails :
    (succeeds : CacheState → Bool) (g o : CacheState)
    → mesi_cache_state_matches g o ≡ false
    → succeeds o ≡ false
    → init_cache succeeds g o ≡ record { state = g; ok = false; calls = o ∷ [] }
unfolding init_cache
init-fails succeeds g o m s = rw (m, s, init_cache) refl

-- What a result must be for the settings.
abbrev Settled : (CacheState → Bool) → CacheState → CacheState → Initialized → Type 0
Settled succeeds g o r =
    (r.ok ≡ true → (r.state ≡ o) × ((init_cache succeeds r.state o).calls ≡ []))
    × (r.ok ≡ false → r.state ≡ g)
    × (r.calls ≡ [] → g ≡ o)

-- For settings whose texts fit the arrays of the record: where parse_with_config goes on, they are
-- recorded, and the same settings make no call of InitCacheWithConfig the next time; where it does
-- not, the record is as it was; and no call is left out unless the same settings are recorded.
pub init_cache-again :
    (succeeds : CacheState → Bool) (g o : CacheState)
    → Fits o
    → ((init_cache succeeds g o).ok ≡ true
        → ((init_cache succeeds g o).state ≡ o)
          × ((init_cache succeeds (init_cache succeeds g o).state o).calls ≡ []))
      × ((init_cache succeeds g o).ok ≡ false → (init_cache succeeds g o).state ≡ g)
      × ((init_cache succeeds g o).calls ≡ [] → g ≡ o)
init_cache-again succeeds g o f =
    let quiet : (init_cache succeeds o o).calls ≡ [] =
      ap (λ (r : Initialized). r.calls) (init-matched succeeds o o (matches_refl o)) in
    elim (Bool-cases (mesi_cache_state_matches g o)) [
      | inl m ↦
          let same = matches-same g o m in
          subst (Settled succeeds g o) (sym (init-matched succeeds g o m)) (
            (λ _. (same, subst (λ x. (init_cache succeeds x o).calls ≡ []) (sym same) quiet)),
            (λ h. absurd (true≢false h)),
            (λ _. same),
          )
      | inr m ↦ elim (Bool-cases (succeeds o)) [
        | inl s ↦
            subst (Settled succeeds g o) (sym (init-succeeds succeeds g o f m s))
              ((λ _. (refl, quiet)), (λ h. absurd (true≢false h)), (λ h. absurd cc))
        | inr s ↦
            subst (Settled succeeds g o) (sym (init-fails succeeds g o m s))
              ((λ h. absurd (true≢false (sym h))), (λ _. refl), (λ h. absurd cc))
      ]
    ]
