-- ===== src/Nginx/Body/Grow.antt =====
-- The buffer of the page: it holds what was received, and never outgrows the limit.
use go_mesi.Base.{
  ℕ, zero, suc, ◌+◌, ◌*◌, ◌≤◌, Bool, true, false, not, ◌&&◌, [], ◌∷◌, ◌++◌, Bytes, ltb, ◌==◌, ℤ,
  pos, negsuc, is_pos, gtb, to_nat, if◌then◌else◌, length, length-append, ◌≡◌, refl, sym, ap, ◌∙◌,
  append-nil, arith, Bool-cases, if-elim, inl, inr,
}
use mathlib.Core.Bool.{true≢false}
use go_mesi.Nginx.Config.{LocConf}
use go_mesi.Nginx.Body.{
  Ctx, Alloc, over_limit, double_to, new_capacity, Absorbed, absorbed, oversize, no_memory,
  append_bytes, absorb,
}

-- At most the limit, if there is one.
abbrev pub Limited : LocConf → ℕ → Type 0
Limited lcf n = is_pos lcf.max_body_size ≡ true → n ≤ to_nat lcf.max_body_size

-- The page fits its buffer, and the buffer fits the limit.
pub record IsValid (lcf : LocConf) (ctx : Ctx) : Type 0 where
  pub fits : length ctx.accumulated ≤ ctx.capacity
  pub limited : Limited lcf ctx.capacity

within : (m : ℤ) (n : ℕ) → (is_pos m && gtb (pos n) m) ≡ false → is_pos m ≡ true → n ≤ to_nat m
within (pos m) n h p = ground arith
within (negsuc m) n h p = ground arith

over-pos : (m : ℤ) (n : ℕ) → (is_pos m && gtb (pos n) m) ≡ true → is_pos m ≡ true
over-pos (pos m) n h = ground arith
over-pos (negsuc m) n h = ground arith

pub over_limit-Limited : (lcf : LocConf) (n : ℕ) → over_limit lcf n ≡ false → Limited lcf n
over_limit-Limited lcf n h = within lcf.max_body_size n h

double_to-enough :
    (fuel new_len cap : ℕ) → 1 ≤ cap → new_len ≤ cap + fuel → new_len ≤ double_to fuel new_len cap
unfolding double_to
double_to-enough zero new_len cap h g = omega arith
double_to-enough (suc fuel) new_len cap h g =
    let later = double_to-enough fuel new_len (cap * 2) (omega arith) (omega arith) in
    elim (Bool-cases (ltb cap new_len)) [ inl e ↦ rw e later | inr e ↦ rw e (ground arith) ]

module _ (lcf : LocConf) (pagesize : ℕ) (page : 1 ≤ pagesize) where
  new_capacity-enough :
      (cap new_len : ℕ)
      → over_limit lcf new_len ≡ false
      → (new_len ≤ new_capacity lcf pagesize cap new_len)
        × Limited lcf (new_capacity lcf pagesize cap new_len)
  unfolding new_capacity
  new_capacity-enough cap new_len h =
      let start = if cap == 0 then pagesize else cap in
      let new_cap = double_to new_len new_len start in
      let one : 1 ≤ start = ground arith in
      let enough = double_to-enough new_len new_len start one (omega arith) in
      elim (Bool-cases (over_limit lcf new_cap)) [
        | inl e ↦ rw e (
          within lcf.max_body_size new_len h (over-pos lcf.max_body_size new_cap e),
          λ p. omega arith,
        )
        | inr e ↦ rw e (enough, over_limit-Limited lcf new_cap e)
      ]

not-true : (b : Bool) → not b ≡ true → b ≡ false
not-true b h = ground arith

-- What the loop may do with the bytes of a buffer.
abbrev pub Takes : Alloc → LocConf → Ctx → Bytes → Absorbed → Type 0
Takes alloc lcf ctx bytes (absorbed next) =
    IsValid lcf next
    × (next.done ≡ ctx.done)
    × (next.passthrough ≡ ctx.passthrough)
    × (ctx.done ≡ false → next.accumulated ≡ ctx.accumulated ++ bytes)
Takes alloc lcf ctx bytes oversize =
    (over_limit lcf (length ctx.accumulated + length bytes) ≡ true) × (ctx.done ≡ false)
Takes alloc lcf ctx bytes no_memory = (n : ℕ) × (alloc.data_of n ≡ false)

module _ (alloc : Alloc) (lcf : LocConf) (pagesize : ℕ) (page : 1 ≤ pagesize) where
  append_bytes-Takes :
      (ctx : Ctx) (bytes : Bytes)
      → IsValid lcf ctx
      → over_limit lcf (length ctx.accumulated + length bytes) ≡ false
      → Takes alloc lcf ctx bytes (append_bytes alloc lcf pagesize ctx bytes)
  unfolding append_bytes
  append_bytes-Takes ctx bytes v h =
      let new_len = length ctx.accumulated + length bytes in
      let new_cap = new_capacity lcf pagesize ctx.capacity new_len in
      let (enough, limited) = new_capacity-enough lcf pagesize page ctx.capacity new_len h in
      let len = length-append ctx.accumulated bytes in
      elim (Bool-cases (ltb ctx.capacity new_len)) [
        | inl e ↦ elim (Bool-cases (alloc.data_of new_cap)) [
          | inl a ↦
              rw (e, a) (record { fits = omega arith; limited = limited }, refl, refl, λ d. refl)
          | inr a ↦ rw (e, a) (new_cap, a)
        ]
        | inr e ↦ rw e (record { fits = ground arith; limited = v.limited }, refl, refl, λ d. refl)
      ]

  pub absorb-Takes :
      (ctx : Ctx) (bytes : Bytes)
      → IsValid lcf ctx
      → Takes alloc lcf ctx bytes (absorb alloc lcf pagesize ctx bytes)
  unfolding absorb
  absorb-Takes ctx [] v = (v, refl, refl, λ d. sym (append-nil ctx.accumulated))
  absorb-Takes ctx (c ∷ s) v =
      let new_len = length ctx.accumulated + length (c ∷ s) in
      if-elim (Takes alloc lcf ctx (c ∷ s)) (not ctx.done) _ (absorbed ctx)
        (λ d.
          if-elim (Takes alloc lcf ctx (c ∷ s)) (over_limit lcf new_len) oversize
            (append_bytes alloc lcf pagesize ctx (c ∷ s)) (λ o. (o, not-true ctx.done d))
            (append_bytes-Takes ctx (c ∷ s) v))
        (λ d. (v, refl, refl, λ f. absurd (true≢false (ap not (sym f) ∙ d))))
