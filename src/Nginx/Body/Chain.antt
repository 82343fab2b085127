-- ===== src/Nginx/Body/Chain.antt =====
-- One call of the filter, for the page that its chain goes on with.
use go_mesi.Base.{
  ℕ, ◌+◌, ◌≤◌, Bool, true, false, not, ◌&&◌, ◌||◌, List, [], ◌∷◌, ◌++◌, Option, some, Bytes, ltb,
  ◌==◌, ℤ, pos, negsuc, is_pos, is_true, gtb, to_nat, if◌then◌else◌, null, length, length-append,
  append_assoc, ◌≡◌, ◌⊎◌, refl, sym, ap, ◌∙◌, arith, Bool-cases, if-elim, inl, inr,
}
use mathlib.Core.Bool.{true≢false}
use go_mesi.Nginx.Config.{LocConf, on_oversize_error}
use go_mesi.Nginx.Body.{
  Buf, Ctx, Alloc, forwarded, kept, aborted, Ran, over_limit, Absorbed, absorbed, oversize,
  no_memory, absorb, oversized, finish, drained, keep_first, chain_loop, filter_chain, body_filter,
}
use go_mesi.Nginx.Body.Grow.{IsValid, Takes, absorb-Takes}
use go_mesi.Nginx.Body.Stream.{
  Allocates, bytes_of, Page, waiting, whole, unchanged, refused, page_of,
}

-- A context that holds the bytes received so far.
pub record Holds (lcf : LocConf) (acc : Bytes) (ctx : Ctx) : Type 0 where
  pub valid : IsValid lcf ctx
  pub unfinished : ctx.done ≡ false
  pub buffering : ctx.passthrough ≡ false
  pub holds : ctx.accumulated ≡ acc

-- A call that has to be followed by others, or the last one for the page.
abbrev pub Stage : (Bytes → Bytes) → LocConf → Page → Ran → Type 0
Stage parse lcf (waiting acc) r = ((r.sent ≡ kept) ⊎ (r.sent ≡ forwarded [])) × Holds lcf acc r.ctx
Stage parse lcf (whole all) r =
    (r.sent ≡ forwarded (record { bytes = parse all; last_buf = true } ∷ []))
    × (r.ctx.done ≡ true)
    × (r.ctx.passthrough ≡ false)
Stage parse lcf (unchanged all) r =
    (bs : List Buf) × (r.sent ≡ forwarded bs) × (bytes_of bs ≡ all) × (r.ctx.passthrough ≡ true)
Stage parse lcf refused r = r.sent ≡ aborted

not_over : (m : ℤ) (n : ℕ) → (is_pos m ≡ true → n ≤ to_nat m) → (is_pos m && gtb (pos n) m) ≡ false
not_over (pos m) n h = elim (Bool-cases (ltb 0 m)) [
  | inl e ↦ let le = h e in ground arith
  | inr e ↦ rw e refl
]
not_over (negsuc m) n h = refl

-- A page that fits is not over the limit.
Holds-limit :
    (lcf : LocConf) (acc : Bytes) (ctx : Ctx)
    → Holds lcf acc ctx
    → over_limit lcf (length acc) ≡ false
Holds-limit lcf acc ctx h =
    not_over lcf.max_body_size (length acc)
      (λ p. let le = h.valid.limited p in omega (arith, h.valid.fits, ap length h.holds))

module _ (parse : Bytes → Bytes) (lcf : LocConf) where
  Stage-keep_first :
      (b : Buf) (p : Page) (r : Ran) → Stage parse lcf p r → Stage parse lcf p (keep_first b r)
  Stage-keep_first b (waiting acc) r h = h
  Stage-keep_first b (whole all) r h = h
  Stage-keep_first b (unchanged all) r h = h
  Stage-keep_first b refused r h = h

  Stage-last :
      (l d : Bool) (p q : Page) (x y : Ran)
      → d ≡ false
      → Stage parse lcf p x
      → Stage parse lcf q y
      → Stage parse lcf (if l then p else q) (if l && not d then x else y)
  Stage-last true true p q x y e hx hy = absurd (true≢false e)
  Stage-last true false p q x y e hx hy = hx
  Stage-last false d p q x y e hx hy = hy

  module _ (alloc : Alloc) (good : Allocates alloc) where
    finish-Stage :
        (all : Bytes) (ctx : Ctx) (left : List Buf)
        → Holds lcf all ctx
        → Stage parse lcf (whole all) (finish alloc parse ctx left)
    unfolding finish
    finish-Stage all ctx left h =
        if-elim (Stage parse lcf (whole all)) (alloc.link && alloc.buf) _ _
          (λ a. (
            ap (λ t. forwarded (record { bytes = parse t; last_buf = true } ∷ [])) h.holds,
            refl,
            h.buffering,
          ))
          (λ a. absurd (true≢false (sym (rw (good.link, good.buf) refl) ∙ a)))

    oversized-Stage :
        (acc : Bytes) (ctx : Ctx) (b : Buf) (rest : List Buf)
        → Holds lcf acc ctx
        → Stage parse lcf
            (if lcf.on_oversize == on_oversize_error
              then refused
              else unchanged ((acc ++ b.bytes) ++ bytes_of rest))
            (oversized alloc lcf ctx (b ∷ rest))
    unfolding oversized
    oversized-Stage acc ctx b rest h = elim (Bool-cases (lcf.on_oversize == on_oversize_error)) [
      | inl e ↦ rw e refl
      | inr e ↦
          let all = (acc ++ b.bytes) ++ bytes_of rest in
          rw e (
            if-elim (Stage parse lcf (unchanged all)) (null ctx.accumulated) _ _
              (λ n. (b ∷ rest, refl, nothing_held ctx.accumulated n h.holds, refl))
              (λ n.
                if-elim (Stage parse lcf (unchanged all)) (alloc.link && alloc.buf) _ _
                  (λ a. (
                    record { bytes = ctx.accumulated; last_buf = false } ∷ b ∷ rest,
                    refl,
                    ap (λ t. t ++ (b.bytes ++ bytes_of rest)) h.holds
                        ∙ sym (append_assoc acc b.bytes (bytes_of rest)),
                    refl,
                  ))
                  (λ a. absurd (true≢false (sym (rw (good.link, good.buf) refl) ∙ a)))))
    ]
      where
        nothing_held :
            (held : Bytes)
            → null held ≡ true
            → held ≡ acc
            → b.bytes ++ bytes_of rest ≡ (acc ++ b.bytes) ++ bytes_of rest
        nothing_held [] n e = ap (λ t. (t ++ b.bytes) ++ bytes_of rest) e
        nothing_held (x ∷ held) n e = absurd (true≢false (sym n))

    module _ (pagesize : ℕ) (page : 1 ≤ pagesize) where
      first-Stage :
          (acc : Bytes) (ctx : Ctx) (b : Buf) (rest : List Buf) (r : Absorbed)
          → Holds lcf acc ctx
          → Takes alloc lcf ctx b.bytes r
          → absorb alloc lcf pagesize ctx b.bytes ≡ r
          → ((all : Bytes) (next : Ctx)
              → Holds lcf all next
              → Stage parse lcf
                  (page_of lcf all rest)
                  (chain_loop alloc parse lcf pagesize next rest))
          → Stage parse lcf
              (page_of lcf acc (b ∷ rest))
              (chain_loop alloc parse lcf pagesize ctx (b ∷ rest))
      unfolding chain_loop page_of
      first-Stage acc ctx b rest (absorbed next) h (v, d, p, t) e later =
          let all = acc ++ b.bytes in
          let holds : Holds lcf all next = record {
            valid = v;
            unfinished = d ∙ h.unfinished;
            buffering = p ∙ h.buffering;
            holds = t h.unfinished ∙ ap (λ s. s ++ b.bytes) h.holds;
          } in
          let r = chain_loop alloc parse lcf pagesize next rest in
          rw (e, chain_loop)
            (rw (Holds-limit lcf all next holds) (
              Stage-last b.last_buf next.done (whole all) (page_of lcf all rest)
                (finish alloc parse next (drained b ∷ rest)) (keep_first b r) holds.unfinished
                (finish-Stage all next (drained b ∷ rest) holds)
                (Stage-keep_first b (page_of lcf all rest) r (later all next holds))))
      first-Stage acc ctx b rest oversize h (o, d) e later =
          let over : over_limit lcf (length (acc ++ b.bytes)) ≡ true =
            ap (over_limit lcf)
              (length-append acc b.bytes ∙ ap (λ t. length t + length b.bytes) (sym h.holds))
            ∙ o in
          rw (e, chain_loop) (rw over (oversized-Stage acc ctx b rest h))
      first-Stage acc ctx b rest no_memory h (n, f) e later =
          absurd (true≢false (sym (good.data_of n) ∙ f))

      chain_loop-Stage :
          (chain : List Buf) (acc : Bytes) (ctx : Ctx)
          → Holds lcf acc ctx
          → Stage parse lcf (page_of lcf acc chain) (chain_loop alloc parse lcf pagesize ctx chain)
      unfolding chain_loop page_of
      chain_loop-Stage [] acc ctx h = (inl refl, h)
      chain_loop-Stage (b ∷ rest) acc ctx h =
          first-Stage acc ctx b rest (absorb alloc lcf pagesize ctx b.bytes) h
            (absorb-Takes alloc lcf pagesize page ctx b.bytes h.valid) refl (chain_loop-Stage rest)

      -- A call of the filter where ESI is enabled.
      pub body_filter-Stage :
          (chain : List Buf) (acc : Bytes) (ctx : Ctx)
          → is_true lcf.enable_mesi ≡ true
          → Holds lcf acc ctx
          → Stage parse lcf
              (page_of lcf acc chain)
              (body_filter alloc parse true lcf pagesize (some ctx) chain).1
      unfolding body_filter filter_chain page_of
      body_filter-Stage [] acc ctx on h =
          let P = λ (r : Ran). ((r.sent ≡ kept) ⊎ (r.sent ≡ forwarded [])) × Holds lcf acc r.ctx in
          if-elim (λ (r : Option Ctx × Ran). P r.1) (not (is_true lcf.enable_mesi) || false) _ _
            (λ o. (inr refl, h))
            (λ o. if-elim P ctx.passthrough _ _ (λ q. (inr refl, h)) (λ q. (inr refl, h)))
      body_filter-Stage (b ∷ rest) acc ctx on h =
          let S = Stage parse lcf (page_of lcf acc (b ∷ rest)) in
          if-elim (λ (r : Option Ctx × Ran). S r.1) (not (is_true lcf.enable_mesi) || false) _ _
            (λ o. absurd (true≢false (sym o ∙ rw on refl)))
            (λ o.
              if-elim S ctx.passthrough _ _ (λ q. absurd (true≢false (sym q ∙ h.buffering)))
                (λ q. chain_loop-Stage (b ∷ rest) acc ctx h))
