-- ===== src/Nginx/Body/Keeps.antt =====
-- No call of the filter breaks the page's buffer, and none stalls the response.
use go_mesi.Base.{
  ℕ, suc, ◌≤◌, Bool, true, not, ◌&&◌, ◌||◌, List, [], ◌∷◌, Option, some, Bytes, ◌==◌, is_true, null,
  length, ◌≡◌, refl, ap, All, if-elim,
}
use go_mesi.Nginx.Config.{LocConf, on_oversize_error}
use go_mesi.Nginx.Body.{
  Buf, Ctx, Alloc, forwarded, kept, Ran, Absorbed, absorbed, oversize, no_memory, absorb, oversized,
  finish, drained, chain_loop, pass_on, filter_chain, body_filter,
}
use go_mesi.Nginx.Body.Grow.{IsValid, Takes, absorb-Takes}

abbrev pub IsDrained : Buf → Type 0
IsDrained b = b.bytes ≡ []

-- What a call leaves: a page that fits, and if it keeps the chain, that chain drained.
abbrev Keeps : LocConf → List Buf → Ran → Type 0
Keeps lcf chain r =
    IsValid lcf r.ctx × (r.sent ≡ kept → All IsDrained r.left × (length r.left ≡ length chain))

pass_on-Keeps :
    (lcf : LocConf) (ctx : Ctx) (chain : List Buf)
    → IsValid lcf ctx
    → Keeps lcf chain (pass_on ctx chain)
pass_on-Keeps lcf ctx chain v = (v, λ e. absurd cc)

oversized-Keeps :
    (alloc : Alloc) (lcf : LocConf) (ctx : Ctx) (rest : List Buf)
    → IsValid lcf ctx
    → Keeps lcf rest (oversized alloc lcf ctx rest)
unfolding oversized
oversized-Keeps alloc lcf ctx rest v =
    let valid : IsValid lcf (record ctx { passthrough = true }) = assumption v in
    if-elim (Keeps lcf rest) (lcf.on_oversize == on_oversize_error) _ _ (λ o. (v, λ e. absurd cc))
      (λ o.
        if-elim (Keeps lcf rest) (null ctx.accumulated) _ _ (λ n. (valid, λ e. absurd cc))
          (λ n.
            if-elim (Keeps lcf rest) (alloc.link && alloc.buf) _ _ (λ a. (valid, λ e. absurd cc))
              (λ a. (valid, λ e. absurd cc))))

finish-Keeps :
    (alloc : Alloc) (parse : Bytes → Bytes) (lcf : LocConf) (ctx : Ctx) (chain left : List Buf)
    → IsValid lcf ctx
    → Keeps lcf chain (finish alloc parse ctx left)
unfolding finish
finish-Keeps alloc parse lcf ctx chain left v =
    let valid : IsValid lcf (record ctx { done = true }) = assumption v in
    if-elim (Keeps lcf chain) (alloc.link && alloc.buf) _ _ (λ a. (valid, λ e. absurd cc))
      (λ a. (valid, λ e. absurd cc))

module _ (alloc : Alloc) (parse : Bytes → Bytes) (lcf : LocConf) (pagesize : ℕ)
    (page : 1 ≤ pagesize) where
  first-Keeps :
      (ctx : Ctx) (b : Buf) (rest : List Buf) (r : Absorbed)
      → IsValid lcf ctx
      → Takes alloc lcf ctx b.bytes r
      → absorb alloc lcf pagesize ctx b.bytes ≡ r
      → ((next : Ctx)
          → IsValid lcf next
          → Keeps lcf rest (chain_loop alloc parse lcf pagesize next rest))
      → Keeps lcf (b ∷ rest) (chain_loop alloc parse lcf pagesize ctx (b ∷ rest))
  unfolding chain_loop
  first-Keeps ctx b rest (absorbed next) v t e later =
      rw (e, chain_loop)
        (if-elim (Keeps lcf (b ∷ rest)) (b.last_buf && not next.done) _ _
          (λ l. finish-Keeps alloc parse lcf next (b ∷ rest) (drained b ∷ rest) t.0)
          (λ l.
            let (valid, drains) = later next t.0 in
            (valid, λ k. ((refl, (drains k).0), ap suc (drains k).1))))
  first-Keeps ctx b rest oversize v t e later =
      rw (e, chain_loop) (oversized-Keeps alloc lcf ctx (b ∷ rest) v)
  first-Keeps ctx b rest no_memory v t e later = rw (e, chain_loop) (v, λ k. absurd cc)

  chain_loop-Keeps :
      (chain : List Buf) (ctx : Ctx)
      → IsValid lcf ctx
      → Keeps lcf chain (chain_loop alloc parse lcf pagesize ctx chain)
  unfolding chain_loop
  chain_loop-Keeps [] ctx v = (v, λ k. (tt, refl))
  chain_loop-Keeps (b ∷ rest) ctx v =
      first-Keeps ctx b rest (absorb alloc lcf pagesize ctx b.bytes) v
        (absorb-Takes alloc lcf pagesize page ctx b.bytes v) refl (chain_loop-Keeps rest)

  filter_chain-Keeps :
      (ctx : Ctx) (chain : List Buf)
      → IsValid lcf ctx
      → Keeps lcf chain (filter_chain alloc parse lcf pagesize ctx chain)
  unfolding filter_chain
  filter_chain-Keeps ctx chain v =
      if-elim (Keeps lcf chain) ctx.passthrough _ _ (λ p. pass_on-Keeps lcf ctx chain v)
        (λ p.
          if-elim (Keeps lcf chain) (null chain) _ _ (λ n. (v, λ e. absurd cc))
            (λ n. chain_loop-Keeps chain ctx v))

  body_filter-Keeps :
      (go_module : Bool) (ctx : Ctx) (chain : List Buf)
      → IsValid lcf ctx
      → Keeps lcf chain (body_filter alloc parse go_module lcf pagesize (some ctx) chain).1
        × ((body_filter alloc parse go_module lcf pagesize (some ctx) chain).0
            ≡ some (body_filter alloc parse go_module lcf pagesize (some ctx) chain).1.ctx)
  unfolding body_filter
  body_filter-Keeps go_module ctx chain v =
      if-elim (λ (r : Option Ctx × Ran). Keeps lcf chain r.1 × (r.0 ≡ some r.1.ctx))
        (not (is_true lcf.enable_mesi) || not go_module) _ _
        (λ o. (pass_on-Keeps lcf ctx chain v, refl)) (λ o. (filter_chain-Keeps ctx chain v, refl))

-- For any outcome of the allocations and any parser, a call leaves a page that fits its buffer and a
-- buffer within the configured limit, if it found them so: growing the buffer by doubling never
-- passes the limit.
pub body_filter-IsValid :
    (alloc : Alloc) (parse : Bytes → Bytes) (go_module : Bool) (lcf : LocConf) (pagesize : ℕ)
    (ctx : Ctx) (chain : List Buf)
    → 1 ≤ pagesize
    → IsValid lcf ctx
    → (next : Ctx) × ((body_filter alloc parse go_module lcf pagesize (some ctx) chain).0
        ≡ some next)
      × IsValid lcf next
body_filter-IsValid alloc parse go_module lcf pagesize ctx chain page v =
    let (k, e) = body_filter-Keeps alloc parse lcf pagesize page go_module ctx chain v in
    (_, e, k.0)

-- The call with NULL that wakes the writer is forwarded in every state; and where the filter returns
-- NGX_OK and forwards nothing, it has drained every buffer of the chain, so that the upstream can
-- use them again.
pub body_filter-wakes :
    (alloc : Alloc) (parse : Bytes → Bytes) (go_module : Bool) (lcf : LocConf) (pagesize : ℕ)
    (ctx : Ctx) (chain : List Buf)
    → 1 ≤ pagesize
    → IsValid lcf ctx
    → ((body_filter alloc parse go_module lcf pagesize (some ctx) []).1.sent ≡ forwarded [])
      × ((body_filter alloc parse go_module lcf pagesize (some ctx) chain).1.sent ≡ kept
          → All IsDrained (body_filter alloc parse go_module lcf pagesize (some ctx) chain).1.left
            × (length (body_filter alloc parse go_module lcf pagesize (some ctx) chain).1.left
                ≡ length chain))
unfolding body_filter filter_chain
body_filter-wakes alloc parse go_module lcf pagesize ctx chain page v = (
  if-elim (λ (r : Option Ctx × Ran). r.1.sent ≡ forwarded [])
      (not (is_true lcf.enable_mesi) || not go_module) _ _ (λ o. refl)
      (λ o.
        if-elim (λ (r : Ran). r.sent ≡ forwarded []) ctx.passthrough _ _ (λ p. refl) (λ p. refl)),
  (body_filter-Keeps alloc parse lcf pagesize page go_module ctx chain v).0.1,
)
