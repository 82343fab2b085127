-- ===== src/Nginx/Body/Delivers.antt =====
-- Whatever chains a response comes in, its page is parsed once, or goes out unchanged, or is refused.
use go_mesi.Base.{
  ℕ, ◌≤◌, Bool, true, false, not, ◌&&◌, ◌||◌, List, [], ◌∷◌, ◌++◌, Option, some, Bytes, is_true,
  null, ◌≡◌, ◌⊎◌, refl, sym, ap, ◌∙◌, arith, All, if-elim, inl, inr,
}
use mathlib.Core.Path.{subst}
use mathlib.Core.Bool.{true≢false}
use go_mesi.Nginx.Config.{LocConf}
use go_mesi.Nginx.Body.{
  Buf, Ctx, new_ctx, Alloc, Sent, forwarded, kept, Ran, absorbed, absorb, finish, drained,
  keep_first, chain_loop, pass_on, filter_chain, body_filter,
}
use go_mesi.Nginx.Body.Stream.{
  Call, Allocates, emit, run, received, sent_bufs, aborts, bytes_of-append, Page, waiting, whole,
  unchanged, refused, page_of, Delivers, then_page, page_of-append,
}
use go_mesi.Nginx.Body.Chain.{Holds, Stage, body_filter-Stage}

abbrev Silent : Ctx → Ran → Type 0
Silent ctx r = ((r.sent ≡ kept) ⊎ (r.sent ≡ forwarded [])) × (r.ctx ≡ ctx)

-- Nothing more is sent.
abbrev Silence : List Sent → Type 0
Silence outs = (sent_bufs outs ≡ []) × (aborts outs ≡ false)

emit-Silence :
    (s : Sent) (later : List Sent)
    → (s ≡ kept) ⊎ (s ≡ forwarded [])
    → Silence later
    → Silence (emit s later)
emit-Silence s later (inl e) h = rw e h
emit-Silence s later (inr e) h = rw e h

module _ (parse : Bytes → Bytes) (lcf : LocConf) (pagesize : ℕ)
    (on : is_true lcf.enable_mesi ≡ true) where
  absorb-done :
      (alloc : Alloc) (ctx : Ctx) (bytes : Bytes)
      → ctx.done ≡ true
      → absorb alloc lcf pagesize ctx bytes ≡ absorbed ctx
  unfolding absorb
  absorb-done alloc ctx [] d = refl
  absorb-done alloc ctx (c ∷ s) d =
      if-elim (λ r. r ≡ absorbed ctx) (not ctx.done) _ (absorbed ctx)
        (λ n. absurd (true≢false (sym n ∙ ap not d))) (λ n. refl)

  not_last : (l d : Bool) → d ≡ true → (l && not d) ≡ false
  not_last l d e = ground arith

  chain_loop-Silent :
      (alloc : Alloc) (chain : List Buf) (ctx : Ctx)
      → ctx.done ≡ true
      → Silent ctx (chain_loop alloc parse lcf pagesize ctx chain)
  unfolding chain_loop
  chain_loop-Silent alloc [] ctx d = (inl refl, refl)
  chain_loop-Silent alloc (b ∷ rest) ctx d =
      let later = chain_loop-Silent alloc rest ctx d in
      rw (absorb-done alloc ctx b.bytes d, chain_loop)
        (if-elim (Silent ctx) (b.last_buf && not ctx.done)
          (finish alloc parse ctx (drained b ∷ rest))
          (keep_first b (chain_loop alloc parse lcf pagesize ctx rest))
          (λ l. absurd (true≢false (sym l ∙ not_last b.last_buf ctx.done d))) (λ l. later))

  enabled {ℓ} :
      (P : Ran → Type ℓ) (alloc : Alloc) (ctx : Ctx) (chain : List Buf)
      → P (filter_chain alloc parse lcf pagesize ctx chain)
      → P (body_filter alloc parse true lcf pagesize (some ctx) chain).1
  unfolding body_filter
  enabled P alloc ctx chain h =
      if-elim (λ (r : Option Ctx × Ran). P r.1) (not (is_true lcf.enable_mesi) || false) _ _
        (λ o. absurd (true≢false (sym o ∙ rw on refl))) (λ o. h)

  -- Behind the last buffer.
  done-Silent :
      (alloc : Alloc) (chain : List Buf) (ctx : Ctx)
      → ctx.done ≡ true
      → ctx.passthrough ≡ false
      → Silent ctx (filter_chain alloc parse lcf pagesize ctx chain)
  unfolding filter_chain
  done-Silent alloc chain ctx d p =
      if-elim (Silent ctx) ctx.passthrough _ _ (λ q. absurd (true≢false (sym q ∙ p)))
        (λ q.
          if-elim (Silent ctx) (null chain) _ _ (λ n. (inr refl, refl))
            (λ n. chain_loop-Silent alloc chain ctx d))

  run-done :
      (cs : List Call) (ctx : Ctx)
      → ctx.done ≡ true
      → ctx.passthrough ≡ false
      → Silence (run parse lcf pagesize ctx cs)
  unfolding run
  run-done [] ctx d p = (refl, refl)
  run-done (c ∷ cs) ctx d p =
      let (quiet, same) =
        enabled (Silent ctx) c.alloc ctx c.chain (done-Silent c.alloc c.chain ctx d p) in
      emit-Silence _ _ quiet
        (subst (λ x. Silence (run parse lcf pagesize x cs)) (sym same) (run-done cs ctx d p))

  -- Over the limit.
  passing-forwards :
      (alloc : Alloc) (chain : List Buf) (ctx : Ctx)
      → ctx.passthrough ≡ true
      → filter_chain alloc parse lcf pagesize ctx chain ≡ pass_on ctx chain
  unfolding filter_chain
  passing-forwards alloc chain ctx p =
      if-elim (λ r. r ≡ pass_on ctx chain) ctx.passthrough _ _ (λ q. refl)
        (λ q. absurd (true≢false (sym p ∙ q)))

  abbrev Passes : List Call → List Sent → Type 0
  Passes cs outs = (sent_bufs outs ≡ received cs) × (aborts outs ≡ false)

  run-passing :
      (cs : List Call) (ctx : Ctx)
      → ctx.passthrough ≡ true
      → Passes cs (run parse lcf pagesize ctx cs)
  unfolding run
  run-passing [] ctx p = (refl, refl)
  run-passing (c ∷ cs) ctx p =
      let same =
        enabled (λ r. r ≡ pass_on ctx c.chain) c.alloc ctx c.chain
          (passing-forwards c.alloc c.chain ctx p) in
      let (later, quiet) = run-passing cs ctx p in
      subst (λ (r : Ran). Passes (c ∷ cs) (emit r.sent (run parse lcf pagesize r.ctx cs)))
        (sym same) (ap (λ l. c.chain ++ l) later, quiet)

  quiet-Delivers :
      (p : Page) (s : Sent) (later : List Sent)
      → (s ≡ kept) ⊎ (s ≡ forwarded [])
      → Delivers parse p later
      → Delivers parse p (emit s later)
  quiet-Delivers (waiting acc) s later (inl e) h = rw e h
  quiet-Delivers (waiting acc) s later (inr e) h = rw e h
  quiet-Delivers (whole all) s later (inl e) h = rw e h
  quiet-Delivers (whole all) s later (inr e) h = rw e h
  quiet-Delivers (unchanged all) s later (inl e) h = rw e h
  quiet-Delivers (unchanged all) s later (inr e) h = rw e h
  quiet-Delivers refused s later (inl e) h = rw e h
  quiet-Delivers refused s later (inr e) h = rw e h

  -- The page after one call, and what the later calls send.
  then-Delivers :
      (p : Page) (r : Ran) (cs : List Call) (later : List Sent)
      → Stage parse lcf p r
      → ((acc : Bytes) → Holds lcf acc r.ctx → Delivers parse (page_of lcf acc (received cs)) later)
      → (r.ctx.done ≡ true → r.ctx.passthrough ≡ false → Silence later)
      → (r.ctx.passthrough ≡ true → Passes cs later)
      → Delivers parse (then_page lcf p (received cs)) (emit r.sent later)
  then-Delivers (waiting acc) r cs later (quiet, h) goes over passes =
      quiet-Delivers (page_of lcf acc (received cs)) r.sent later quiet (goes acc h)
  then-Delivers (whole all) r cs later (e, d, p) goes over passes =
      let (none_left, quiet) = over d p in
      rw e (ap (λ l. record { bytes = parse all; last_buf = true } ∷ l) none_left, quiet)
  then-Delivers (unchanged all) r cs later (bs, e, b, p) goes over passes =
      let (later_bufs, quiet) = passes p in
      rw e (bytes_of-append bs (sent_bufs later) ∙ rw (b, later_bufs) refl, quiet)
  then-Delivers refused r cs later e goes over passes = rw e (refl, refl)

  run-Delivers :
      (cs : List Call) (acc : Bytes) (ctx : Ctx)
      → 1 ≤ pagesize
      → All (λ c. Allocates c.alloc) cs
      → Holds lcf acc ctx
      → Delivers parse (page_of lcf acc (received cs)) (run parse lcf pagesize ctx cs)
  unfolding run page_of
  run-Delivers [] acc ctx page good h = (refl, refl)
  run-Delivers (c ∷ cs) acc ctx page (g, good) h =
      let r = (body_filter c.alloc parse true lcf pagesize (some ctx) c.chain).1 in
      let stage = body_filter-Stage parse lcf c.alloc g pagesize page c.chain acc ctx on h in
      rw (page_of-append lcf acc c.chain (received cs)) (
        then-Delivers (page_of lcf acc c.chain) r cs (run parse lcf pagesize r.ctx cs) stage
          (λ all held. run-Delivers cs all r.ctx page good held) (run-done cs r.ctx)
          (run-passing cs r.ctx))

new_ctx-Holds : (lcf : LocConf) → Holds lcf [] new_ctx
new_ctx-Holds lcf = record {
  valid = record { fits = omega arith; limited = λ p. omega arith };
  unfinished = refl;
  buffering = refl;
  holds = refl;
}

-- In a response that the head filter took, with ESI enabled and every allocation a success, what the
-- calls of the body filter send depends only on the buffers in their order, not on the chains that
-- they come in: a page whose last buffer comes within the limit is parsed once and sent as one last
-- buffer, and whatever follows is dropped; a page that passes the limit goes out byte for byte, or
-- ends in an error with nothing sent, as mesi_on_oversize says; before that nothing is sent.
pub body_filter-Delivers :
    (parse : Bytes → Bytes) (lcf : LocConf) (pagesize : ℕ) (cs : List Call)
    → is_true lcf.enable_mesi ≡ true
    → 1 ≤ pagesize
    → All (λ c. Allocates c.alloc) cs
    → Delivers parse (page_of lcf [] (received cs)) (run parse lcf pagesize new_ctx cs)
body_filter-Delivers parse lcf pagesize cs on page good =
    run-Delivers parse lcf pagesize on cs [] new_ctx page good (new_ctx-Holds lcf)
