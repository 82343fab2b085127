-- ===== src/Apache/Filter/Stream.antt =====
-- A response as the filter gets it, brigade after brigade, before its end.
use mathlib.Core.Bool.{true≢false}
use go_mesi.Base.{
  ℕ, Bool, true, false, ◌&&◌, List, [], ◌∷◌, ◌++◌, some, if◌then◌else◌, or_else, pos, is_nat, gtb,
  ◌≡◌, refl, sym, ap, ◌∙◌, inl, inr, append_assoc, append-nil,
}
use go_mesi.Apache.Config.{Config}
use go_mesi.Apache.Filter.{
  Bucket, eos, meta, error_bucket, known, unknown, FilterCtx, Env, Exchange, State, Result, limit,
  limited, declared, Taken, collect, oversized, after_collect, ctx_of, buffered,
  mesi_response_filter,
}
use go_mesi.Apache.Filter.Collect.{
  EosLast, Fits, Collected, stopped, whole, ended, collect-Collected,
}
use go_mesi.Apache.Filter.Gates.{eligible, filter_gates}
use go_mesi.Apache.Filter.Serves.{held, Ready}

-- No bucket is the end of the stream.
abbrev pub NoEos : List Bucket → Type 0
NoEos [] = Unit
NoEos (eos ∷ bs) = ⊥
NoEos (b ∷ bs) = NoEos bs

NoEos-EosLast : (bs : List Bucket) → NoEos bs → EosLast bs
NoEos-EosLast [] h = tt
NoEos-EosLast (eos ∷ bs) h = absurd h
NoEos-EosLast (meta n ∷ bs) h = NoEos-EosLast bs h
NoEos-EosLast (error_bucket n ∷ bs) h = NoEos-EosLast bs h
NoEos-EosLast (known s ∷ bs) h = NoEos-EosLast bs h
NoEos-EosLast (unknown o ∷ bs) h = NoEos-EosLast bs h

seen_if :
    (b : Bool) (x y : Taken)
    → x.seen_eos ≡ false
    → y.seen_eos ≡ false
    → (if b then x else y).seen_eos ≡ false
seen_if true x y hx hy = hx
seen_if false x y hx hy = hy

collect-NoEos :
    (counts : Bool) (lim : ℕ) (bs : List Bucket) (ctx : FilterCtx)
    → NoEos bs
    → (collect counts lim ctx false bs).seen_eos ≡ false
unfolding collect
collect-NoEos counts lim [] ctx h = refl
collect-NoEos counts lim (eos ∷ bs) ctx h = absurd h
collect-NoEos counts lim (meta n ∷ bs) ctx h = seen_if _ _ _ refl (collect-NoEos counts lim bs _ h)
collect-NoEos counts lim (error_bucket n ∷ bs) ctx h =
    seen_if _ _ _ refl (collect-NoEos counts lim bs _ h)
collect-NoEos counts lim (known s ∷ bs) ctx h = seen_if _ _ _ refl (collect-NoEos counts lim bs _ h)
collect-NoEos counts lim (unknown o ∷ bs) ctx h =
    seen_if _ _ _ refl (collect-NoEos counts lim bs _ h)

abbrev pub sent_of : Result → List Bucket
sent_of r = or_else r.sent []

-- A call before the end: what it sends, followed by what it holds, is what it held and got.
pub record Flows (conf : Config) (e : Exchange) (s : State) (bb : List Bucket) (r : Result)
    : Type 0 where
  pub keeps : sent_of r ++ held r.state ≡ held s ++ bb
  pub ready : Ready conf e r.state
  pub same_out : r.state.out ≡ s.out

module _ (env : Env) (conf : Config) (e : Exchange) (s : State) (bb : List Bucket)
    (pass : is_nat 1 conf.on_oversize ≡ false) where
  oversized-Flows :
      (ctx : FilterCtx) (rest : List Bucket)
      → ctx.bb ++ rest ≡ held s ++ bb
      → Flows conf e s bb (oversized conf s ctx rest)
  unfolding oversized
  oversized-Flows ctx rest same = rw pass (record {
    keeps = append-nil (ctx.bb ++ rest) ∙ same;
    ready = inl (refl, refl);
    same_out = refl;
  })

  after_collect-Flows :
      (t : Taken)
      → Collected (limited conf e s.out) (limit conf) (held s ++ bb) t
      → t.seen_eos ≡ false
      → Flows conf e s bb (after_collect env conf e s t)
  unfolding after_collect
  after_collect-Flows _ (stopped ctx rest same) h = oversized-Flows ctx rest same
  after_collect-Flows _ (whole ctx same p fits) h = record {
    keeps = same;
    ready = inr (p, fits);
    same_out = refl;
  }
  after_collect-Flows _ (ended ctx same fits) h = absurd (true≢false h)

  if_Flows :
      (b : Bool) (x y : Result)
      → (b ≡ true → Flows conf e s bb x)
      → (b ≡ false → Flows conf e s bb y)
      → Flows conf e s bb (if b then x else y)
  if_Flows true x y hx hy = hx refl
  if_Flows false x y hx hy = hy refl

  collecting-Flows :
      NoEos bb
      → (ctx_of s).passthrough ≡ false
      → Fits (limited conf e s.out) (limit conf) (ctx_of s)
      → Flows conf e s bb (
          if limited conf e s.out && gtb (declared env.strtoff e s.out) (pos (limit conf))
          then oversized conf s (ctx_of s) bb
          else after_collect env conf e s
              (collect (limited conf e s.out) (limit conf) (ctx_of s) false bb))
  collecting-Flows last p fits =
      if_Flows _ (oversized conf s (ctx_of s) bb) (after_collect env conf e s _)
        (λ o. oversized-Flows (ctx_of s) bb refl)
        λ o.
          after_collect-Flows _
            (collect-Collected (limited conf e s.out) (limit conf) bb (ctx_of s)
              (NoEos-EosLast bb last) p fits)
            (collect-NoEos (limited conf e s.out) (limit conf) bb (ctx_of s) last)

  buffered-Flows : NoEos bb → Ready conf e s → Flows conf e s bb (buffered env conf e s bb)
  unfolding buffered
  buffered-Flows last (inl (p, nothing)) =
      let through : Result = record {
        state = record s { ctx = some (ctx_of s) };
        sent = some bb;
      } in
      if_Flows (ctx_of s).passthrough through _
        (λ _. record {
          keeps = ap (λ l. bb ++ l) nothing ∙ append-nil bb ∙ sym (ap (λ l. l ++ bb) nothing);
          ready = inl (p, nothing);
          same_out = refl;
        })
        λ q. absurd (true≢false (sym p ∙ q))
  buffered-Flows last (inr (p, fits)) =
      let through : Result = record {
        state = record s { ctx = some (ctx_of s) };
        sent = some bb;
      } in
      if_Flows (ctx_of s).passthrough through _ (λ q. absurd (true≢false (sym q ∙ p)))
        λ _. collecting-Flows last p fits

  filter-Flows :
      NoEos bb
      → Ready conf e s
      → eligible conf e s.out ≡ true
      → Flows conf e s bb (mesi_response_filter env conf e s bb)
  filter-Flows last ready h =
      filter_gates env conf e s bb (λ b r. b ≡ true → Flows conf e s bb r)
        (λ x. absurd (true≢false (sym x))) (λ x. absurd (true≢false (sym x)))
        (λ x. absurd (true≢false (sym x))) (λ x. buffered-Flows last ready) h

-- The filter on one brigade after the other: the state at the end, and all that was sent.
unfoldable pub stream : Env → Config → Exchange → State → List (List Bucket) → State × List Bucket
stream env conf e s [] = (s, [])
stream env conf e s (bb ∷ bbs) =
    let r = mesi_response_filter env conf e s bb in
    let t = stream env conf e r.state bbs in (t.0, sent_of r ++ t.1)

abbrev pub concat : List (List Bucket) → List Bucket
concat [] = []
concat (bb ∷ bbs) = bb ++ concat bbs

abbrev pub AllNoEos : List (List Bucket) → Type 0
AllNoEos [] = Unit
AllNoEos (bb ∷ bbs) = NoEos bb × AllNoEos bbs

-- From a state in which the held buckets fit the limit or all were passed on, for a response that is
-- processed, with MesiOnOversize pass, and brigades without EOS, however the buckets are cut into
-- brigades and whatever their sizes: what the filter has sent, followed by what it holds, is what it
-- held at first, followed by all that came.
pub stream-concat :
    (env : Env) (conf : Config) (e : Exchange) (bbs : List (List Bucket)) (s : State)
    → AllNoEos bbs
    → Ready conf e s
    → eligible conf e s.out ≡ true
    → is_nat 1 conf.on_oversize ≡ false
    → let t = stream env conf e s bbs in t.1 ++ held t.0 ≡ held s ++ concat bbs
unfolding stream
stream-concat env conf e [] s all ready h pass = sym (append-nil (held s))
stream-concat env conf e (bb ∷ bbs) s (first, rest) ready h pass =
    let r = mesi_response_filter env conf e s bb in
    let f = filter-Flows env conf e s bb pass first ready h in
    let t = stream env conf e r.state bbs in
    let later =
      stream-concat env conf e bbs r.state rest f.ready (ap (eligible conf e) f.same_out ∙ h)
        pass in
    append_assoc (sent_of r) t.1 (held t.0)
    ∙ ap (λ l. sent_of r ++ l) later
    ∙ sym (append_assoc (sent_of r) (held r.state) (concat bbs))
    ∙ ap (λ l. l ++ concat bbs) f.keeps
    ∙ append_assoc (held s) bb (concat bbs)
