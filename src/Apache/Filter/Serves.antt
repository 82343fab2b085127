-- ===== src/Apache/Filter/Serves.antt =====
-- What each call of the filter does with the buckets: it holds them, passes all of them on
-- unchanged, refuses the page, or parses the whole of it.
use mathlib.Core.Bool.{true≢false}
use go_mesi.Base.{
  ℕ, ◌≤◌, Bool, true, false, ◌&&◌, List, [], ◌∷◌, ◌++◌, Option, none, some, Bytes, if◌then◌else◌,
  null, length, pos, is_nat, gtb, ◌≡◌, ◌⊎◌, refl, sym, ap, ◌∙◌, arith, Bool-cases, Option-cases,
  inl, inr, length-append,
}
use go_mesi.Apache.Config.{Config}
use go_mesi.Apache.Filter.{
  Bucket, eos, meta, error_bucket, known, unknown, contents, data_of, blen, FilterCtx, Env,
  Exchange, State, Result, limit, limited, declared, Taken, collect, oversized, flatten_brigade,
  parse_page, finish, after_collect, ctx_of, buffered,
}
use go_mesi.Apache.Filter.Collect.{
  EosLast, data_size, Fits, Collected, stopped, whole, ended, collect-Collected,
}

abbrev pub held : State → List Bucket
held s = (ctx_of s).bb

-- Between two calls: either everything has been passed on and the rest will be, or the count fits.
abbrev pub Ready : Config → Exchange → State → Type 0
Ready conf e s =
    ((ctx_of s).passthrough ≡ true) × (held s ≡ [])
    ⊎ ((ctx_of s).passthrough ≡ false) × Fits (limited conf e s.out) (limit conf) (ctx_of s)

-- The four things that a call may do with what was held and the new brigade.
pub data Serves (env : Env) (conf : Config) (e : Exchange) (s : State) (bb : List Bucket)
    : Result → Type 0 where
  waits :
      (r : Result)
      → r.sent ≡ none
      → held r.state ≡ held s ++ bb
      → Ready conf e r.state
      → Serves env conf e s bb r
  relays :
      (r : Result) → r.sent ≡ some (held s ++ bb) → held r.state ≡ [] → Serves env conf e s bb r
  rejects :
      (r : Result)
      → is_nat 1 conf.on_oversize ≡ true
      → r.sent ≡ some (error_bucket 502 ∷ eos ∷ [])
      → held r.state ≡ []
      → Serves env conf e s bb r
  parses :
      (ctx : FilterCtx) (body : Bytes)
      → ctx.bb ++ eos ∷ [] ≡ held s ++ bb
      → contents ctx.bb ≡ some body
      → (limited conf e s.out ≡ true → length body ≤ limit conf)
      → Serves env conf e s bb (parse_page env conf e s ctx body)

abbrev opt_length : Option Bytes → ℕ
opt_length none = 0
opt_length (some s) = length s

length-data_of : (b : Bucket) (s : Bytes) → data_of b ≡ some s → length s ≡ blen b
unfolding data_of
length-data_of eos s h = sym (ap opt_length h)
length-data_of (meta n) s h = sym (ap opt_length h)
length-data_of (error_bucket n) s h = sym (ap opt_length h)
length-data_of (known t) s h = sym (ap opt_length h)
length-data_of (unknown none) s h = absurd (cc)
length-data_of (unknown (some t)) s h = sym (ap opt_length h)

length-contents :
    (bs : List Bucket) (body : Bytes) → contents bs ≡ some body → length body ≡ data_size bs
unfolding contents
length-contents [] body h = sym (ap opt_length h)
length-contents (b ∷ bs) body h = elim (Option-cases (data_of b)) [
  | inl n ↦ absurd (cc (rw n at h))
  | inr (s, d) ↦ elim (Option-cases (contents bs)) [
    | inl n ↦ absurd (cc (rw (d, n) at h))
    | inr (t, c) ↦
        let whole : length (s ++ t) ≡ length body = ap opt_length (rw (d, c) at h) in
        omega (arith, whole, length-append s t, length-data_of b s d, length-contents bs t c)
  ]
]

-- A body that is not empty is what the buckets hold.
flatten_brigade-contents :
    (force : Bool) (bb : List Bucket) (body : Bytes)
    → flatten_brigade force bb ≡ some body
    → contents bb ≡ some body
unfolding flatten_brigade
flatten_brigade-contents true bb body h = absurd (cc)
flatten_brigade-contents false bb body h = elim (Option-cases (contents bb)) [
  | inl n ↦ absurd (cc (rw n at h))
  | inr (t, n) ↦ n ∙ same t (rw n at h)
]
  where
    same : (t : Bytes) → (if null t then none else some t) ≡ some body → some t ≡ some body
    same [] e = absurd (cc)
    same (c ∷ t) e = e

module _ (env : Env) (conf : Config) (e : Exchange) (s : State) (bb : List Bucket) where
  oversized-Serves :
      (ctx : FilterCtx) (rest : List Bucket)
      → ctx.bb ++ rest ≡ held s ++ bb
      → Serves env conf e s bb (oversized conf s ctx rest)
  unfolding oversized
  oversized-Serves ctx rest same = elim (Bool-cases (is_nat 1 conf.on_oversize)) [
    | inl o ↦ rw o (rejects _ o refl refl)
    | inr o ↦ rw o (relays _ (ap some same) refl)
  ]

  finish-Serves :
      (ctx : FilterCtx) (o : Option Bytes)
      → flatten_brigade s.process.force_flatten_error ctx.bb ≡ o
      → ctx.bb ++ eos ∷ [] ≡ held s ++ bb
      → Fits (limited conf e s.out) (limit conf) ctx
      → Serves env conf e s bb (finish env conf e s ctx o)
  unfolding finish
  finish-Serves ctx none f same fits = relays _ (ap some same) refl
  finish-Serves ctx (some body) f same fits =
      let c = flatten_brigade-contents s.process.force_flatten_error ctx.bb body f in
      let n = length-contents ctx.bb body c in
      parses ctx body same c (λ l. omega (arith, n, (fits l).0, (fits l).1))

  after_collect-Serves :
      (t : Taken)
      → Collected (limited conf e s.out) (limit conf) (held s ++ bb) t
      → Serves env conf e s bb (after_collect env conf e s t)
  unfolding after_collect
  after_collect-Serves _ (stopped ctx rest same) = oversized-Serves ctx rest same
  after_collect-Serves _ (whole ctx same p fits) = waits _ refl same (inr (p, fits))
  after_collect-Serves _ (ended ctx same fits) = finish-Serves ctx _ refl same fits

  if_Serves :
      (b : Bool) (x y : Result)
      → (b ≡ true → Serves env conf e s bb x)
      → (b ≡ false → Serves env conf e s bb y)
      → Serves env conf e s bb (if b then x else y)
  if_Serves true x y hx hy = hx refl
  if_Serves false x y hx hy = hy refl

  collecting-Serves :
      EosLast bb
      → (ctx_of s).passthrough ≡ false
      → Fits (limited conf e s.out) (limit conf) (ctx_of s)
      → Serves env conf e s bb (
          if limited conf e s.out && gtb (declared env.strtoff e s.out) (pos (limit conf))
          then oversized conf s (ctx_of s) bb
          else after_collect env conf e s
              (collect (limited conf e s.out) (limit conf) (ctx_of s) false bb))
  collecting-Serves last p fits =
      if_Serves _ (oversized conf s (ctx_of s) bb) (after_collect env conf e s _)
        (λ o. oversized-Serves (ctx_of s) bb refl)
        λ o.
          after_collect-Serves _
            (collect-Collected (limited conf e s.out) (limit conf) bb (ctx_of s) last p fits)

  -- For a brigade whose EOS, if any, stands last, and a state that is ready, the filter loses, changes
  -- and reorders no bucket: it holds all that came, within the limit, or passes all of it on, or
  -- answers 502 if MesiOnOversize is error; and what it parses is the data of all the buckets up to the
  -- end of the stream, within the limit.
  pub buffered-Serves :
      EosLast bb → Ready conf e s → Serves env conf e s bb (buffered env conf e s bb)
  unfolding buffered
  buffered-Serves last (inl (p, nothing)) =
      if_Serves (ctx_of s).passthrough
        (record { state = record s { ctx = some (ctx_of s) }; sent = some bb }) _
        (λ _. relays _ (ap some (sym (ap (λ l. l ++ bb) nothing))) nothing)
        λ q. absurd (true≢false (sym p ∙ q))
  buffered-Serves last (inr (p, fits)) =
      if_Serves (ctx_of s).passthrough
        (record { state = record s { ctx = some (ctx_of s) }; sent = some bb }) _
        (λ q. absurd (true≢false (sym q ∙ p))) λ _. collecting-Serves last p fits
