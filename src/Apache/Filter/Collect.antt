-- ===== src/Apache/Filter/Collect.antt =====
-- The loop over the buckets of a brigade loses none, and keeps the count of the bytes.
use mathlib.Core.Path.{subst}
use go_mesi.Base.{
  ℕ, ◌+◌, ◌≤◌, Bool, true, false, not, ◌&&◌, List, [], ◌∷◌, ◌++◌, ltb, if◌then◌else◌, ◌≡◌, refl,
  sym, arith, Bool-cases, inl, inr, append_assoc, append-nil,
}
use go_mesi.Apache.Filter.{
  Bucket, eos, meta, error_bucket, known, unknown, FilterCtx, is_metadata, blen, Taken, added,
  collect,
}

-- The end of the stream stands at most at the end of the brigade.
abbrev pub EosLast : List Bucket → Type 0
EosLast [] = Unit
EosLast (eos ∷ bs) = bs ≡ []
EosLast (b ∷ bs) = EosLast bs

-- The bytes of data that are held.
abbrev pub data_size : List Bucket → ℕ
data_size [] = 0
data_size (b ∷ bs) = blen b + data_size bs

data_size-append : (bs cs : List Bucket) → data_size (bs ++ cs) ≡ data_size bs + data_size cs
data_size-append [] cs = omega arith
data_size-append (b ∷ bs) cs = omega (arith, data_size-append bs cs)

-- Under a limit, the count is that of the bytes that are held, and is within the limit.
abbrev pub Fits : Bool → ℕ → FilterCtx → Type 0
Fits counts lim ctx = counts ≡ true → (ctx.total ≡ data_size ctx.bb) × (ctx.total ≤ lim)

-- What the loop may leave of a context and a brigade.
pub data Collected (counts : Bool) (lim : ℕ) (all : List Bucket) : Taken → Type 0 where
  stopped :
      (ctx : FilterCtx) (rest : List Bucket)
      → ctx.bb ++ rest ≡ all
      → Collected counts lim all
          (record { ctx = ctx; rest = rest; oversize = true; seen_eos = false })
  whole :
      (ctx : FilterCtx)
      → ctx.bb ≡ all
      → ctx.passthrough ≡ false
      → Fits counts lim ctx
      → Collected counts lim all
          (record { ctx = ctx; rest = []; oversize = false; seen_eos = false })
  ended :
      (ctx : FilterCtx)
      → ctx.bb ++ eos ∷ [] ≡ all
      → Fits counts lim ctx
      → Collected counts lim all
          (record { ctx = ctx; rest = []; oversize = false; seen_eos = true })

-- A bucket that is not the end joins the context, or stops the loop.
module _ (counts : Bool) (lim : ℕ) (ctx : FilterCtx) (b : Bucket) (bs : List Bucket) where
  abbrev joined : FilterCtx
  joined = record ctx { bb = ctx.bb ++ b ∷ []; total = added counts ctx.total b }

  fits_of :
      (not (is_metadata b) && ltb lim (added true ctx.total b)) ≡ false
      → is_metadata b ≡ false
      → ctx.total + blen b ≤ lim
  fits_of h m = ground (arith, (rw m at h))

  joined-Fits :
      (is_metadata b ≡ true → blen b ≡ 0)
      → Fits counts lim ctx
      → (counts && not (is_metadata b) && ltb lim (added counts ctx.total b)) ≡ false
      → Fits counts lim joined
  joined-Fits empty fits h c =
      let (same, room) = fits c in
      let size = data_size-append ctx.bb (b ∷ []) in
      elim (Bool-cases (is_metadata b)) [
        | inl m ↦
            let none = empty m in rw c (rw m (omega (arith, same, size, none), omega (arith, room)))
        | inr m ↦
            let small = fits_of (rw c at h) m in
            rw c (rw m (omega (arith, same, size), omega (arith, small)))
      ]

  collect-step :
      (t : Taken)
      → (Fits counts lim joined → Collected counts lim ((ctx.bb ++ b ∷ []) ++ bs) t)
      → (is_metadata b ≡ true → blen b ≡ 0)
      → Fits counts lim ctx
      → Collected counts lim (ctx.bb ++ b ∷ bs) (
          if counts && not (is_metadata b) && ltb lim (added counts ctx.total b)
          then record {
            ctx = record ctx { total = added counts ctx.total b };
            rest = b ∷ bs;
            oversize = true;
            seen_eos = false;
          }
          else t)
  collect-step t later empty fits =
      elim (Bool-cases (counts && not (is_metadata b) && ltb lim (added counts ctx.total b))) [
        | inl e ↦ rw e (stopped _ (b ∷ bs) refl)
        | inr e ↦ rw e (
            subst (λ l. Collected counts lim l t) (append_assoc ctx.bb (b ∷ []) bs)
              (later (joined-Fits empty fits e)))
      ]

pub collect-Collected :
    (counts : Bool) (lim : ℕ) (bs : List Bucket) (ctx : FilterCtx)
    → EosLast bs
    → ctx.passthrough ≡ false
    → Fits counts lim ctx
    → Collected counts lim (ctx.bb ++ bs) (collect counts lim ctx false bs)
unfolding collect
collect-Collected counts lim [] ctx last p fits = whole ctx (sym (append-nil ctx.bb)) p fits
collect-Collected counts lim (eos ∷ bs) ctx last p fits =
    subst (λ l. Collected counts lim (ctx.bb ++ eos ∷ l) (collect counts lim ctx true l)) (sym last)
      (ended ctx refl fits)
collect-Collected counts lim (meta n ∷ bs) ctx last p fits =
    collect-step counts lim ctx (meta n) bs _
      (λ f. collect-Collected counts lim bs (joined counts lim ctx (meta n) bs) last p f)
      (λ _. refl) fits
collect-Collected counts lim (error_bucket n ∷ bs) ctx last p fits =
    collect-step counts lim ctx (error_bucket n) bs _
      (λ f. collect-Collected counts lim bs (joined counts lim ctx (error_bucket n) bs) last p f)
      (λ _. refl) fits
collect-Collected counts lim (known s ∷ bs) ctx last p fits =
    collect-step counts lim ctx (known s) bs _
      (λ f. collect-Collected counts lim bs (joined counts lim ctx (known s) bs) last p f)
      (λ e. absurd (cc)) fits
collect-Collected counts lim (unknown o ∷ bs) ctx last p fits =
    collect-step counts lim ctx (unknown o) bs _
      (λ f. collect-Collected counts lim bs (joined counts lim ctx (unknown o) bs) last p f)
      (λ e. absurd (cc)) fits
