-- ===== src/Apache/Filter/Gates.antt =====
-- The tests at the start of the filter, by which it leaves a response alone.
use go_mesi.Base.{
  ℕ, Bool, true, false, not, ◌&&◌, ◌||◌, List, none, some, ltb, if◌then◌else◌, ℤ, pos, negsuc,
  is_set, is_true, ◌≡◌, refl, arith,
}
use go_mesi.Apache.Config.{Config}
use go_mesi.Apache.Headers.{Out, is_html_content, mesi_header_signals_esi}
use go_mesi.Apache.Filter.{
  Bucket, Env, Exchange, State, Result, buffered, mesi_response_filter, leave,
}

-- The responses that are processed.
unfoldable pub eligible : Config → Exchange → Out → Bool
eligible conf e out =
    is_true conf.enable_mesi
    && (is_html_content e.content_type
        && ltb out.status 400
        && (not (is_set conf.parse_on_header)
            || not (is_true conf.parse_on_header)
            || mesi_header_signals_esi out.edge_control))

-- Each test of the filter, on what follows it: P b r says that r is right for a response that is
-- processed exactly if b is true.
module _ (P : Bool → Result → Type 0) where
  enabled_gate :
      (b g : Bool) (x y : Result) → P false x → P g y → P (b && g) (if not b then x else y)
  enabled_gate true g x y hx hy = hy
  enabled_gate false g x y hx hy = hx

  html_gate :
      (b low high g : Bool) (x y : Result)
      → high ≡ not low
      → P false x
      → P g y
      → P (b && low && g) (if not b || high then x else y)
  html_gate true true high g x y h hx hy = rw h hy
  html_gate true false high g x y h hx hy = rw h hx
  html_gate false low high g x y h hx hy = hx

  signal_gate :
      (set on signal : Bool) (x y : Result)
      → P false x
      → P true y
      → P (not set || not on || signal) (if set && on && not signal then x else y)
  signal_gate false on signal x y hx hy = hy
  signal_gate true false signal x y hx hy = hy
  signal_gate true true true x y hx hy = hy
  signal_gate true true false x y hx hy = hx

on_of : (v : ℤ) → is_true (if is_set v then v else pos 0) ≡ (is_set v && is_true v)
on_of (pos n) = refl
on_of (negsuc n) = ground arith

at_most : (n : ℕ) → ltb 399 n ≡ not (ltb n 400)
at_most n = ground arith

-- The filter does what follows its tests exactly for the responses that are processed.
pub filter_gates :
    (env : Env) (conf : Config) (e : Exchange) (s : State) (bb : List Bucket)
    (P : Bool → Result → Type 0)
    → P false (record { state = s; sent = some bb })
    → P false (leave s s.out bb)
    → P false (leave s (record s.out { surrogate_capability = none }) bb)
    → P true (buffered env conf e s bb)
    → P (eligible conf e s.out) (mesi_response_filter env conf e s bb)
unfolding mesi_response_filter eligible
filter_gates env conf e s bb P off other unsignalled processed =
    enabled_gate P (is_true conf.enable_mesi) _ _ _ off (
      html_gate P (is_html_content e.content_type) (ltb s.out.status 400) (ltb 399 s.out.status) _
        (leave s s.out bb) _ (at_most s.out.status) other
        (rw (on_of conf.parse_on_header) (
          signal_gate P (is_set conf.parse_on_header) (is_true conf.parse_on_header)
            (mesi_header_signals_esi s.out.edge_control)
            (leave s (record s.out { surrogate_capability = none }) bb) (buffered env conf e s bb)
            unsignalled processed)))
