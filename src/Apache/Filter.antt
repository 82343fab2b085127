-- ===== src/Apache/Filter.antt =====
-- servers/apache/mod_mesi.c: mesi_response_filter, the output filter that collects the buckets of a
-- response up to the limit, and parses the page at its end.
pub mod Collect
pub mod Serves
pub mod Gates
pub mod Stream
pub mod Closed
use go_mesi.Base.{
  ℕ, ◌+◌, Bool, true, false, not, ◌&&◌, ◌||◌, List, [], ◌∷◌, ◌++◌, Option, none, some, Bytes, codes,
  ltb, ◌==◌, if◌then◌else◌, or_else, null, length, ◌>>=◌, ℤ, pos, is_pos, is_nat, is_set, is_true,
  to_nat, gtb, take_while,
}
use go_mesi.Apache.Config.{Config, non_empty}
use go_mesi.Apache.Headers.{Out, is_html_content, mesi_header_signals_esi}
use go_mesi.Apache.Process.{Symbols, Process, Call, prepare}
use go_mesi.Apache.Dispatch.{Request, ParseCall, Dispatch, call, unprotected, no_parser, dispatch}

-- The buckets of a brigade. What a read of a pipe or a socket gives stands in `unknown`, none for a
-- read that fails.
pub data Bucket : Type 0 where
  eos : Bucket
  meta : ℕ → Bucket
  error_bucket : ℕ → Bucket
  known : Bytes → Bucket
  unknown : Option Bytes → Bucket

unfoldable pub data_of : Bucket → Option Bytes
data_of (known s) = some s
data_of (unknown o) = o
data_of _ = some []

-- apr_brigade_flatten: the data of the buckets in order, and a failed read is an error.
unfoldable pub contents : List Bucket → Option Bytes
unfolding data_of
contents [] = some []
contents (b ∷ bs) = do s ← data_of b; t ← contents bs; some (s ++ t)

-- response_filter_ctx
pub record FilterCtx : Type 0 where
  pub bb : List Bucket
  pub total : ℕ
  pub passthrough : Bool

-- What the filter gets from outside: the library's symbols, what its functions return, and
-- apr_strtoff in base 10.
pub record Env : Type 0 where
  pub library : Symbols
  pub rc : Call → ℤ
  pub engine : ParseCall → Option Bytes
  pub strtoff : Bytes → Option ℤ

-- The fields of request_rec that the filter reads.
pub record Exchange : Type 0 where
  pub request : Request
  pub content_type : Option Bytes
  pub header_only : Bool
  pub clength : ℤ

-- What changes from one call to the next, and the brigade that is passed on, if one is.
pub record State : Type 0 where
  pub process : Process
  pub ctx : Option FilterCtx
  pub out : Out

pub record Result : Type 0 where
  pub state : State
  pub sent : Option (List Bucket)

abbrev pub limit : Config → ℕ
limit conf = if is_pos conf.max_body_size then to_nat conf.max_body_size else 0

-- header_only, HTTP_NO_CONTENT or HTTP_NOT_MODIFIED
abbrev pub bodiless : Exchange → Out → Bool
bodiless e out = e.header_only || out.status == 204 || out.status == 304

-- limit > 0 && !bodiless
abbrev pub limited : Config → Exchange → Out → Bool
limited conf e out = ltb 0 (limit conf) && not (bodiless e out)

unfoldable pub declared : (Bytes → Option ℤ) → Exchange → Out → ℤ
declared strtoff e out = elim (out.content_length >>= strtoff) [
  | none ↦ e.clength
  | some hdr ↦ if gtb hdr e.clength then hdr else e.clength
]

abbrev pub is_metadata : Bucket → Bool
is_metadata (known s) = false
is_metadata (unknown o) = false
is_metadata _ = true

-- b->length, or what a read gives; 0 for a read that fails
abbrev pub blen : Bucket → ℕ
blen (known s) = length s
blen (unknown (some s)) = length s
blen _ = 0

-- What the loop over the buckets leaves: the context, the rest of the brigade, and its two flags.
pub record Taken : Type 0 where
  pub ctx : FilterCtx
  pub rest : List Bucket
  pub oversize : Bool
  pub seen_eos : Bool

-- ctx->total after a bucket; only data counts, and only under a limit.
abbrev pub added : Bool → ℕ → Bucket → ℕ
added counts total b = if counts && not (is_metadata b) then total + blen b else total

unfoldable pub collect : Bool → ℕ → FilterCtx → Bool → List Bucket → Taken
collect counts lim ctx seen [] = record { ctx = ctx; rest = []; oversize = false; seen_eos = seen }
collect counts lim ctx seen (eos ∷ bs) = collect counts lim ctx true bs
collect counts lim ctx seen (b ∷ bs) =
    let total = added counts ctx.total b in
    let later = collect counts lim (record ctx { bb = ctx.bb ++ b ∷ []; total = total }) seen bs in
    if counts && not (is_metadata b) && ltb lim total
    then record {
      ctx = record ctx { total = total };
      rest = b ∷ bs;
      oversize = true;
      seen_eos = seen;
    }
    else later

-- The brigade that is passed on leaves the context empty.
abbrev pub pass_on : State → FilterCtx → List Bucket → Result
pass_on s ctx bs = record {
  state = record s { ctx = some (record ctx { bb = [] }) };
  sent = some bs;
}

unfoldable pub oversized : Config → State → FilterCtx → List Bucket → Result
oversized conf s ctx rest =
    if is_nat 1 conf.on_oversize
    then pass_on (record s { out = record s.out { in_chain = false } }) ctx
        (error_bucket 502 ∷ eos ∷ [])
    else pass_on s (record ctx { passthrough = true }) (ctx.bb ++ rest)

-- flatten_brigade: none is its failure, which an empty body is too.
unfoldable pub flatten_brigade : Bool → List Bucket → Option Bytes
unfolding contents
flatten_brigade force bb =
    if force then none else (contents bb >>= λ s. if null s then none else some s)

-- The text up to the first NUL, which is what strlen and libgomesi see.
unfoldable pub c_string : Bytes → Bytes
c_string = take_while (λ c. not (c == 0))

-- The output of the parser; NULL fails the request.
unfoldable pub parsed : State → FilterCtx → Option Bytes → Result
parsed s ctx none =
    pass_on (record s { out = record s.out { status = 500; content_length = none } }) ctx (eos ∷ [])
parsed s ctx (some esi) =
    pass_on (record s { out = record s.out { content_length = none } }) ctx (known esi ∷ eos ∷ [])

unfoldable pub dispatched : Env → State → FilterCtx → Bytes → Dispatch → Result
unfolding parsed
dispatched env s ctx html (call c) = parsed s ctx (env.engine c)
dispatched env s ctx html unprotected = pass_on s ctx (known html ∷ eos ∷ [])
dispatched env s ctx html no_parser = parsed s ctx none

-- The end of the page: the flattened body, the initialisations, and the parser.
unfoldable pub parse_page : Env → Config → Exchange → State → FilterCtx → Bytes → Result
unfolding dispatched c_string
parse_page env conf e s ctx body =
    let html = c_string body in
    let p = (prepare env.library env.rc conf s.process).0 in
    let s' = record s { process = p } in
    if not p.esi.parse && not p.esi.parse_with_config
    then pass_on s' ctx (known html ∷ eos ∷ [])
    else dispatched env s' ctx html (dispatch p.esi conf e.request html)

unfoldable pub finish : Env → Config → Exchange → State → FilterCtx → Option Bytes → Result
unfolding parse_page
finish env conf e s ctx none = pass_on s ctx (ctx.bb ++ eos ∷ [])
finish env conf e s ctx (some body) = parse_page env conf e s ctx body

unfoldable pub after_collect : Env → Config → Exchange → State → Taken → Result
unfolding oversized finish flatten_brigade
after_collect env conf e s t =
    if t.oversize
    then oversized conf s t.ctx t.rest
    else if t.seen_eos
    then finish env conf e s t.ctx (flatten_brigade s.process.force_flatten_error t.ctx.bb)
    else record { state = record s { ctx = some t.ctx }; sent = none }

abbrev pub new_ctx : FilterCtx
new_ctx = record { bb = []; total = 0; passthrough = false }

abbrev pub ctx_of : State → FilterCtx
ctx_of s = or_else s.ctx new_ctx

-- From the creation of the context on.
unfoldable pub buffered : Env → Config → Exchange → State → List Bucket → Result
unfolding declared collect after_collect
buffered env conf e s bb =
    let ctx = ctx_of s in
    let counts = limited conf e s.out in
    if ctx.passthrough
    then record { state = record s { ctx = some ctx }; sent = some bb }
    else if counts && gtb (declared env.strtoff e s.out) (pos (limit conf))
    then oversized conf s ctx bb
    else after_collect env conf e s (collect counts (limit conf) ctx false bb)

-- ap_remove_output_filter, and the brigade goes on unchanged.
abbrev pub leave : State → Out → List Bucket → Result
leave s out bb = record {
  state = record s { out = record out { in_chain = false } };
  sent = some bb;
}

unfoldable pub mesi_response_filter : Env → Config → Exchange → State → List Bucket → Result
unfolding buffered
mesi_response_filter env conf e s bb =
    let parse_on_header = if is_set conf.parse_on_header then conf.parse_on_header else pos 0 in
    if not (is_true conf.enable_mesi)
    then record { state = s; sent = some bb }
    else if not (is_html_content e.content_type) || ltb 399 s.out.status
    then leave s s.out bb
    else if is_true parse_on_header && not (mesi_header_signals_esi s.out.edge_control)
    then leave s (record s.out { surrogate_capability = none }) bb
    else buffered env conf e s bb
