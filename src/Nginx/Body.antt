-- ===== src/Nginx/Body.antt =====
-- servers/nginx/ngx_http_mesi_module.c: ngx_http_html_mesi_body_filter. A chain is a list of
-- buffers, NULL the empty one; a buffer has the bytes between its pos and its last. Lengths stay
-- below 2 ^ 63, so that no sum of them and no cast to off_t wraps.
pub mod Grow
pub mod Keeps
pub mod Stream
pub mod Chain
pub mod Delivers
use go_mesi.Base.{
  ℕ, zero, suc, ◌+◌, ◌*◌, Bool, true, false, not, ◌&&◌, ◌||◌, List, [], ◌∷◌, ◌++◌, map, Option,
  none, some, Bytes, ltb, ◌==◌, ℤ, pos, is_pos, is_true, gtb, to_nat, if◌then◌else◌, null, length,
}
use go_mesi.Nginx.Config.{LocConf, on_oversize_error}

pub record Buf : Type 0 where
  pub bytes : Bytes
  pub last_buf : Bool

-- ngx_http_html_head_filter_ctx_t; accumulated.data is NULL exactly while the capacity is 0.
pub record Ctx : Type 0 where
  pub accumulated : Bytes
  pub capacity : ℕ
  pub done : Bool
  pub passthrough : Bool

-- The context that the head filter creates.
abbrev pub new_ctx : Ctx
new_ctx = record { accumulated = []; capacity = 0; done = false; passthrough = false }

-- Which allocations of one call succeed: the sizes of the page's buffer grow within a call, and a
-- link and an ngx_buf_t are allocated at most once.
pub record Alloc : Type 0 where
  pub data_of : ℕ → Bool
  pub link : Bool
  pub buf : Bool

-- What the filter does with a chain: it calls the next filter, returns NGX_OK, or NGX_ERROR.
pub data Sent : Type 0 where
  forwarded : List Buf → Sent
  kept : Sent
  aborted : Sent

-- What a call leaves: the context, the chain it was given, what it sent, and content_length_n if it
-- set it.
pub record Ran : Type 0 where
  pub ctx : Ctx
  pub left : List Buf
  pub sent : Sent
  pub content_length : Option ℕ

-- lcf->max_body_size > 0 && len > lcf->max_body_size
abbrev pub over_limit : LocConf → ℕ → Bool
over_limit lcf len = is_pos lcf.max_body_size && gtb (pos len) lcf.max_body_size

-- while (new_cap < new_len) new_cap *= 2; the fuel is the number of rounds.
unfoldable pub double_to : ℕ → ℕ → ℕ → ℕ
double_to zero new_len new_cap = new_cap
double_to (suc fuel) new_len new_cap =
    let more = double_to fuel new_len (new_cap * 2) in if ltb new_cap new_len then more else new_cap

-- The capacity for new_len bytes: doubled, and cut to the limit.
unfoldable pub new_capacity : LocConf → ℕ → ℕ → ℕ → ℕ
unfolding double_to
new_capacity lcf pagesize capacity new_len =
    let new_cap = double_to new_len new_len (if capacity == 0 then pagesize else capacity) in
    if over_limit lcf new_cap then to_nat lcf.max_body_size else new_cap

-- What the loop does with the bytes of a buffer.
pub data Absorbed : Type 0 where
  absorbed : Ctx → Absorbed
  oversize : Absorbed
  no_memory : Absorbed

unfoldable pub append_bytes : Alloc → LocConf → ℕ → Ctx → Bytes → Absorbed
unfolding new_capacity
append_bytes alloc lcf pagesize ctx bytes =
    let new_len = length ctx.accumulated + length bytes in
    let new_cap = new_capacity lcf pagesize ctx.capacity new_len in
    if ltb ctx.capacity new_len
    then (if alloc.data_of new_cap
        then absorbed (record ctx { accumulated = ctx.accumulated ++ bytes; capacity = new_cap })
        else no_memory)
    else absorbed (record ctx { accumulated = ctx.accumulated ++ bytes })

unfoldable pub absorb : Alloc → LocConf → ℕ → Ctx → Bytes → Absorbed
unfolding append_bytes
absorb alloc lcf pagesize ctx bytes =
    if not (null bytes) && not ctx.done
    then (if over_limit lcf (length ctx.accumulated + length bytes)
        then oversize
        else append_bytes alloc lcf pagesize ctx bytes)
    else absorbed ctx

-- The call ends without a length of the content.
abbrev pub stop : Ctx → List Buf → Sent → Ran
stop ctx left sent = record { ctx = ctx; left = left; sent = sent; content_length = none }

-- The body is over the limit at the buffer that `rest` starts with.
unfoldable pub oversized : Alloc → LocConf → Ctx → List Buf → Ran
oversized alloc lcf ctx rest =
    let passing = record ctx { passthrough = true } in
    if lcf.on_oversize == on_oversize_error
    then stop ctx rest aborted
    else if null ctx.accumulated
    then stop passing rest (forwarded rest)
    else if alloc.link && alloc.buf
    then stop passing rest (forwarded (record { bytes = ctx.accumulated; last_buf = false } ∷ rest))
    else stop passing rest aborted

-- The last buffer: the page is parsed, and one buffer with the result is sent.
unfoldable pub finish : Alloc → (Bytes → Bytes) → Ctx → List Buf → Ran
finish alloc parse ctx left =
    let parsed = parse ctx.accumulated in
    let over = record ctx { done = true } in
    if alloc.link && alloc.buf
    then record {
      ctx = over;
      left = left;
      sent = forwarded (record { bytes = parsed; last_buf = true } ∷ []);
      content_length = some (length parsed);
    }
    else stop over left aborted

-- buf->pos = buf->last
abbrev pub drained : Buf → Buf
drained b = record b { bytes = [] }

abbrev pub keep_first : Buf → Ran → Ran
keep_first b r = record r { left = drained b ∷ r.left }

-- for (cl = in; cl; cl = cl->next)
unfoldable pub chain_loop : Alloc → (Bytes → Bytes) → LocConf → ℕ → Ctx → List Buf → Ran
unfolding absorb oversized finish
chain_loop alloc parse lcf pagesize ctx [] = stop ctx [] kept
chain_loop alloc parse lcf pagesize ctx (b ∷ rest) = elim (absorb alloc lcf pagesize ctx b.bytes) [
  | no_memory ↦ stop ctx (b ∷ rest) aborted
  | oversize ↦ oversized alloc lcf ctx (b ∷ rest)
  | absorbed next ↦
      let later = chain_loop alloc parse lcf pagesize next rest in
      if b.last_buf && not next.done
      then finish alloc parse next (drained b ∷ rest)
      else keep_first b later
]

-- The chain goes to the next filter as it is.
abbrev pub pass_on : Ctx → List Buf → Ran
pass_on ctx chain = stop ctx chain (forwarded chain)

-- A request whose context is set, in a worker that has loaded libgomesi.
unfoldable pub filter_chain : Alloc → (Bytes → Bytes) → LocConf → ℕ → Ctx → List Buf → Ran
unfolding chain_loop
filter_chain alloc parse lcf pagesize ctx chain =
    if ctx.passthrough
    then pass_on ctx chain
    else if null chain
    then pass_on ctx []
    else chain_loop alloc parse lcf pagesize ctx chain

-- A call of the filter, with the context behind it: the context is none if the head filter has set none, `go_module` tells
-- whether libgomesi is loaded.
unfoldable pub body_filter :
    Alloc → (Bytes → Bytes) → Bool → LocConf → ℕ → Option Ctx → List Buf → Option Ctx × Ran
unfolding filter_chain
body_filter alloc parse go_module lcf pagesize none chain = (none, pass_on new_ctx chain)
body_filter alloc parse go_module lcf pagesize (some ctx) chain =
    if not (is_true lcf.enable_mesi) || not go_module
    then (some ctx, pass_on ctx chain)
    else (let r = filter_chain alloc parse lcf pagesize ctx chain in (some r.ctx, r))
