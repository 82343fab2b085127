-- ===== src/Nginx/Served.antt =====
-- servers/nginx/ngx_http_mesi_module.c: the filters and parse() together, for one response.
use go_mesi.Base.{
  ℕ, ◌≤◌, is_some, Bool, true, not, ◌||◌, List, [], ◌∷◌, ◌++◌, none, some, Bytes, ◌≡◌, ap, arith,
  All, Bool-cases, inl, inr,
}
use mathlib.Core.Path.{subst}
use go_mesi.Apache.Config.{non_empty}
use go_mesi.Apache.Filter.{c_string}
use go_mesi.Apache.Config.Valid.{UpTo}
use go_mesi.Nginx.Config.{LocConf}
use go_mesi.Nginx.Config.Valid.{IsMerged}
use go_mesi.Nginx.Worker.{Worker, Call}
use go_mesi.Nginx.Head.{Response, head_filter}
use go_mesi.Nginx.Head
use go_mesi.Nginx.Head.Gates.{Eligible, taken, head_filter-Gated}
use go_mesi.Nginx.Body.{new_ctx}
use go_mesi.Nginx.Body.Stream
use go_mesi.Nginx.Body.Stream.{run, received, page_of, Delivers}
use go_mesi.Nginx.Body.Delivers.{body_filter-Delivers}
use go_mesi.Nginx.Parse.{Request, Output, page, null_str, undefined, parse}
use go_mesi.Nginx.Parse
use go_mesi.Nginx.Parse.Protects.{Protects}
use go_mesi.Nginx.Parse.Calls.{parse-Safe}
use go_mesi.Nginx.Parse.Answers
use go_mesi.Nginx.Parse.Caches.{first_calls}
use go_mesi.Nginx.Parse.Answers.{IsEntry, Answered, parse-Answered}

-- The bytes of the buffer that the body filter makes of what parse() returns, where C defines it; a
-- theorem on them excludes what leaves it undefined.
abbrev pub bytes_of : Output → Bytes
bytes_of (page s) = s
bytes_of null_str = []
bytes_of undefined = []

-- parse() as the body filter calls it, in a worker and for a request.
unfoldable pub parse_with :
    Parse.Alloc → (Call → Bytes) → LocConf → Request → Worker → Bytes → Bytes
parse_with alloc answer lcf r w input =
    bytes_of (parse alloc (λ c. some (answer c)) lcf r input w).output

-- The page is the answer to one call, to the entry point that is selected, with the protection of the
-- location.
abbrev pub AnsweredBy : (Call → Bytes) → LocConf → Request → Worker → Bytes → Bytes → Type 0
AnsweredBy answer lcf r w input out =
    (c : Call) × IsEntry lcf w.esi c × Protects lcf w.esi r (c_string input) c × (out ≡ answer c)

last_of : (P : Call → Type 0) (before : List Call) (c : Call) → All P (before ++ c ∷ []) → P c
last_of P [] c h = h.0
last_of P (x ∷ before) c h = last_of P before c h.1

-- From the settings of an accepted merge with a Redis database of at most two digits, for a request
-- with a Host and a response that the head filter takes, with every allocation of the body filter and
-- of parse(), but for the cache's blob, a success and libgomesi answering each call: however
-- the page is cut into buffers and chains, a page that ends within the limit is replaced, as one
-- last buffer, by libgomesi's answer for the whole page up to its first NUL, through the entry
-- point that the settings and the library select and with the allowlist and flags of the location;
-- a page over the limit goes out unchanged or is refused; and the response is one that is eligible
-- for ESI.
pub served :
    (lcf : LocConf) (resp : Response) (r : Request) (w : Worker) (halloc : Head.Alloc)
    (palloc : Parse.Alloc) (answer : Call → Bytes) (pagesize : ℕ) (cs : List Stream.Call)
    → IsMerged lcf
    → (head_filter halloc w.esi.parse_with_config lcf resp none).ctx ≡ some new_ctx
    → Answers.Allocates palloc
    → UpTo 99 lcf.cache_redis_db
    → is_some r.host ≡ true
    → 1 ≤ pagesize
    → All (λ c. Stream.Allocates c.alloc) cs
    → Eligible lcf w.esi.parse_with_config resp
      × Delivers
          (parse_with palloc answer lcf r w)
          (page_of lcf [] (received cs))
          (run (parse_with palloc answer lcf r w) lcf pagesize new_ctx cs)
      × ((html : Bytes) → AnsweredBy answer lcf r w html (parse_with palloc answer lcf r w html))
unfolding parse_with
served lcf resp r w halloc palloc answer pagesize cs merged took good db host sized links =
    let pwc = w.esi.parse_with_config in
    let eligible =
      taken lcf pwc resp (head_filter halloc pwc lcf resp none)
        (head_filter-Gated halloc pwc lcf resp).0 took in
    (
      eligible,
      body_filter-Delivers (parse_with palloc answer lcf r w) lcf pagesize cs eligible.enabled sized
          links,
      λ html.
          let (c, entry, calls, out) =
            parse-Answered palloc answer lcf r html w good merged db host (
              enforceable w.esi.parse_with_config_ex pwc (non_empty lcf.allowed_hosts)
                eligible.enforced) in
          let safe = parse-Safe palloc (λ c. some (answer c)) lcf r html w in
          (
            c,
            entry,
            last_of (Protects lcf w.esi r (c_string html)) (first_calls palloc lcf w) c
                (subst (All (Protects lcf w.esi r (c_string html))) calls safe.0),
            ap bytes_of out,
          ),
    )
  where
    enforceable : (a b n : Bool) → (n ≡ true → b ≡ true) → (a || b || not n) ≡ true
    enforceable a b n h = elim (Bool-cases n) [
      | inl e ↦ rw (h e) (ground arith)
      | inr e ↦ rw e (ground arith)
    ]
