-- ===== src/Apache/Filter/Closed.antt =====
-- The answers that the filter may give for a page, and the responses that it leaves alone.
use go_mesi.Base.{Bool, true, false, List, [], ◌∷◌, none, some, Bytes, ◌≡◌, refl}
use go_mesi.Apache.Config.{Config}
use go_mesi.Apache.Dispatch.{Request, ParseCall, Dispatch, call}
use go_mesi.Apache.Dispatch.Protected.{Protected, Present}
use go_mesi.Apache.Filter.{Bucket, eos, known, Env, Exchange, State, Result, mesi_response_filter}
use go_mesi.Apache.Filter.Gates.{eligible, filter_gates}
use go_mesi.Apache.Filter.Serves.{Serves, Ready, buffered-Serves}
use go_mesi.Apache.Filter.Collect.{EosLast}

-- The page itself, the output of a protected call of a function that the library has, or a failed
-- request without a body.
pub data Answers (env : Env) (conf : Config) (r : Request) (page : Bytes) : Result → Type 0 where
  untouched : (a : Result) → a.sent ≡ some (known page ∷ eos ∷ []) → Answers env conf r page a
  replaced :
      (a : Result) (c : ParseCall) (esi : Bytes)
      → Protected conf r c
      → Present a.state.process.esi (call c)
      → env.engine c ≡ some esi
      → a.sent ≡ some (known esi ∷ eos ∷ [])
      → Answers env conf r page a
  refused :
      (a : Result)
      → a.sent ≡ some (eos ∷ [])
      → a.state.out.status ≡ 500
      → a.state.out.content_length ≡ none
      → Answers env conf r page a

abbrev pub Filtered : Env → Config → Exchange → State → List Bucket → Bool → Result → Type 0
Filtered env conf e s bb true r = Serves env conf e s bb r
Filtered env conf e s bb false r = (r.sent ≡ some bb) × (r.state.ctx ≡ s.ctx)

-- For a brigade whose EOS, if any, stands last, and a state in which the held buckets fit the limit
-- or all were passed on: only an HTML response below 400 of a server with EnableMesi On, whose
-- headers signal ESI if MesiParseOnHeader asks for it, is processed, and then the call does one of
-- the four things of Serves; every other brigade goes on unchanged, with nothing kept of it.
pub mesi_response_filter-Filtered :
    (env : Env) (conf : Config) (e : Exchange) (s : State) (bb : List Bucket)
    → EosLast bb
    → Ready conf e s
    → Filtered env conf e s bb (eligible conf e s.out) (mesi_response_filter env conf e s bb)
mesi_response_filter-Filtered env conf e s bb last ready =
    filter_gates env conf e s bb (Filtered env conf e s bb) (refl, refl) (refl, refl) (refl, refl)
      (buffered-Serves env conf e s bb last ready)
