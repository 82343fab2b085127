-- ===== src/Nginx/Body/Stream.antt =====
-- The calls of the filter for one response, and what they send together.
use go_mesi.Base.{
  ℕ, Bool, true, false, List, [], ◌∷◌, ◌++◌, some, Bytes, ◌==◌, if◌then◌else◌, length, append_assoc,
  ◌≡◌, refl, sym, ap, ◌∙◌, Bool-cases, inl, inr,
}
use go_mesi.Nginx.Config.{LocConf, on_oversize_error}
use go_mesi.Nginx.Body.{Buf, Ctx, Alloc, Sent, forwarded, kept, aborted, over_limit, body_filter}

pub record Call : Type 0 where
  pub alloc : Alloc
  pub chain : List Buf

-- Every allocation of the call succeeds.
pub record Allocates (a : Alloc) : Type 0 where
  pub data_of : (n : ℕ) → a.data_of n ≡ true
  pub link : a.link ≡ true
  pub buf : a.buf ≡ true

-- What is sent, in front of what later calls send.
abbrev pub emit : Sent → List Sent → List Sent
emit aborted later = aborted ∷ []
emit kept later = kept ∷ later
emit (forwarded bs) later = forwarded bs ∷ later

-- The calls in order; NGX_ERROR ends the response.
unfoldable pub run : (Bytes → Bytes) → LocConf → ℕ → Ctx → List Call → List Sent
run parse lcf pagesize ctx [] = []
run parse lcf pagesize ctx (c ∷ cs) =
    let r = (body_filter c.alloc parse true lcf pagesize (some ctx) c.chain).1 in
    emit r.sent (run parse lcf pagesize r.ctx cs)

abbrev pub received : List Call → List Buf
received [] = []
received (c ∷ cs) = c.chain ++ received cs

abbrev pub sent_bufs : List Sent → List Buf
sent_bufs [] = []
sent_bufs (forwarded bs ∷ l) = bs ++ sent_bufs l
sent_bufs (_ ∷ l) = sent_bufs l

abbrev pub aborts : List Sent → Bool
aborts [] = false
aborts (aborted ∷ l) = true
aborts (_ ∷ l) = aborts l

abbrev pub bytes_of : List Buf → Bytes
bytes_of [] = []
bytes_of (b ∷ bs) = b.bytes ++ bytes_of bs

-- What becomes of a response: its page is not complete, or is complete and within the limit, or is
-- over the limit and goes out unchanged, or is refused.
pub data Page : Type 0 where
  waiting whole unchanged : Bytes → Page
  refused : Page

-- The page that starts with these bytes and goes on with the buffers.
unfoldable pub page_of : LocConf → Bytes → List Buf → Page
page_of lcf acc [] = waiting acc
page_of lcf acc (b ∷ bs) =
    let all = acc ++ b.bytes in
    let more = page_of lcf all bs in
    if over_limit lcf (length all)
    then (if lcf.on_oversize == on_oversize_error then refused else unchanged (all ++ bytes_of bs))
    else if b.last_buf
    then whole all
    else more

-- What the calls must have sent for it.
abbrev pub Delivers : (Bytes → Bytes) → Page → List Sent → Type 0
Delivers parse (waiting acc) outs = (sent_bufs outs ≡ []) × (aborts outs ≡ false)
Delivers parse (whole all) outs =
    (sent_bufs outs ≡ record { bytes = parse all; last_buf = true } ∷ []) × (aborts outs ≡ false)
Delivers parse (unchanged all) outs = (bytes_of (sent_bufs outs) ≡ all) × (aborts outs ≡ false)
Delivers parse refused outs = (sent_bufs outs ≡ []) × (aborts outs ≡ true)

pub bytes_of-append : (a b : List Buf) → bytes_of (a ++ b) ≡ bytes_of a ++ bytes_of b
bytes_of-append [] b = refl
bytes_of-append (x ∷ a) b =
    ap (λ t. x.bytes ++ t) (bytes_of-append a b)
    ∙ sym (append_assoc x.bytes (bytes_of a) (bytes_of b))

-- The page behind a chain.
abbrev pub then_page : LocConf → Page → List Buf → Page
then_page lcf (waiting acc) bs = page_of lcf acc bs
then_page lcf (whole all) bs = whole all
then_page lcf (unchanged all) bs = unchanged (all ++ bytes_of bs)
then_page lcf refused bs = refused

pub page_of-append :
    (lcf : LocConf) (acc : Bytes) (a b : List Buf)
    → page_of lcf acc (a ++ b) ≡ then_page lcf (page_of lcf acc a) b
unfolding page_of
page_of-append lcf acc [] b = refl
page_of-append lcf acc (x ∷ a) b =
    let all = acc ++ x.bytes in
    let tail : (all ++ bytes_of (a ++ b)) ≡ (all ++ bytes_of a) ++ bytes_of b =
      ap (λ t. all ++ t) (bytes_of-append a b) ∙ sym (append_assoc all (bytes_of a) (bytes_of b)) in
    elim (Bool-cases (over_limit lcf (length all))) [
      | inl o ↦ elim (Bool-cases (lcf.on_oversize == on_oversize_error)) [
        | inl e ↦ rw (o, e) refl
        | inr e ↦ rw (o, e) (ap unchanged tail)
      ]
      | inr o ↦ elim (Bool-cases x.last_buf) [
        | inl l ↦ rw (o, l) refl
        | inr l ↦ rw (o, l) (page_of-append lcf all a b)
      ]
    ]
