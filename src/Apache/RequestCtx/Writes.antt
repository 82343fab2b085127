-- ===== src/Apache/RequestCtx/Writes.antt =====
-- The steps of build_request_ctx_json never write outside the buffer, and what each appends.
use go_mesi.Base.{
  ℕ, zero, suc, ◌+◌, ◌*◌, ◌≤◌, ◌<◌, Bool, true, false, [], ◌∷◌, ◌++◌, Option, none, some, Bytes,
  codes, ltb, if◌then◌else◌, length, ◌>>=◌, ◌≡◌, refl, sym, ap, arith, Bool-cases, inl, inr,
  append_assoc, append-nil,
}
use mathlib.Core.Path.{subst}
use go_mesi.Json.Text.{escape_byte, escape}
use go_mesi.Apache.RequestCtx.{
  Buf, double_until, json_grow, put, grow_put, json_escape_append, comma_unless, put_header,
  put_cookie,
}

-- The result has the text, in a buffer of some capacity.
abbrev pub Written : Bytes → Option Buf → Type 0
Written t none = ⊥
Written t (some b) = (b.text ≡ t) × (1 ≤ b.cap)

-- A step that appends the text to every buffer, whatever is left of it.
abbrev pub Writes : (Buf → Option Buf) → Bytes → Type 0
Writes m t = (b : Buf) → 1 ≤ b.cap → Written (b.text ++ t) (m b)

need-double_until :
    (fuel need ncap : ℕ) → 1 ≤ ncap → need < ncap + fuel → need < double_until fuel need ncap
unfolding double_until
need-double_until zero need ncap h g = omega arith
need-double_until (suc fuel) need ncap h g =
    ground (arith, need-double_until fuel need (ncap * 2) (omega arith) (omega arith))

-- After json_grow there is room for what was asked, and for one byte more.
pub json_grow-room :
    (need : ℕ) (b : Buf)
    → 1 ≤ b.cap
    → (length b.text + need < (json_grow need b).cap) × ((json_grow need b).text ≡ b.text)
unfolding json_grow
json_grow-room need b h =
    let enough =
      need-double_until (suc (length b.text + need)) (length b.text + need) (b.cap * 2)
        (omega arith) (omega arith) in
    elim (Bool-cases (ltb (length b.text + need) b.cap)) [
      | inl e ↦ rw e (ground arith, refl)
      | inr e ↦ rw e (enough, refl)
    ]

put-Writes :
    (s : Bytes) (b : Buf)
    → 1 ≤ b.cap
    → length b.text + length s ≤ b.cap
    → Written (b.text ++ s) (put s b)
unfolding put
put-Writes s b h room = elim (Bool-cases (ltb b.cap (length b.text + length s))) [
  | inl e ↦ absurd (ground arith)
  | inr e ↦ rw e (refl, h)
]

-- The bytes that follow a call of json_grow may be one more than it was asked for.
pub grow_put-Writes : (need : ℕ) (s : Bytes) → length s ≤ need + 1 → Writes (grow_put need s) s
unfolding grow_put
grow_put-Writes need s h b hb =
    let (room, same) = json_grow-room need b hb in
    let len : length (json_grow need b).text ≡ length b.text = ap length same in
    subst (λ t. Written (t ++ s) (put s (json_grow need b))) same
      (put-Writes s (json_grow need b) (omega arith) (omega (arith, len)))

Written-bind :
    (n : Buf → Option Buf) (t u : Bytes) (r : Option Buf)
    → Written t r
    → Writes n u
    → Written (t ++ u) (r >>= n)
Written-bind n t u none h g = h
Written-bind n t u (some b) (e, hb) g = subst (λ v. Written (v ++ u) (n b)) e (g b hb)

pub then_Writes :
    (m n : Buf → Option Buf) (t u : Bytes)
    → Writes m t
    → Writes n u
    → Writes (λ b. m b >>= n) (t ++ u)
then_Writes m n t u hm hn b hb =
    subst (λ v. Written v (m b >>= n)) (append_assoc b.text t u)
      (Written-bind n (b.text ++ t) u (m b) (hm b hb) hn)

pub nothing_Writes : Writes some []
nothing_Writes b hb = (sym (append-nil b.text), hb)

pub json_escape_append-Writes : (s : Bytes) → Writes (json_escape_append s) (escape s)
unfolding json_escape_append escape
json_escape_append-Writes [] = nothing_Writes
json_escape_append-Writes (c ∷ s) =
    then_Writes _ (json_escape_append s) (escape_byte c) (escape s)
      (grow_put-Writes (length (escape_byte c)) (escape_byte c) (omega arith))
      (json_escape_append-Writes s)

abbrev pub comma_text : Bool → Bytes
comma_text first = if first then [] else codes ","

comma_unless-Writes : (first : Bool) → Writes (comma_unless first) (comma_text first)
unfolding comma_unless
comma_unless-Writes true = nothing_Writes
comma_unless-Writes false = grow_put-Writes 1 (codes ",") (omega arith)

-- A fixed text that follows a call of json_grow, and the steps after it.
fixed_Writes :
    (need : ℕ) (s : Bytes) (n : Buf → Option Buf) (u : Bytes)
    → length s ≤ need + 1
    → Writes n u
    → Writes (λ b. grow_put need s b >>= n) (s ++ u)
fixed_Writes need s n u h hn = then_Writes _ n s u (grow_put-Writes need s h) hn

escaped_Writes :
    (s : Bytes) (n : Buf → Option Buf) (u : Bytes)
    → Writes n u
    → Writes (λ b. json_escape_append s b >>= n) (escape s ++ u)
escaped_Writes s n u hn = then_Writes _ n (escape s) u (json_escape_append-Writes s) hn

abbrev pub header_text : Bytes → Bytes → Bytes
header_text k v = codes "\"" ++ (escape k ++ (codes "\":\"" ++ (escape v ++ codes "\"")))

pub put_header-Writes :
    (first : Bool) (k v : Bytes)
    → Writes (put_header first k v) (comma_text first ++ header_text k v)
unfolding put_header
put_header-Writes first k v = then_Writes _ _ (comma_text first) _ (comma_unless-Writes first) (
    fixed_Writes 2 (codes "\"") _ _ (omega arith) (
      escaped_Writes k _ _ (
        fixed_Writes 3 (codes "\":\"") _ _ (omega arith)
          (escaped_Writes v _ _ (grow_put-Writes 1 (codes "\"") (omega arith))))))

abbrev pub cookie_text : Bytes → Bytes → Bytes
cookie_text name val =
    codes "{\"name\":\""
    ++ (escape name ++ (codes "\",\"value\":\"" ++ (escape val ++ codes "\"}")))

pub put_cookie-Writes :
    (first : Bool) (name val : Bytes)
    → Writes (put_cookie first name val) (comma_text first ++ cookie_text name val)
unfolding put_cookie
put_cookie-Writes first name val =
    then_Writes _ _ (comma_text first) _ (comma_unless-Writes first) (
      fixed_Writes 20 (codes "{\"name\":\"") _ _ (omega arith) (
        escaped_Writes name _ _ (
          fixed_Writes 11 (codes "\",\"value\":\"") _ _ (omega arith)
            (escaped_Writes val _ _ (grow_put-Writes 3 (codes "\"}") (omega arith))))))
