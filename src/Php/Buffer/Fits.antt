-- ===== src/Php/Buffer/Fits.antt =====
-- Each writer gives the longer text if it fits the buffer with a NUL, and returns 0 if it does not.
use go_mesi.Base.{
  ℕ, ◌<◌, Bool, true, false, List, [], ◌∷◌, ◌++◌, Option, none, some, Bytes, ltb, if◌then◌else◌,
  length, length-append, append_assoc, append-nil, ◌≡◌, refl, sym, ap, ◌∙◌, arith, Bool-cases, inl,
  inr,
}
use go_mesi.Json.Text.{escape_byte, escape, json_string}
use go_mesi.Apache.ParseConfig.{pstrcat}
use go_mesi.Php.Buffer.{
  and_then, mesi_putc, put_all, mesi_json_append_escape, mesi_json_append_str, mesi_appendf,
  in_order,
}

-- The text, if it and a NUL fit.
abbrev pub fits : ℕ → Bytes → Option Bytes
fits cap t = if ltb (length t) cap then some t else none

-- A step appends its text to every text that fits.
abbrev pub Writes : ℕ → (Bytes → Option Bytes) → Bytes → Type 0
Writes cap f t = (out : Bytes) → length out < cap → f out ≡ fits cap (out ++ t)

module _ (cap : ℕ) where
  fits-longer : (a b : Bytes) → ltb (length a) cap ≡ false → fits cap (a ++ b) ≡ none
  fits-longer a b h =
      let longer : ltb (length (a ++ b)) cap ≡ false = ground (arith, length-append a b) in
      rw longer refl

  -- A step behind a text.
  behind :
      (out a b : Bytes) (next : Bytes → Option Bytes)
      → Writes cap next b
      → and_then (fits cap (out ++ a)) next ≡ fits cap (out ++ (a ++ b))
  behind out a b next w = elim (Bool-cases (ltb (length (out ++ a)) cap)) [
    | inl e ↦ rw e (w (out ++ a) (ground arith) ∙ ap (fits cap) (append_assoc out a b))
    | inr e ↦ rw e (sym (fits-longer (out ++ a) b e) ∙ ap (fits cap) (append_assoc out a b))
  ]

  pub nothing-Writes : Writes cap some []
  nothing-Writes out h =
      let room : ltb (length out) cap ≡ true = ground arith in rw (append-nil out, room) refl

  pub then-Writes :
      (f next : Bytes → Option Bytes) (a b : Bytes)
      → Writes cap f a
      → Writes cap next b
      → Writes cap (λ out. and_then (f out) next) (a ++ b)
  then-Writes f next a b w v out h = ap (λ o. and_then o next) (w out h) ∙ behind out a b next v

  putc-Writes : (c : ℕ) → Writes cap (λ out. mesi_putc cap out c) (c ∷ [])
  unfolding mesi_putc
  putc-Writes c out h = ground (arith, length-append out (c ∷ []))

  put_all-Writes : (s : Bytes) → Writes cap (λ out. put_all cap out s) s
  unfolding put_all
  put_all-Writes [] = nothing-Writes
  put_all-Writes (c ∷ s) =
      then-Writes (λ out. mesi_putc cap out c) (λ o. put_all cap o s) (c ∷ []) s (putc-Writes c)
        (put_all-Writes s)

  append_escape-Writes :
      (s : Bytes) → Writes cap (λ out. mesi_json_append_escape cap out s) (escape s)
  unfolding mesi_json_append_escape escape
  append_escape-Writes [] = nothing-Writes
  append_escape-Writes (c ∷ s) =
      then-Writes (λ out. put_all cap out (escape_byte c)) (λ o. mesi_json_append_escape cap o s)
        (escape_byte c) (escape s) (put_all-Writes (escape_byte c)) (append_escape-Writes s)

  pub append_str-Writes :
      (s : Bytes) → Writes cap (λ out. mesi_json_append_str cap out s) (json_string (some s))
  unfolding mesi_json_append_str json_string
  append_str-Writes s =
      then-Writes (λ out. mesi_putc cap out b'"')
        (λ o. and_then (mesi_json_append_escape cap o s) (λ q. mesi_putc cap q b'"')) (b'"' ∷ [])
        (escape s ++ b'"' ∷ []) (putc-Writes b'"')
        (then-Writes (λ o. mesi_json_append_escape cap o s) (λ q. mesi_putc cap q b'"') (escape s)
          (b'"' ∷ []) (append_escape-Writes s) (putc-Writes b'"'))

  pub appendf-Writes : (t : Bytes) → Writes cap (λ out. mesi_appendf cap out t) t
  unfolding mesi_appendf
  appendf-Writes t out h = ground (arith, length-append out t)

  -- A step that a flag switches.
  pub if-Writes :
      (b : Bool) (f : Bytes → Option Bytes) (t : Bytes)
      → Writes cap f t
      → Writes cap (if b then f else some) (if b then t else [])
  if-Writes true f t w = w
  if-Writes false f t w = nothing-Writes

  -- The steps write the parts.
  abbrev pub AllWrites : List (Bytes → Option Bytes) → List Bytes → Type 0
  AllWrites [] [] = Unit
  AllWrites (f ∷ fs) (t ∷ ts) = Writes cap f t × AllWrites fs ts
  AllWrites [] (t ∷ ts) = ⊥
  AllWrites (f ∷ fs) [] = ⊥

  pub in_order-Writes :
      (fs : List (Bytes → Option Bytes)) (ts : List Bytes)
      → AllWrites fs ts
      → Writes cap (in_order fs) (pstrcat ts)
  unfolding in_order
  in_order-Writes [] [] h = nothing-Writes
  in_order-Writes [] (t ∷ ts) h = absurd h
  in_order-Writes (f ∷ fs) [] h = absurd h
  in_order-Writes (f ∷ fs) (t ∷ ts) (w, h) =
      then-Writes f (in_order fs) t (pstrcat ts) w (in_order-Writes fs ts h)
