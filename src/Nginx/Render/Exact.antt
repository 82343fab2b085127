-- ===== src/Nginx/Render/Exact.antt =====
-- What is measured is what is written, and what is written is JSON.
use go_mesi.Base.{
  ℕ, zero, suc, ◌+◌, ◌*◌, ◌/◌, ◌^◌, ◌≤◌, ◌<◌, Bool, if◌then◌else◌, true, false, [], ◌∷◌, some,
  Bytes, ltb, ◌==◌, length, ◌≡◌, refl, ap, ◌∙◌, arith, Bool-cases, inl, inr, length-append,
}
use go_mesi.Json.Text.{json_string, escape, escape_byte}
use go_mesi.Json.Number.{digits, show_nat}
use go_mesi.Nginx.Render.{
  no_pool, mesi_json_escaped_len, mesi_json_write_escaped, mesi_json_append_str, len_from,
  mesi_json_uint_len, digits_of, backwards, mesi_json_write_uint, built, fill,
}

write_escaped-escape : (s : Bytes) → mesi_json_write_escaped s ≡ escape s
unfolding mesi_json_write_escaped escape escape_byte
write_escaped-escape [] = refl
write_escaped-escape (c ∷ s) = ground (arith, write_escaped-escape s)

escaped_len-length : (s : Bytes) → mesi_json_escaped_len s ≡ length (mesi_json_write_escaped s)
unfolding mesi_json_escaped_len mesi_json_write_escaped
escaped_len-length [] = refl
escaped_len-length (c ∷ s) = ground (arith, escaped_len-length s)

-- A string is written as the JSON string that the Apache module writes for it, and takes two bytes
-- more than was measured for its escaped form.
pub mesi_json_append_str-json_string :
    (s : Bytes)
    → (mesi_json_append_str s ≡ json_string (some s))
      × (length (mesi_json_append_str s) ≡ mesi_json_escaped_len s + 2)
unfolding mesi_json_append_str json_string
mesi_json_append_str-json_string s = (
  rw (write_escaped-escape s) refl,
  omega (arith, length-append (mesi_json_write_escaped s) (b'"' ∷ []), escaped_len-length s),
)

no_more : (v : ℕ) → (v / 10 == 0) ≡ true → ltb 0 (v / 10) ≡ false
no_more v h = ground arith

some_more : (v : ℕ) → (v / 10 == 0) ≡ false → ltb 0 (v / 10) ≡ true
some_more v h = ground arith

digits-backwards :
    (fuel v : ℕ) (out : Bytes) → v < fuel → backwards (digits_of fuel v) out ≡ digits fuel v out
unfolding digits digits_of backwards
digits-backwards zero v out h = absurd (omega arith)
digits-backwards (suc fuel) v out h = elim (Bool-cases (v / 10 == 0)) [
  | inl e ↦ rw (no_more v e) (rw e refl)
  | inr e ↦ rw (some_more v e) (rw e (digits-backwards fuel (v / 10) _ (ground arith)))
]

length-backwards : (ds out : Bytes) → length (backwards ds out) ≡ length ds + length out
unfolding backwards
length-backwards [] out = omega arith
length-backwards (d ∷ ds) out = omega (arith, length-backwards ds (d ∷ out))

len_from-digits_of : (fuel v : ℕ) → v ≤ fuel → len_from fuel v ≡ length (digits_of (suc fuel) v)
unfolding len_from digits_of
len_from-digits_of zero v h = rw (no_more v (ground arith)) (omega arith)
len_from-digits_of (suc fuel) v h =
    let later : v / 10 ≤ fuel → len_from fuel (v / 10) ≡ length (digits_of (suc fuel) (v / 10)) =
      len_from-digits_of fuel (v / 10) in
    elim (Bool-cases (ltb v 10)) [
      | inl e ↦ rw e (rw (no_more v (ground arith)) (omega arith))
      | inr e ↦ rw e (
          rw (some_more v (ground arith))
            (ap (λ (n : ℕ). 1 + n) (later (ground arith)) ∙ omega arith))
    ]

abbrev pub pow10 : ℕ → ℕ
pow10 zero = 1
pow10 (suc k) = 10 * pow10 k

pub len_from-bound : (fuel v k : ℕ) → v < pow10 (suc k) → len_from fuel v ≤ suc k
unfolding len_from
len_from-bound zero v k h = omega arith
len_from-bound (suc fuel) v zero h = ground arith
len_from-bound (suc fuel) v (suc k) h =
    let later = len_from-bound fuel (v / 10) k (omega arith) in ground arith

-- A number is written as the format %d writes it, in as many bytes as were measured, and a signed
-- 64-bit number needs no more than 19 of the 20 bytes of the buffer for its digits.
pub mesi_json_write_uint-show_nat :
    (v : ℕ)
    → v < 2 ^ 63
    → (mesi_json_write_uint v ≡ show_nat v)
      × (length (mesi_json_write_uint v) ≡ mesi_json_uint_len v)
      × (mesi_json_uint_len v ≤ 19)
unfolding mesi_json_write_uint mesi_json_uint_len show_nat
mesi_json_write_uint-show_nat v h = (
  digits-backwards (suc v) v [] (omega arith),
  omega (arith, length-backwards (digits_of (suc v) v) [], len_from-digits_of v v (omega arith)),
  len_from-bound v v 18 (omega arith),
)

-- What fits the buffer with its NUL is written.
pub fill-built : (total : ℕ) (text : Bytes) → length text + 1 ≤ total → fill total text ≡ built text
unfolding fill
fill-built total text h = elim (Bool-cases (ltb total (length text + 1))) [
  | inl e ↦ absurd (ground arith)
  | inr e ↦ rw e refl
]

-- What a builder returns is the text that it wrote.
pub fill-text :
    (buf : Bool) (total : ℕ) (text t : Bytes)
    → (if buf then fill total text else no_pool) ≡ built t
    → t ≡ text
unfolding fill
fill-text false total text t e = absurd cc
fill-text true total text t e = elim (Bool-cases (ltb total (length text + 1))) [
  | inl h ↦ (let g = rw h at e in absurd cc)
  | inr h ↦ (let g = rw h at e in cc)
]
