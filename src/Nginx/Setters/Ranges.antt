-- ===== src/Nginx/Setters/Ranges.antt =====
-- The field and the range of each directive that takes a number, and what its setter finds.
use go_mesi.Base.{
  ℕ, ◌+◌, ◌*◌, ◌≤◌, ◌<◌, Bytes, ltb, ℤ, pos, is_set, null, is_digit, if◌then◌else◌, Each, ◌≡◌, ◌⊎◌,
  inl, inr, refl, arith, Bool-cases,
}
use go_mesi.Apache.Number.{int64_max}
use go_mesi.Apache.Number.Numeral.{value}
use go_mesi.Nginx.Setters.Loops.{BadByte, TooLarge, Reads, scan_before-Reads, scan_after-before}
use go_mesi.Nginx.Config.{
  LocConf, duplicate, no_argument, not_digits, out_of_range, max_max_depth, max_timeout_seconds,
  max_max_response_size, max_max_concurrent_requests, max_max_workers,
}
use go_mesi.Nginx.Setters.{
  Scanned, ok, err, scan_after, scan_before, at_least_1, store, refuse, Numeric, mesi_max_depth,
  mesi_timeout, mesi_max_response_size, mesi_max_body_size, mesi_max_concurrent_requests,
  mesi_max_workers, set_max_depth, set_timeout, set_max_response_size, set_max_body_size,
  set_max_concurrent_requests, set_max_workers, set_number,
}

-- The field that a directive sets, and its documented range.
unfoldable pub field_of : Numeric → LocConf → ℤ
field_of mesi_max_depth lcf = lcf.max_depth
field_of mesi_timeout lcf = lcf.timeout_seconds
field_of mesi_max_response_size lcf = lcf.max_response_size
field_of mesi_max_body_size lcf = lcf.max_body_size
field_of mesi_max_concurrent_requests lcf = lcf.max_concurrent_requests
field_of mesi_max_workers lcf = lcf.max_workers

unfoldable pub with_field : Numeric → LocConf → ℕ → LocConf
with_field mesi_max_depth lcf v = record lcf { max_depth = pos v }
with_field mesi_timeout lcf v = record lcf { timeout_seconds = pos v }
with_field mesi_max_response_size lcf v = record lcf { max_response_size = pos v }
with_field mesi_max_body_size lcf v = record lcf { max_body_size = pos v }
with_field mesi_max_concurrent_requests lcf v = record lcf { max_concurrent_requests = pos v }
with_field mesi_max_workers lcf v = record lcf { max_workers = pos v }

abbrev pub lowest : Numeric → ℕ
lowest mesi_timeout = 1
lowest _ = 0

abbrev pub highest : Numeric → ℕ
highest mesi_max_depth = max_max_depth
highest mesi_timeout = max_timeout_seconds
highest mesi_max_response_size = max_max_response_size
highest mesi_max_body_size = max_max_response_size
highest mesi_max_concurrent_requests = max_max_concurrent_requests
highest mesi_max_workers = max_max_workers

pub scanned : Numeric → Bytes → Scanned
scanned mesi_max_depth s = scan_after max_max_depth 0 s
scanned mesi_timeout s = at_least_1 (scan_after max_timeout_seconds 0 s)
scanned mesi_max_response_size s = scan_before max_max_response_size 0 s
scanned mesi_max_body_size s = scan_before max_max_response_size 0 s
scanned mesi_max_concurrent_requests s = scan_before max_max_concurrent_requests 0 s
scanned mesi_max_workers s = scan_before max_max_workers 0 s

-- The setters have one shape.
pub set_number-scanned :
    (d : Numeric) (lcf : LocConf) (s : Bytes)
    → set_number d lcf s ≡ (
        if is_set (field_of d lcf)
        then refuse lcf duplicate
        else if null s
        then refuse lcf no_argument
        else store lcf (scanned d s) (with_field d lcf))
unfolding set_number set_max_depth set_timeout set_max_response_size set_max_body_size
    set_max_concurrent_requests set_max_workers field_of with_field scanned
set_number-scanned mesi_max_depth lcf s = refl
set_number-scanned mesi_timeout lcf s = refl
set_number-scanned mesi_max_response_size lcf s = refl
set_number-scanned mesi_max_body_size lcf s = refl
set_number-scanned mesi_max_concurrent_requests lcf s = refl
set_number-scanned mesi_max_workers lcf s = refl

-- The text starts with digits whose value is too large, or is a number that is too small.
abbrev pub OutOfRange : Numeric → Bytes → Type 0
OutOfRange d s = TooLarge (highest d) 0 s ⊎ (Each is_digit s × (value 0 s < lowest d))

abbrev pub Verdict : Numeric → Bytes → Scanned → Type 0
Verdict d s (ok v) =
    Each is_digit s × (v ≡ value 0 s) × (lowest d ≤ value 0 s) × (value 0 s ≤ highest d)
Verdict d s (err not_digits) = BadByte (highest d) 0 s
Verdict d s (err out_of_range) = OutOfRange d s
Verdict d s (err _) = ⊥

Reads-Verdict :
    (d : Numeric) (s : Bytes) (r : Scanned) → lowest d ≡ 0 → Reads (highest d) 0 s r → Verdict d s r
Reads-Verdict d s (ok v) e (digits, same, le) = (digits, same, omega arith, omega arith)
Reads-Verdict d s (err not_digits) e h = h
Reads-Verdict d s (err out_of_range) e h = inl h
Reads-Verdict d s (err duplicate) e h = absurd h
Reads-Verdict d s (err no_argument) e h = absurd h
Reads-Verdict d s (err _) e h = absurd h

timeout-Verdict :
    (s : Bytes) (r : Scanned)
    → Reads max_timeout_seconds 0 s r
    → Verdict mesi_timeout s (at_least_1 r)
timeout-Verdict s (ok v) (digits, same, le) = elim (Bool-cases (ltb v 1)) [
  | inl e ↦ rw e (inr (digits, ground arith))
  | inr e ↦ rw e (digits, same, ground arith, omega arith)
]
timeout-Verdict s (err not_digits) h = h
timeout-Verdict s (err out_of_range) h = inl h
timeout-Verdict s (err duplicate) h = absurd h
timeout-Verdict s (err no_argument) h = absurd h
timeout-Verdict s (err _) h = absurd h

scan_after-Reads :
    (max : ℕ) (s : Bytes) → 9 ≤ max → max * 10 + 9 ≤ int64_max → Reads max 0 s (scan_after max 0 s)
scan_after-Reads max s nine far =
    rw (scan_after-before max (omega arith) 0 s nine far (omega arith))
      (scan_before-Reads max (omega arith) 0 s nine (omega arith))

pub scanned-Verdict : (d : Numeric) (s : Bytes) → Verdict d s (scanned d s)
unfolding scanned
scanned-Verdict mesi_max_depth s =
    Reads-Verdict mesi_max_depth s _ refl (scan_after-Reads _ s (omega arith) (omega arith))
scanned-Verdict mesi_timeout s =
    timeout-Verdict s _ (scan_after-Reads _ s (omega arith) (omega arith))
scanned-Verdict mesi_max_response_size s =
    Reads-Verdict mesi_max_response_size s _ refl
      (scan_before-Reads _ (omega arith) 0 s (omega arith) (omega arith))
scanned-Verdict mesi_max_body_size s =
    Reads-Verdict mesi_max_body_size s _ refl
      (scan_before-Reads _ (omega arith) 0 s (omega arith) (omega arith))
scanned-Verdict mesi_max_concurrent_requests s =
    Reads-Verdict mesi_max_concurrent_requests s _ refl
      (scan_before-Reads _ (omega arith) 0 s (omega arith) (omega arith))
scanned-Verdict mesi_max_workers s =
    Reads-Verdict mesi_max_workers s _ refl
      (scan_before-Reads _ (omega arith) 0 s (omega arith) (omega arith))
