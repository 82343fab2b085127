-- ===== src/Nginx/Setters.antt =====
-- servers/nginx/ngx_http_mesi_module.c: the setters of the directives that take a number. A setter
-- gives the configuration back, with the message that refuses the directive, if any.
pub mod Loops
pub mod Ranges
pub mod Exact
pub mod Keeps
use go_mesi.Base.{
  ℕ, ◌+◌, ◌-◌, ◌*◌, ◌/◌, Bool, not, [], ◌∷◌, Option, none, some, Bytes, ltb, ◌==◌, ℤ, pos, is_set,
  if◌then◌else◌, null, is_digit,
}
use go_mesi.Apache.Number.{step}
use go_mesi.Nginx.Config.{
  LocConf, Outcome, Refusal, duplicate, no_argument, not_digits, out_of_range, undefined,
  max_max_depth, max_timeout_seconds, max_max_response_size, max_max_concurrent_requests,
  max_max_workers,
}

pub data Scanned : Type 0 where
  ok : ℕ → Scanned
  err : Refusal → Scanned

-- The loop of set_max_depth and set_timeout: the range is tested after the multiplication.
unfoldable pub scan_after : ℕ → ℕ → Bytes → Scanned
unfolding step
scan_after max val [] = ok val
scan_after max val (c ∷ s) = if not (is_digit c) then err not_digits else elim (step val c) [
  | none ↦ err undefined
  | some v ↦ let rest = scan_after max v s in if ltb max v then err out_of_range else rest
]

-- The loop of the other setters: the guard stands before the multiplication.
unfoldable pub scan_before : ℕ → ℕ → Bytes → Scanned
unfolding step
scan_before max val [] = ok val
scan_before max val (c ∷ s) =
    if not (is_digit c)
    then err not_digits
    else if ltb ((max - (c - b'0')) / 10) val
    then err out_of_range
    else elim (step val c) [ none ↦ err undefined | some v ↦ scan_before max v s ]

abbrev pub refuse : LocConf → Refusal → Outcome
refuse lcf why = (lcf, some why)

-- The assignment behind the loop.
abbrev pub store : LocConf → Scanned → (ℕ → LocConf) → Outcome
store lcf (ok val) put = (put val, none)
store lcf (err why) put = refuse lcf why

unfoldable pub set_max_depth : LocConf → Bytes → Outcome
unfolding scan_after
set_max_depth lcf value =
    if is_set lcf.max_depth
    then refuse lcf duplicate
    else if null value
    then refuse lcf no_argument
    else store lcf (scan_after max_max_depth 0 value) (λ val. record lcf { max_depth = pos val })

-- if (val < 1), behind the loop
abbrev pub at_least_1 : Scanned → Scanned
at_least_1 (ok val) = if ltb val 1 then err out_of_range else ok val
at_least_1 (err why) = err why

unfoldable pub set_timeout : LocConf → Bytes → Outcome
unfolding scan_after
set_timeout lcf value =
    if is_set lcf.timeout_seconds
    then refuse lcf duplicate
    else if null value
    then refuse lcf no_argument
    else store lcf (at_least_1 (scan_after max_timeout_seconds 0 value))
        (λ val. record lcf { timeout_seconds = pos val })

unfoldable pub set_max_response_size : LocConf → Bytes → Outcome
unfolding scan_before
set_max_response_size lcf value =
    if is_set lcf.max_response_size
    then refuse lcf duplicate
    else if null value
    then refuse lcf no_argument
    else store lcf (scan_before max_max_response_size 0 value)
        (λ val. record lcf { max_response_size = pos val })

unfoldable pub set_max_concurrent_requests : LocConf → Bytes → Outcome
unfolding scan_before
set_max_concurrent_requests lcf value =
    if is_set lcf.max_concurrent_requests
    then refuse lcf duplicate
    else if null value
    then refuse lcf no_argument
    else store lcf (scan_before max_max_concurrent_requests 0 value)
        (λ val. record lcf { max_concurrent_requests = pos val })

unfoldable pub set_max_workers : LocConf → Bytes → Outcome
unfolding scan_before
set_max_workers lcf value =
    if is_set lcf.max_workers
    then refuse lcf duplicate
    else if null value
    then refuse lcf no_argument
    else store lcf (scan_before max_max_workers 0 value)
        (λ val. record lcf { max_workers = pos val })

-- MESI_MAX_MAX_BODY_SIZE is MESI_MAX_MAX_RESPONSE_SIZE.
unfoldable pub set_max_body_size : LocConf → Bytes → Outcome
unfolding scan_before
set_max_body_size lcf value =
    if is_set lcf.max_body_size
    then refuse lcf duplicate
    else if null value
    then refuse lcf no_argument
    else store lcf (scan_before max_max_response_size 0 value)
        (λ val. record lcf { max_body_size = pos val })

-- The directives of the commands table that take a number and have a setter of the module.
pub data Numeric : Type 0 where
  mesi_max_depth mesi_timeout mesi_max_response_size mesi_max_body_size : Numeric
  mesi_max_concurrent_requests mesi_max_workers : Numeric

-- The setter that the table names.
unfoldable pub set_number : Numeric → LocConf → Bytes → Outcome
unfolding set_max_depth set_timeout set_max_response_size set_max_body_size
    set_max_concurrent_requests set_max_workers
set_number mesi_max_depth lcf value = set_max_depth lcf value
set_number mesi_timeout lcf value = set_timeout lcf value
set_number mesi_max_response_size lcf value = set_max_response_size lcf value
set_number mesi_max_body_size lcf value = set_max_body_size lcf value
set_number mesi_max_concurrent_requests lcf value = set_max_concurrent_requests lcf value
set_number mesi_max_workers lcf value = set_max_workers lcf value
