-- ===== src/Nginx/Headers.antt =====
-- servers/nginx/ngx_http_mesi_module.c: the scan of an Edge-control value, and the bounded search
-- for a substring. An ngx_str_t is the list of its len bytes.
pub mod Agree
use go_mesi.Base.{
  ℕ, zero, suc, ◌==◌, ◌&&◌, not, codes, to_lower, List, Bool, true, false, ◌||◌, [], ◌∷◌, Bytes,
  ltb, if◌then◌else◌, bytes_eq, null, length, take, drop, take_while, drop_while,
}

-- The test that stands in both loops over the white space of an element.
abbrev pub is_white : ℕ → Bool
is_white b = b == b' ' || b == b'\t' || b == b'\r' || b == b'\n' || b == 0x0b || b == 0x0c

-- while (tail > begin && …) tail--;
unfoldable pub drop_tail : Bytes → Bytes
drop_tail [] = []
drop_tail (b ∷ s) = elim (drop_tail s) [
  | [] ↦ if is_white b then [] else b ∷ []
  | x ∷ kept ↦ b ∷ x ∷ kept
]

-- ngx_strncasecmp(s, t, n) == 0, for texts that have n bytes
unfoldable pub equal_for : ℕ → Bytes → Bytes → Bool
equal_for zero s t = true
equal_for (suc n) (b ∷ s) (x ∷ t) = to_lower b == to_lower x && equal_for n s t
equal_for (suc n) _ _ = false

unfoldable pub is_dca_esi : Bytes → Bool
unfolding equal_for
is_dca_esi s = length s == 7 && equal_for 7 s (codes "dca=esi")

-- for (;;): the fuel is the number of rounds; `start` moves behind the next comma.
unfoldable pub signals_round : ℕ → Bytes → Bool
unfolding drop_tail is_dca_esi
signals_round zero s = false
signals_round (suc fuel) s =
    let rest = drop_while (λ b. not (b == b',')) s in
    let later = signals_round fuel (drop 1 rest) in
    if is_dca_esi (drop_tail (drop_while is_white (take_while (λ b. not (b == b',')) s)))
    then true
    else if null rest
    then false
    else later

unfoldable pub mesi_header_signals_esi : Bytes → Bool
unfolding signals_round
mesi_header_signals_esi value =
    if null value then false else signals_round (suc (length value)) value

-- for (i = 0; i + nlen <= haystack->len; i++): the haystack from i on
unfoldable pub ngx_http_mesi_contains : Bytes → Bytes → Bool
ngx_http_mesi_contains [] needle = null needle
ngx_http_mesi_contains (c ∷ s) needle =
    let later = ngx_http_mesi_contains s needle in
    if ltb (length (c ∷ s)) (length needle)
    then false
    else bytes_eq (take (length needle) (c ∷ s)) needle || later
