-- ===== src/Apache/Hosts.antt =====
-- servers/apache/mod_mesi.c: mesi_unicode_space, mesi_has_hostname_token, the loop of
-- set_allowed_hosts that cuts its line, and the loop of mesi_response_filter that joins the hosts
-- again for libgomesi.
pub mod Fields
pub mod White
pub mod Words
use go_mesi.Base.{
  ℕ, zero, suc, ◌+◌, Bool, true, false, not, ◌&&◌, ◌||◌, List, [], ◌∷◌, ◌++◌, Bytes, leb, ◌==◌,
  if◌then◌else◌, null, length, drop_while, take_while, is_blank,
}

-- The width of the whitespace rune at the start of the bytes, or 0. The tests on `len` are the
-- patterns.
unfoldable pub unicode_space : Bytes → ℕ
unicode_space (a ∷ b ∷ c ∷ s) =
    if a == 0xc2 && (b == 0x85 || b == 0xa0)
    then 2
    else if a == 0xe1 && b == 0x9a && c == 0x80
    then 3
    else if a == 0xe2
        && b == 0x80
        && (leb 0x80 c && leb c 0x8a || c == 0xa8 || c == 0xa9 || c == 0xaf)
    then 3
    else if a == 0xe2 && b == 0x81 && c == 0x9f
    then 3
    else if a == 0xe3 && b == 0x80 && c == 0x80
    then 3
    else 0
unicode_space (a ∷ b ∷ []) = if a == 0xc2 && (b == 0x85 || b == 0xa0) then 2 else 0
unicode_space _ = 0

-- ' ', '\t', '\r', '\n', '\v' and '\f'
abbrev pub is_space : ℕ → Bool
is_space c = c == b' ' || c == b'\t' || c == b'\r' || c == b'\n' || c == 0x0b || c == 0x0c

-- The loop of mesi_has_hostname_token. The number counts the bytes that `i` has jumped over.
unfoldable pub token_from : ℕ → Bytes → Bool
token_from k [] = false
token_from (suc k) (c ∷ s) = token_from k s
token_from zero (c ∷ s) = elim (is_space c) [
  | true ↦ token_from 0 s
  | false ↦ elim (unicode_space (c ∷ s)) [ zero ↦ true | suc w ↦ token_from w s ]
]

unfoldable pub has_hostname_token : Bytes → Bool
has_hostname_token s = token_from 0 s

-- One round skips blanks and takes a token; a round of more fuel than the line is long is left.
unfoldable pub cut_hosts : ℕ → Bytes → List Bytes
cut_hosts zero s = []
cut_hosts (suc fuel) s =
    let p = drop_while is_blank s in
    let host = take_while (λ c. not (is_blank c)) p in
    let rest = drop_while (λ c. not (is_blank c)) p in
    elim (null s) [
      | true ↦ []
      | false ↦ (if null host then [] else host ∷ []) ++ cut_hosts fuel rest
    ]

unfoldable pub hosts_of : Bytes → List Bytes
hosts_of s = cut_hosts (length s) s

-- for (i = 0; …) { if (i > 0) *p++ = ' '; memcpy(p, hosts[i], host_len); … }
unfoldable pub join_hosts : List Bytes → Bytes
join_hosts [] = []
join_hosts (h ∷ []) = h
join_hosts (h ∷ hs) = h ++ (b' ' ∷ join_hosts hs)
