-- ===== src/Php/Hosts.antt =====
-- php-ext/mesi.c: mesi_unicode_ws_len and mesi_allowed_hosts_has_token, the test that allowed_hosts
-- names a host.
pub mod Agree
use go_mesi.Base.{
  ℕ, zero, suc, Bool, true, false, ◌&&◌, ◌||◌, [], ◌∷◌, Bytes, leb, ◌==◌, if◌then◌else◌,
}

-- p[k] of a C string: the NUL behind its end
abbrev pub byte_at : ℕ → Bytes → ℕ
byte_at k [] = 0
byte_at zero (c ∷ s) = c
byte_at (suc k) (c ∷ s) = byte_at k s

unfoldable pub mesi_unicode_ws_len : Bytes → ℕ
mesi_unicode_ws_len p =
    if byte_at 0 p == 0xc2 && (byte_at 1 p == 0x85 || byte_at 1 p == 0xa0)
    then 2
    else if byte_at 0 p == 0xe1 && byte_at 1 p == 0x9a && byte_at 2 p == 0x80
    then 3
    else if byte_at 0 p == 0xe2
        && byte_at 1 p == 0x80
        && (leb 0x80 (byte_at 2 p) && leb (byte_at 2 p) 0x8a
            || byte_at 2 p == 0xa8
            || byte_at 2 p == 0xa9
            || byte_at 2 p == 0xaf)
    then 3
    else if byte_at 0 p == 0xe2 && byte_at 1 p == 0x81 && byte_at 2 p == 0x9f
    then 3
    else if byte_at 0 p == 0xe3 && byte_at 1 p == 0x80 && byte_at 2 p == 0x80
    then 3
    else 0

-- p[0] == 0xC2 || …
abbrev pub starts_space : ℕ → Bool
starts_space c = c == 0xc2 || c == 0xe1 || c == 0xe2 || c == 0xe3

-- while (*p): the number counts the bytes that p has jumped over.
unfoldable pub has_token_from : ℕ → Bytes → Bool
unfolding mesi_unicode_ws_len
has_token_from k [] = false
has_token_from (suc k) (c ∷ s) = has_token_from k s
has_token_from zero (c ∷ s) = elim (c == b' ') [
  | true ↦ has_token_from 0 s
  | false ↦ elim (starts_space c) [
    | true ↦ elim (mesi_unicode_ws_len (c ∷ s)) [ zero ↦ true | suc w ↦ has_token_from w s ]
    | false ↦ true
  ]
]

unfoldable pub mesi_allowed_hosts_has_token : Bytes → Bool
unfolding has_token_from
mesi_allowed_hosts_has_token s = has_token_from 0 s
