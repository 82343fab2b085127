-- ===== src/Php/Buffer.antt =====
-- php-ext/mesi.c: the writers into a buffer of a fixed size. What is written so far is the list of
-- its bytes, its length is *pos, and none is a return of 0.
pub mod Fits
use go_mesi.Base.{
  ℕ, ◌+◌, ◌-◌, List, [], ◌∷◌, ◌++◌, Option, none, some, Bytes, leb, if◌then◌else◌, length,
}
use go_mesi.Json.Text.{escape_byte}

-- What runs next, unless the step before has returned 0.
abbrev pub and_then : Option Bytes → (Bytes → Option Bytes) → Option Bytes
and_then none next = none
and_then (some out) next = next out

unfoldable pub mesi_putc : ℕ → Bytes → ℕ → Option Bytes
mesi_putc cap out c = if leb cap (length out + 1) then none else some (out ++ c ∷ [])

-- Calls of mesi_putc, up to the first that returns 0.
unfoldable pub put_all : ℕ → Bytes → Bytes → Option Bytes
unfolding mesi_putc
put_all cap out [] = some out
put_all cap out (c ∷ s) = and_then (mesi_putc cap out c) (λ o. put_all cap o s)

-- The branches on one byte are those of mesi_json_string in parse_json_config.h.
unfoldable pub mesi_json_append_escape : ℕ → Bytes → Bytes → Option Bytes
unfolding put_all
mesi_json_append_escape cap out [] = some out
mesi_json_append_escape cap out (c ∷ s) =
    and_then (put_all cap out (escape_byte c)) (λ o. mesi_json_append_escape cap o s)

unfoldable pub mesi_json_append_str : ℕ → Bytes → Bytes → Option Bytes
unfolding mesi_putc mesi_json_append_escape
mesi_json_append_str cap out src =
    and_then (mesi_putc cap out b'"')
      (λ o. and_then (mesi_json_append_escape cap o src) (λ q. mesi_putc cap q b'"'))

-- `text` is what vsnprintf formats; its NUL wants a place too.
unfoldable pub mesi_appendf : ℕ → Bytes → Bytes → Option Bytes
mesi_appendf cap out text =
    if leb cap (length out)
    then none
    else if leb (cap - length out) (length text)
    then none
    else some (out ++ text)

-- Steps up to the first that returns 0.
unfoldable pub in_order : List (Bytes → Option Bytes) → Bytes → Option Bytes
in_order [] out = some out
in_order (f ∷ fs) out = and_then (f out) (in_order fs)
