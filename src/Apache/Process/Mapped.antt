-- ===== src/Apache/Process/Mapped.antt =====
-- The pointers into libgomesi are used only while the library is loaded.
use mathlib.Core.Path.{subst}
use go_mesi.Base.{true, false, Option, none, some, Bytes, ◌≡◌, refl, sym, ap, Bool-cases, inl, inr}
use go_mesi.Base.{◌↔◌}
use go_mesi.Apache.Process.{mesi_child_cleanup}
use go_mesi.Apache.Process.{Symbols, no_symbols, Process, usable, mesi_child_init}

-- The pointers that are not NULL are symbols of the library.
pub record Among (l e : Symbols) : Type 0 where
  pub parse : e.parse ≡ true → l.parse ≡ true
  pub parse_with_config : e.parse_with_config ≡ true → l.parse_with_config ≡ true
  pub parse_with_config_ex : e.parse_with_config_ex ≡ true → l.parse_with_config_ex ≡ true
  pub parse_with_config_ctx : e.parse_with_config_ctx ≡ true → l.parse_with_config_ctx ≡ true
  pub parse_json : e.parse_json ≡ true → l.parse_json ≡ true
  pub free_string : e.free_string ≡ true → l.free_string ≡ true
  pub init_cache : e.init_cache ≡ true → l.init_cache ≡ true
  pub init_cache_with_config : e.init_cache_with_config ≡ true → l.init_cache_with_config ≡ true
  pub free_cache : e.free_cache ≡ true → l.free_cache ≡ true
  pub init_http_client : e.init_http_client ≡ true → l.init_http_client ≡ true
  pub free_http_client : e.free_http_client ≡ true → l.free_http_client ≡ true

-- A loaded library is usable, and without it every pointer is NULL.
pub record Sound (l : Symbols) (p : Process) : Type 0 where
  pub among : Among l p.esi
  pub usable_when_loaded : p.go_module ≡ true → usable p.esi ≡ true
  pub null_when_not : p.go_module ≡ false → p.esi ≡ no_symbols

no_symbols-Among : (l : Symbols) → Among l no_symbols
no_symbols-Among l = record {
  parse = λ e. absurd (cc);
  parse_with_config = λ e. absurd (cc);
  parse_with_config_ex = λ e. absurd (cc);
  parse_with_config_ctx = λ e. absurd (cc);
  parse_json = λ e. absurd (cc);
  free_string = λ e. absurd (cc);
  init_cache = λ e. absurd (cc);
  init_cache_with_config = λ e. absurd (cc);
  free_cache = λ e. absurd (cc);
  init_http_client = λ e. absurd (cc);
  free_http_client = λ e. absurd (cc);
}

self-Among : (l : Symbols) → Among l l
self-Among l = record {
  parse = λ e. e;
  parse_with_config = λ e. e;
  parse_with_config_ex = λ e. e;
  parse_with_config_ctx = λ e. e;
  parse_json = λ e. e;
  free_string = λ e. e;
  init_cache = λ e. e;
  init_cache_with_config = λ e. e;
  free_cache = λ e. e;
  init_http_client = λ e. e;
  free_http_client = λ e. e;
}

-- The symbols of a library that may be missing.
abbrev pub symbols_of : Option Symbols → Symbols
symbols_of none = no_symbols
symbols_of (some l) = l

unloaded-Sound : (l : Symbols) (p : Process) → p.esi ≡ no_symbols → p.go_module ≡ false → Sound l p
unloaded-Sound l p e g = record {
  among = subst (Among l) (sym e) (no_symbols-Among l);
  usable_when_loaded = λ h. absurd (cc);
  null_when_not = λ h. e;
}

-- From pointers that are all NULL, whatever the library exports, child init leaves no pointer into a
-- library that it has closed, and keeps a library only with a parse function and FreeString.
pub mesi_child_init-Sound :
    (env : Option Bytes) (library : Option Symbols) (p : Process)
    → p.esi ≡ no_symbols
    → Sound (symbols_of library) (mesi_child_init env library p).0
unfolding mesi_child_init
mesi_child_init-Sound env none p e = unloaded-Sound no_symbols _ e refl
mesi_child_init-Sound env (some found) p e = elim (Bool-cases (usable found)) [
  | inl u ↦ rw u (record {
    among = self-Among found;
    usable_when_loaded = λ h. u;
    null_when_not = λ h. absurd (cc);
  })
  | inr u ↦ rw u (unloaded-Sound found _ refl refl)
]

-- After child cleanup the pointers are sound exactly if EsiInitHTTPClient and EsiFreeHTTPClient were
-- NULL before: these two it leaves, into the closed library.
pub mesi_child_cleanup-Sound :
    (l : Symbols) (p : Process)
    → Sound l (mesi_child_cleanup p).0
      ↔ ((p.esi.init_http_client ≡ false) × (p.esi.free_http_client ≡ false))
unfolding mesi_child_cleanup
mesi_child_cleanup-Sound l p = (
  λ s. (
    ap (λ (e : Symbols). e.init_http_client) (s.null_when_not refl),
    ap (λ (e : Symbols). e.free_http_client) (s.null_when_not refl),
  ),
  λ (i, f). unloaded-Sound l _ (rw (i, f) refl) refl,
)
