-- ===== src/Apache/Headers.antt =====
-- servers/apache/mod_mesi.c: the tests on headers, mesi_header_signals_esi and is_html_content, the
-- base URL, and the hook mesi_request_handler.
pub mod Scan
pub mod Signals
pub mod Html
use go_mesi.Base.{
  ℕ, zero, suc, ◌+◌, Bool, true, false, not, ◌&&◌, ◌||◌, List, [], ◌∷◌, ◌++◌, Option, none, some,
  Bytes, codes, ◌==◌, if◌then◌else◌, or_else, bytes_eq, null, length, drop, take_while, drop_while,
  is_blank, is_true, is_some, to_lower, ℤ, pos,
}
use go_mesi.Json.Number.{show_nat}
use go_mesi.Apache.Config.{Config, non_empty}
use go_mesi.Apache.Directive.{eq_ignore_case}

abbrev pub mesi_is_header_space : ℕ → Bool
mesi_is_header_space c =
    c == b' ' || c == b'\t' || c == b'\r' || c == b'\n' || c == 0x0b || c == 0x0c

-- while (end > start && mesi_is_header_space(end[-1])) end--;
unfoldable pub trim_end : Bytes → Bytes
trim_end [] = []
trim_end (c ∷ s) =
    let rest = trim_end s in if null rest && mesi_is_header_space c then [] else c ∷ rest

abbrev pub not_comma : ℕ → Bool
not_comma c = not (c == b',')

unfoldable pub is_signal : Bytes → Bool
is_signal s = eq_ignore_case s (codes "dca=esi")

-- for (;;): the fuel is the number of rounds.
unfoldable pub signals_from : ℕ → Bytes → Bool
unfolding trim_end is_signal
signals_from zero s = false
signals_from (suc fuel) s =
    let p = drop_while mesi_is_header_space s in
    let rest = drop_while not_comma p in
    let later = signals_from fuel (drop 1 rest) in
    if is_signal (trim_end (take_while not_comma p))
    then true
    else if null rest
    then false
    else later

-- A value has at most one element more than it has bytes.
unfoldable pub mesi_header_signals_esi : Option Bytes → Bool
unfolding signals_from
mesi_header_signals_esi none = false
mesi_header_signals_esi (some value) = signals_from (suc (length value)) value

-- strncasecmp(s, pat, length(pat)) == 0, for a pattern in lower case
unfoldable pub starts_ignore_case : Bytes → Bytes → Bool
starts_ignore_case [] s = true
starts_ignore_case (x ∷ pat) [] = false
starts_ignore_case (x ∷ pat) (c ∷ s) = to_lower c == x && starts_ignore_case pat s

abbrev pub ends_media_type : Bytes → Bool
ends_media_type [] = true
ends_media_type (c ∷ s) = c == b';' || c == b' ' || c == b'\t' || c == b'\r' || c == b'\n'

unfoldable pub is_html_content : Option Bytes → Bool
unfolding starts_ignore_case
is_html_content none = false
is_html_content (some ct) =
    let t = drop_while is_blank ct in
    starts_ignore_case (codes "text/html") t && ends_media_type (drop 9 t)

-- What build_base_url asks of the server: the fields of server_rec, and the results of
-- ap_http_scheme, ap_get_server_name and ap_get_server_port.
pub record Server : Type 0 where
  pub server_hostname : Option Bytes
  pub port : ℕ
  pub http_scheme : Bytes
  pub server_name : Option Bytes
  pub server_port : ℕ

unfoldable pub build_base_url : Server → Bytes
build_base_url r =
    let given = if r.port == 0 then r.server_port else r.port in
    let named = if is_some r.server_hostname then r.server_hostname else r.server_name in
    let host = if non_empty named then or_else named [] else codes "localhost" in
    let default_port = if bytes_eq r.http_scheme (codes "https") then 443 else 80 in
    let start = r.http_scheme ++ (codes "://" ++ host) in
    if given == default_port
    then start ++ codes "/"
    else start ++ (codes ":" ++ (show_nat given ++ codes "/"))

-- The response headers that the hook and the filter change, and the filters of the request.
pub record Out : Type 0 where
  pub surrogate_capability : Option Bytes
  pub content_length : Option Bytes
  pub edge_control : Option Bytes
  pub status : ℕ
  pub in_chain : Bool

unfoldable pub mesi_request_handler : Config → Out → Out
mesi_request_handler conf out =
    if is_true conf.enable_mesi
    then record out { surrogate_capability = some (codes "ESI/1.0"); in_chain = true }
    else out
