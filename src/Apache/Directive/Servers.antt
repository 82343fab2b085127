-- ===== src/Apache/Directive/Servers.antt =====
-- servers/apache/mod_mesi.c: set_cache_redis_addr and set_cache_memcached_servers.
pub mod Entry
pub mod Entries
use go_mesi.Base.{
  ℕ, zero, suc, ◌+◌, Bool, true, false, not, ◌&&◌, ◌||◌, List, [], ◌∷◌, ◌++◌, Option, none, some,
  Bytes, ltb, leb, if◌then◌else◌, null, length, drop_while, take_while, any_byte, is_blank,
  is_control, ◌==◌,
}
use go_mesi.Apache.Number.{Parsed, ok, err, parse_nonneg_int_bounded}
use go_mesi.Apache.Config.{Config, max_memcached_servers}
use go_mesi.Apache.Config.Valid.{unsafe_addr}
use go_mesi.Apache.Directive.{
  Outcome, Refusal, accept, refuse, addr_missing, addr_character, addr_shape, addr_port,
  servers_missing, servers_quoted, servers_character, servers_shape, servers_port, servers_too_many,
  servers_empty,
}

-- The parts before and after the last ':' of a text, if it has one.
unfoldable pub split_last_colon : Bytes → Option (Bytes × Bytes)
split_last_colon [] = none
split_last_colon (c ∷ s) = elim (split_last_colon s) [
  | some (host, port) ↦ some (c ∷ host, port)
  | none ↦ if c == b':' then some ([], s) else none
]

pub data Shape : Type 0 where
  no_host_port bad_port host_port : Shape

-- The tests on the colon and on the port behind it.
abbrev pub port_shape : Parsed → Shape
port_shape (ok _) = host_port
port_shape (err _) = bad_port

unfoldable pub host_port_shape : Bytes → Shape
host_port_shape s = elim (split_last_colon s) [
  | none ↦ no_host_port
  | some (host, port) ↦
      if null host || null port
      then no_host_port
      else port_shape (parse_nonneg_int_bounded (some port) 1 65535)
]

abbrev pub addr_outcome : Config → Bytes → Shape → Outcome
addr_outcome c arg no_host_port = refuse c addr_shape
addr_outcome c arg bad_port = refuse c addr_port
addr_outcome c arg host_port = accept (record c { cache_redis_addr = some arg })

unfoldable pub set_cache_redis_addr : Config → Option Bytes → Outcome
unfolding host_port_shape
set_cache_redis_addr c none = refuse c addr_missing
set_cache_redis_addr c (some arg) =
    if null arg
    then accept (record c { cache_redis_addr = none })
    else if any_byte unsafe_addr arg
    then refuse c addr_character
    else addr_outcome c arg (host_port_shape arg)

-- The loop over the bytes of an entry stops at the first that is refused.
unfoldable pub entry_refusal : Bytes → Option Refusal
entry_refusal [] = none
entry_refusal (b ∷ s) =
    if b == b'"' || b == b'\''
    then some servers_quoted
    else if b == b'\\' || is_control b
    then some servers_character
    else entry_refusal s

abbrev pub shape_refusal : Shape → Option Refusal
shape_refusal no_host_port = some servers_shape
shape_refusal bad_port = some servers_port
shape_refusal host_port = none

abbrev or_next : Option Refusal → Option Refusal → Option Refusal
or_next none next = next
or_next (some why) next = some why

-- The tests on one entry, the count of the entries before it included.
unfoldable pub check_entry : ℕ → Bytes → Option Refusal
unfolding entry_refusal host_port_shape
check_entry count token = or_next (entry_refusal token) (
    or_next (shape_refusal (host_port_shape token))
      (if leb max_memcached_servers count then some servers_too_many else none))

abbrev push_server : Config → Bytes → Config
push_server c token = record c { cache_memcached_servers = c.cache_memcached_servers ++ token ∷ [] }

-- The entries are pushed one by one, so those before a refused one stay in the list. A round of
-- more fuel than the line is long is left.
unfoldable pub push_servers : ℕ → Config → ℕ → Bytes → Outcome
push_servers zero c count s = if count == 0 then refuse c servers_empty else accept c
push_servers (suc fuel) c count s =
    let p = drop_while is_blank s in
    let token = take_while (λ b. not (is_blank b)) p in
    let rest = drop_while (λ b. not (is_blank b)) p in
    let skipped = push_servers fuel c count rest in
    let pushed = push_servers fuel (push_server c token) (count + 1) rest in
    let done = if count == 0 then refuse c servers_empty else accept c in
    if null s
    then done
    else if null token
    then skipped
    else elim (check_entry count token) [ none ↦ pushed | some why ↦ refuse c why ]

unfoldable pub set_cache_memcached_servers : Config → Option Bytes → Outcome
set_cache_memcached_servers c none = refuse c servers_missing
set_cache_memcached_servers c (some line) = push_servers (length line) c 0 line
