-- ===== src/Apache/Directive/Servers/Entry.antt =====
-- The entries that MesiCacheMemcachedServers accepts, said without its tests.
use go_mesi.Base.{
  ℕ, ◌<◌, Bool, false, ◌||◌, [], ◌∷◌, ◌++◌, Option, none, some, Bytes, null, ◌==◌, if◌then◌else◌,
  is_control, ◌≡◌, ◌≢◌, ◌↔◌, refl, sym, ap, ◌∙◌, arith, NoneOf, Bool-cases, inl, inr,
}
use go_mesi.Apache.Number.{Parsed, ok, err, parse_nonneg_int_bounded}
use go_mesi.Apache.Number.Exact.{Accepted, parse_nonneg_int-Accepted, parse_nonneg_int_bounded-eq}
use go_mesi.Apache.Config.{max_memcached_servers}
use go_mesi.Apache.Directive.Servers.{
  split_last_colon, Shape, host_port, host_port_shape, port_shape, entry_refusal, check_entry,
}

abbrev is_colon : ℕ → Bool
is_colon b = b == b':'

-- The quotes, the backslash and the control characters.
abbrev pub quoting : ℕ → Bool
quoting b = b == b'"' || b == b'\'' || b == b'\\' || is_control b

-- A host, the last ':' and a port from 1 to 65535, and no quote, backslash or control character.
pub record IsServer (t : Bytes) : Type 0 where
  pub host : Bytes
  pub port : Bytes
  pub number : ℕ
  pub splits : t ≡ host ++ (b':' ∷ port)
  pub named : host ≢ []
  pub last : NoneOf (λ b. b == b':') port
  pub in_range : Accepted port 1 65535 number
  pub clean : NoneOf quoting t

entry_refusal-NoneOf : (t : Bytes) → (entry_refusal t ≡ none) ↔ NoneOf quoting t
unfolding entry_refusal
entry_refusal-NoneOf [] = ((λ h. tt), (λ h. refl))
entry_refusal-NoneOf (b ∷ s) = (
  (λ h. ground (arith, (entry_refusal-NoneOf s).0)),
  (λ h. let (fine, later) = h in ground (arith, (entry_refusal-NoneOf s).1 later)),
)

-- What a split at the last ':' says of a text.
abbrev Parted : Bytes → Option (Bytes × Bytes) → Type 0
Parted s none = NoneOf is_colon s
Parted s (some (host, port)) = (s ≡ host ++ (b':' ∷ port)) × NoneOf is_colon port

cons-Parted :
    (c : ℕ) (s : Bytes) (o : Option (Bytes × Bytes))
    → Parted s o
    → Parted (c ∷ s) (elim o [
      | some (host, port) ↦ some (c ∷ host, port)
      | none ↦ if c == b':' then some ([], s) else none
    ])
cons-Parted c s none h = elim (Bool-cases (c == b':')) [
  | inl e ↦ (let v : c ≡ b':' = ground arith in rw e ((λ i. v i ∷ s), h))
  | inr e ↦ rw e (e, h)
]
cons-Parted c s (some (host, port)) (e, h) = (ap (◌∷◌ c) e, h)

split_last_colon-Parted : (s : Bytes) → Parted s (split_last_colon s)
unfolding split_last_colon
split_last_colon-Parted [] = tt
split_last_colon-Parted (c ∷ s) = cons-Parted c s (split_last_colon s) (split_last_colon-Parted s)

split-NoneOf : (s : Bytes) → NoneOf is_colon s → split_last_colon s ≡ none
unfolding split_last_colon
split-NoneOf [] h = refl
split-NoneOf (c ∷ s) (a, h) = rw (split-NoneOf s h, a) refl

split-append :
    (host port : Bytes)
    → NoneOf is_colon port
    → split_last_colon (host ++ (b':' ∷ port)) ≡ some (host, port)
unfolding split_last_colon
split-append [] port h = rw (split-NoneOf port h) refl
split-append (c ∷ host) port h = rw (split-append host port h) refl

null-nil : (s : Bytes) → null s ≡ false → s ≢ []
null-nil [] h e = absurd cc
null-nil (c ∷ s) h e = absurd cc

nil-null : (s : Bytes) → s ≢ [] → null s ≡ false
nil-null [] h = absurd (h refl)
nil-null (c ∷ s) h = refl

port-ok :
    (port : Bytes) (v : ℕ)
    → Accepted port 1 65535 v
    → parse_nonneg_int_bounded (some port) 1 65535 ≡ ok v
port-ok port v a =
    parse_nonneg_int_bounded-eq (some port) 1 65535 ∙ (parse_nonneg_int-Accepted port 1 65535 v).1 a

-- A port that the tests pass.
abbrev shape_of : Option (Bytes × Bytes) → Shape
shape_of none = Shape.no_host_port
shape_of (some (host, port)) =
    if null host || null port
    then Shape.no_host_port
    else port_shape (parse_nonneg_int_bounded (some port) 1 65535)

shaped :
    (host port : Bytes) (v : ℕ)
    → null host ≡ false
    → null port ≡ false
    → parse_nonneg_int_bounded (some port) 1 65535 ≡ ok v
    → shape_of (some (host, port)) ≡ host_port
shaped host port v h p e = rw (h, p, e) refl

-- A port that the tests pass.
shape-Accepted :
    (host port : Bytes)
    → (if null host || null port
        then Shape.no_host_port
        else port_shape (parse_nonneg_int_bounded (some port) 1 65535))
      ≡ host_port
    → (host ≢ []) × ((v : ℕ) × Accepted port 1 65535 v)
shape-Accepted [] port h = absurd cc
shape-Accepted (c ∷ host) [] h = absurd cc
shape-Accepted (c ∷ host) (d ∷ port) h =
    ((λ e. absurd cc), number (parse_nonneg_int_bounded (some (d ∷ port)) 1 65535) refl h)
  where
    number :
        (p : Parsed)
        → parse_nonneg_int_bounded (some (d ∷ port)) 1 65535 ≡ p
        → port_shape p ≡ host_port
        → (v : ℕ) × Accepted (d ∷ port) 1 65535 v
    number (ok v) e s = (
      v,
      (parse_nonneg_int-Accepted (d ∷ port) 1 65535 v).0
          (sym (parse_nonneg_int_bounded-eq (some (d ∷ port)) 1 65535) ∙ e),
    )
    number (err why) e s = absurd cc

shape-IsServer :
    (t : Bytes) (o : Option (Bytes × Bytes))
    → Parted t o
    → (elim o [
      | none ↦ Shape.no_host_port
      | some (host, port) ↦
          if null host || null port
          then Shape.no_host_port
          else port_shape (parse_nonneg_int_bounded (some port) 1 65535)
    ])
      ≡ host_port
    → NoneOf quoting t
    → IsServer t
shape-IsServer t none p h clean = absurd cc
shape-IsServer t (some (host, port)) (e, last) h clean =
    let (named, (v, a)) = shape-Accepted host port h in
    record {
      host = host;
      port = port;
      number = v;
      splits = e;
      named = named;
      last = last;
      in_range = a;
      clean = clean;
    }

IsServer-shape : (t : Bytes) → IsServer t → host_port_shape t ≡ host_port
unfolding host_port_shape
IsServer-shape t p =
    let split : split_last_colon t ≡ some (p.host, p.port) =
      ap split_last_colon p.splits ∙ split-append p.host p.port p.last in
    ap shape_of split
    ∙ shaped p.host p.port p.number (nil-null p.host p.named) (filled p.port p.number p.in_range)
        (port-ok p.port p.number p.in_range)
  where
    filled : (port : Bytes) (v : ℕ) → Accepted port 1 65535 v → null port ≡ false
    filled [] v a =
        absurd (nothing a.numeral.blanks a.numeral.digits a.numeral.splits a.numeral.digits_ne_nil)
      where
        nothing : (x y : Bytes) → [] ≡ x ++ y → y ≢ [] → ⊥
        nothing [] y e n = n (sym e)
        nothing (c ∷ x) y e n = absurd cc
    filled (c ∷ port) v a = refl

check_entry-parts :
    (count : ℕ) (t : Bytes)
    → (check_entry count t ≡ none) ↔ (
        (entry_refusal t ≡ none)
        × (host_port_shape t ≡ host_port)
        × (count < max_memcached_servers))
unfolding check_entry
check_entry-parts count t = ((λ h. ground arith), (λ h. let (a, b, c) = h in ground arith))

-- An entry is accepted exactly if it is a server, and fewer than 64 stand before it.
pub check_entry-IsServer :
    (count : ℕ) (t : Bytes)
    → (check_entry count t ≡ none) ↔ (IsServer t × (count < max_memcached_servers))
unfolding host_port_shape
check_entry-IsServer count t = (
  (λ h.
      let (fine, shape, room) = (check_entry-parts count t).0 h in
      (
        shape-IsServer t (split_last_colon t) (split_last_colon-Parted t) shape
            ((entry_refusal-NoneOf t).0 fine),
        room,
      )),
  (λ h.
      (check_entry-parts count t).1
        ((entry_refusal-NoneOf t).1 h.0.clean, IsServer-shape t h.0, h.1)),
)
