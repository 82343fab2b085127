-- ===== src/Apache/Directive/Load/Texts.antt =====
-- The directives that store a list or a checked text keep the configuration valid.
use go_mesi.Base.{codes, ltb, ltb→le, sym, ap, ◌∙◌}
use go_mesi.Apache.Directive.Template.{store_template, interpolated}
use go_mesi.Base.{
  ℕ, ◌≤◌, Bool, true, false, not, ◌||◌, List, [], ◌∷◌, ◌++◌, none, some, Bytes, ◌≡◌, ◌≢◌, refl,
  arith, Bool-cases, Option-cases, All, All-append, null, any_byte, NoneOf, Each, NoneOf-any_byte,
  is_blank, inl, inr, ◌==◌, length, ◌&&◌,
}
use go_mesi.Apache.Config.{Config, max_cache_key_template}
use go_mesi.Apache.Config.Valid.{
  unsafe_addr, unsafe_entry, unsafe_host, unsafe_template, Clean, Template, IsValid,
}
use go_mesi.Apache.Hosts.{hosts_of, has_hostname_token}
use go_mesi.Apache.Hosts.Words.{Word, hosts_of-Word}
use go_mesi.Apache.Directive.{set_allowed_hosts}
use go_mesi.Apache.Directive.Servers.{
  host_port_shape, host_port, Shape, no_host_port, bad_port, addr_outcome, set_cache_redis_addr,
  set_cache_memcached_servers,
}
use go_mesi.Apache.Directive.Servers.Entry.{IsServer, quoting}
use go_mesi.Apache.Directive.Servers.Entries.{set_cache_memcached_servers-Pushed}
use go_mesi.Apache.Directive.Template.{
  control_refusal, contains, normalized, undouble, set_cache_key_template,
}

-- Lists of words: what holds of the joined list holds of its first part.
All-of_append {ℓ κ} : {A : Type ℓ} (P : A → Type κ) (xs ys : List A) → All P (xs ++ ys) → All P xs
All-of_append P [] ys h = tt
All-of_append P (x ∷ xs) ys (hx, hs) = (hx, All-of_append P xs ys hs)

All-true {ℓ} : {A : Type ℓ} (xs : List A) → All (λ x. Unit {0}) xs
All-true [] = tt
All-true (x ∷ xs) = (tt, All-true xs)

-- the quotes that set_allowed_hosts refuses
abbrev quote_byte : ℕ → Bool
quote_byte b = b == b'"' || b == b'\''

any_byte-or :
    (p q : ℕ → Bool) (s : Bytes)
    → (any_byte p s || any_byte q s) ≡ false
    → All (λ b. (p b || q b) ≡ false) s
unfolding any_byte
any_byte-or p q [] h = tt
any_byte-or p q (c ∷ s) h = (ground arith, any_byte-or p q s (ground arith))

host_bytes :
    (t : Bytes)
    → Each (λ c. not (is_blank c)) t
    → All (λ b. quote_byte b ≡ false) t
    → NoneOf unsafe_host t
host_bytes [] h k = tt
host_bytes (c ∷ t) (hc, ht) (kc, kt) = (ground arith, host_bytes t ht kt)

hosts-Clean :
    (l : List Bytes) → All (Word (λ b. quote_byte b ≡ false)) l → All (Clean unsafe_host) l
hosts-Clean [] h = tt
hosts-Clean (t ∷ l) ((ne, blank, quotes), hs) = ((ne, host_bytes t blank quotes), hosts-Clean l hs)

entry_bytes :
    (t : Bytes) → Each (λ c. not (is_blank c)) t → NoneOf quoting t → NoneOf unsafe_entry t
entry_bytes [] h k = tt
entry_bytes (c ∷ t) (hc, ht) (kc, kt) = (ground arith, entry_bytes t ht kt)

entries-Clean :
    (l : List Bytes) → All (Word (λ b. Unit {0})) l → All IsServer l → All (Clean unsafe_entry) l
entries-Clean [] h k = tt
entries-Clean (t ∷ l) ((ne, blank, _), hs) (server, ks) =
    ((ne, entry_bytes t blank server.clean), entries-Clean l hs ks)

module _ {c : Config} (v : IsValid c) where
  pub set_allowed_hosts-IsValid : (line : Bytes) → IsValid (set_allowed_hosts c (some line)).0
  unfolding set_allowed_hosts
  set_allowed_hosts-IsValid line = elim (Bool-cases (has_hostname_token line)) [
    | inl e ↦
        elim (Bool-cases (any_byte (λ b. b == b'"') line || any_byte (λ b. b == b'\'') line)) [
          | inl q ↦ rw (e, q) v
          | inr q ↦
              let words = hosts_of-Word (λ b. quote_byte b ≡ false) line (any_byte-or _ _ line q) in
              rw (e, q)
                (assumption (
                  v,
                  All-append (Clean unsafe_host) c.allowed_hosts (hosts_of line) v.allowed_hosts
                      (hosts-Clean _ words),
                ))
        ]
    | inr e ↦ rw e v
  ]

  stores_servers :
      (l : List Bytes)
      → All (Clean unsafe_entry) l
      → IsValid (record c { cache_memcached_servers = c.cache_memcached_servers ++ l })
  stores_servers l h =
      assumption
        (v, All-append (Clean unsafe_entry) c.cache_memcached_servers l v.cache_memcached_servers h)

  pub set_cache_memcached_servers-IsValid :
      (line : Bytes) → IsValid (set_cache_memcached_servers c (some line)).0
  set_cache_memcached_servers-IsValid line =
      let p = set_cache_memcached_servers-Pushed c line in
      let words = hosts_of-Word (λ b. Unit {0}) line (All-true line) in
      rw p.only_servers (
        stores_servers p.taken (
          entries-Clean p.taken
            (All-of_append (Word (λ b. Unit {0})) p.taken p.left (rw p.splits at words))
            p.entries_fit))

  addr_outcome-IsValid :
      (arg : Bytes) (s : Shape)
      → arg ≢ []
      → any_byte unsafe_addr arg ≡ false
      → IsValid (addr_outcome c arg s).0
  addr_outcome-IsValid arg no_host_port ne e = v
  addr_outcome-IsValid arg bad_port ne e = v
  addr_outcome-IsValid arg host_port ne e =
      let clean : Clean unsafe_addr arg = (ne, NoneOf-any_byte unsafe_addr arg e) in
      assumption (v, clean)

  pub set_cache_redis_addr-IsValid : (arg : Bytes) → IsValid (set_cache_redis_addr c (some arg)).0
  unfolding set_cache_redis_addr
  set_cache_redis_addr-IsValid [] = assumption v
  set_cache_redis_addr-IsValid (b ∷ arg) = elim (Bool-cases (any_byte unsafe_addr (b ∷ arg))) [
    | inl e ↦ rw e v
    | inr e ↦ rw e (addr_outcome-IsValid (b ∷ arg) (host_port_shape (b ∷ arg)) (λ h. cc) e)
  ]

-- What the loop that collapses "$${" does to the bytes of a template.
module _ (P : ℕ → Type 0) (dollar : P b'$') (brace : P b'{') where
  All-undouble : (s : Bytes) → All P s → All P (undouble s)
  unfolding undouble
  All-undouble (a ∷ b ∷ c ∷ s) (ha, (hb, (hc, hs))) =
      elim (Bool-cases (a == b'$' && b == b'$' && c == b'{')) [
        | inl e ↦ rw (e, undouble) (dollar, (brace, All-undouble s hs))
        | inr e ↦ rw (e, undouble) (ha, All-undouble (b ∷ c ∷ s) (hb, (hc, hs)))
      ]
  All-undouble (a ∷ b ∷ []) h = h
  All-undouble (a ∷ []) h = h
  All-undouble [] h = h

undouble-length : (s : Bytes) → (length (undouble s) ≤ length s) × (null (undouble s) ≡ null s)
unfolding undouble
undouble-length (a ∷ b ∷ c ∷ s) = elim (Bool-cases (a == b'$' && b == b'$' && c == b'{')) [
  | inl e ↦ rw (e, undouble) (omega (arith, (undouble-length s).0), refl)
  | inr e ↦ rw (e, undouble) (omega (arith, (undouble-length (b ∷ c ∷ s)).0), refl)
]
undouble-length (a ∷ b ∷ []) = (omega arith, refl)
undouble-length (a ∷ []) = (omega arith, refl)
undouble-length [] = (omega arith, refl)

control_refusal-none : (s : Bytes) → control_refusal s ≡ none → NoneOf unsafe_template s
unfolding control_refusal
control_refusal-none [] h = tt
control_refusal-none (c ∷ s) h = (ground arith, control_refusal-none s (ground arith))

undouble-Template : (s : Bytes) → Template s → Template (undouble s)
undouble-Template s (ne, clean, short) = (
  λ e. ne (null_nil s (sym (undouble-length s).1 ∙ ap null e)),
  All-undouble (λ c. unsafe_template c ≡ false) refl refl s clean,
  omega (arith, (undouble-length s).0),
)
  where
    null_nil : (s : Bytes) → null s ≡ true → s ≡ []
    null_nil [] h = refl
    null_nil (c ∷ s) h = cc

normalized-Template : (s : Bytes) → Template s → Template (normalized s)
normalized-Template s h = elim (Bool-cases (contains (codes "$${") s)) [
  | inl e ↦ rw e (undouble-Template s h)
  | inr e ↦ rw e h
]

module _ {c : Config} (v : IsValid c) where
  store_template-IsValid : (s : Bytes) → Template s → IsValid (store_template c s).0
  store_template-IsValid s h = elim (Bool-cases (interpolated s)) [
    | inl e ↦ rw e v
    | inr e ↦ rw e (assumption (v, h))
  ]

  pub set_cache_key_template-IsValid :
      (arg : Bytes) → IsValid (set_cache_key_template c (some arg)).0
  unfolding set_cache_key_template
  set_cache_key_template-IsValid [] = assumption v
  set_cache_key_template-IsValid (b ∷ s) =
      elim (Bool-cases (ltb max_cache_key_template (length (b ∷ s)))) [
        | inl e ↦ rw e v
        | inr e ↦ elim (Option-cases (control_refusal (b ∷ s))) [
          | inr (why, k) ↦ rw (e, k) v
          | inl k ↦
              let t : Template (b ∷ s) =
                (λ h. cc, control_refusal-none (b ∷ s) k, ltb→le max_cache_key_template _ e) in
              rw (e, k) (store_template-IsValid _ (normalized-Template (b ∷ s) t))
        ]
      ]
