-- ===== src/Apache/Directive/Servers/Entries.antt =====
-- The list that MesiCacheMemcachedServers leaves, and the entries that it accepts.
use go_mesi.Base.{
  ℕ, zero, suc, ◌+◌, ◌≤◌, ◌<◌, List, [], ◌∷◌, ◌++◌, none, some, Bytes, if◌then◌else◌, null, length,
  ◌==◌, ◌≡◌, ◌≢◌, sym, refl, arith, All, Bool-cases, inl, inr, Option-cases, append-nil,
  append_assoc, ◌⊎◌, ◌∙◌, ap,
}
use go_mesi.Apache.Config.{Config, max_memcached_servers}
use go_mesi.Apache.Hosts.{cut_hosts, hosts_of}
use go_mesi.Apache.Directive.{Outcome, accept, refuse, servers_empty}
use go_mesi.Apache.Directive.Servers.Entry.{IsServer, check_entry-IsServer}
use go_mesi.Apache.Directive.Servers.{check_entry, push_servers, set_cache_memcached_servers}

-- The entries pushed one by one from a list of words.
push_all : Config → ℕ → List Bytes → Outcome
push_all c count [] = if count == 0 then refuse c servers_empty else accept c
push_all c count (t ∷ ts) = elim (check_entry count t) [
  | none ↦
      push_all (record c { cache_memcached_servers = c.cache_memcached_servers ++ t ∷ [] })
        (count + 1) ts
  | some why ↦ refuse c why
]

-- One round of the loop, on the word that it cut and the rest of the line.
push_round :
    (fuel : ℕ) (c : Config) (count : ℕ) (t rest : Bytes)
    → ((c : Config) (count : ℕ)
        → push_servers fuel c count rest ≡ push_all c count (cut_hosts fuel rest))
    → (if null t then push_servers fuel c count rest else elim (check_entry count t) [
      | none ↦
          push_servers fuel
            (record c { cache_memcached_servers = c.cache_memcached_servers ++ t ∷ [] })
            (count + 1)
            rest
      | some why ↦ refuse c why
    ])
      ≡ push_all c count ((if null t then [] else t ∷ []) ++ cut_hosts fuel rest)
unfolding push_all
push_round fuel c count [] rest ih = ih c count
push_round fuel c count (b ∷ t) rest ih = elim (Option-cases (check_entry count (b ∷ t))) [
  | inl e ↦ rw (e, push_all) (ih _ _)
  | inr (why, e) ↦ rw (e, push_all) refl
]

-- The loop over the line is the loop over its words.
push_servers-words :
    (fuel : ℕ) (c : Config) (count : ℕ) (s : Bytes)
    → push_servers fuel c count s ≡ push_all c count (cut_hosts fuel s)
unfolding push_servers cut_hosts push_all
push_servers-words zero c count s = refl
push_servers-words (suc fuel) c count [] = refl
push_servers-words (suc fuel) c count (x ∷ s) =
    push_round fuel c count _ _ (λ c' n. push_servers-words fuel c' n _)

-- The first entry that is left is no server, or has no place.
abbrev pub Refused : ℕ → List Bytes → Type 0
Refused count [] = ⊥
Refused count (t ∷ ts) = IsServer t × (count < max_memcached_servers) → ⊥

-- The entries that were accepted before the loop ended, and why it ended.
pub record Pushed (c : Config) (count : ℕ) (words : List Bytes) (o : Outcome) : Type 0 where
  pub taken : List Bytes
  pub left : List Bytes
  pub splits : words ≡ taken ++ left
  pub only_servers : o.0 ≡ record c { cache_memcached_servers = c.cache_memcached_servers ++ taken }
  pub entries_fit : All IsServer taken
  pub bounded : (taken ≡ []) ⊎ (count + length taken ≤ max_memcached_servers)
  pub all_taken : o.1 ≡ none → (left ≡ []) × (0 < count + length taken)
  pub stopped :
      o.1 ≢ none → ((left ≡ []) × (count + length taken ≡ 0)) ⊎ Refused (count + length taken) left

moved : (n m : ℕ) (left : List Bytes) → n ≡ m → Refused n left → Refused m left
moved n m [] e h = h
moved n m (t ∷ ts) e h = λ fits. h (fits.0, (let room = fits.1 in omega arith))

push_all_empty :
    (c : Config) (count : ℕ)
    → ((push_all c count []).0 ≡ c)
      × ((push_all c count []).1 ≡ none → 0 < count)
      × ((push_all c count []).1 ≢ none → count ≡ 0)
unfolding push_all
push_all_empty c count = elim (Bool-cases (count == 0)) [
  | inl e ↦ rw (e, push_all) (refl, (λ h. cc), (λ h. ground arith))
  | inr e ↦ rw (e, push_all) (refl, (λ h. ground arith), (λ h. absurd (h refl)))
]

push_all-Pushed :
    (words : List Bytes) (c : Config) (count : ℕ) → Pushed c count words (push_all c count words)
unfolding push_all
push_all-Pushed [] c count = record {
  taken = [];
  left = [];
  splits = refl;
  only_servers = (push_all_empty c count).0 ∙ rw append-nil;
  entries_fit = tt;
  bounded = inl refl;
  all_taken = λ h. (refl, omega (arith, (push_all_empty c count).1 h));
  stopped = λ h. inl (refl, omega (arith, (push_all_empty c count).2 h));
}
push_all-Pushed (t ∷ ts) c count = elim (Option-cases (check_entry count t)) [
  | inl e ↦
      let p =
        push_all-Pushed ts
          (record c { cache_memcached_servers = c.cache_memcached_servers ++ t ∷ [] })
          (count + 1) in
      let (server, room) = (check_entry-IsServer count t).0 e in
      rw (e, push_all)
        (record {
          taken = t ∷ p.taken;
          left = p.left;
          splits = ap (λ l. t ∷ l) p.splits;
          only_servers = p.only_servers ∙ rw append_assoc;
          entries_fit = (server, p.entries_fit);
          bounded = inr (elim p.bounded [
            | inl none_left ↦ rw none_left (omega arith)
            | inr le ↦ omega arith
          ]);
          all_taken = λ h. ((p.all_taken h).0, omega arith);
          stopped = λ h. elim (p.stopped h) [
            | inl empty_list ↦ absurd (let (_, zero_sum) = empty_list in omega arith)
            | inr why ↦ inr (moved _ _ p.left (omega arith) why)
          ];
        })
  | inr (why, e) ↦
      rw (e, push_all)
        (record {
          taken = [];
          left = t ∷ ts;
          splits = refl;
          only_servers = rw append-nil;
          entries_fit = tt;
          bounded = inl refl;
          all_taken = λ h. absurd (cc);
          stopped = λ h. inr (λ fits.
              let fine =
                (check_entry-IsServer count t).1 (fits.0, (let room = fits.1 in omega arith)) in
              absurd (let both = sym fine ∙ e in cc));
        })
]

-- The outcome of MesiCacheMemcachedServers: the entries of the line are appended in order; each
-- appended one is a host, a colon and a port from 1 to 65535 without quotes, backslashes and control
-- characters, and at most 64 are appended. Without a message all of them are, at least one; with one,
-- the first that is left is not such an entry or would be the 65th, or the line has no entries.
pub set_cache_memcached_servers-Pushed :
    (c : Config) (line : Bytes)
    → Pushed c 0 (hosts_of line) (set_cache_memcached_servers c (some line))
unfolding set_cache_memcached_servers hosts_of
set_cache_memcached_servers-Pushed c line =
    rw push_servers-words (push_all-Pushed (cut_hosts (length line) line) c 0)
