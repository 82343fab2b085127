-- ===== src/Apache/Hosts/Words.antt =====
-- The words that the loops over a line cut from it: not empty, without a blank, made of its bytes.
use go_mesi.Base.{
  ℕ, zero, suc, not, [], ◌∷◌, Bytes, ◌≡◌, ◌≢◌, All, All-append, All-take_while, All-drop_while,
  Each, length, Each-take_while, take_while, drop_while, is_blank, null, if◌then◌else◌,
}
use go_mesi.Apache.Hosts.{cut_hosts, hosts_of}

module _ (P : ℕ → Type 0) where
  abbrev pub Word : Bytes → Type 0
  Word t = (t ≢ []) × Each (λ c. not (is_blank c)) t × All P t

  Word-if :
      (t : Bytes)
      → Each (λ c. not (is_blank c)) t
      → All P t
      → All Word (if null t then [] else t ∷ [])
  Word-if [] h k = tt
  Word-if (c ∷ t) h k = ((λ (e : c ∷ t ≡ []). cc, h, k), tt)

  pub cut_hosts-Word : (fuel : ℕ) (s : Bytes) → All P s → All Word (cut_hosts fuel s)
  unfolding cut_hosts
  cut_hosts-Word zero s h = tt
  cut_hosts-Word (suc fuel) [] h = tt
  cut_hosts-Word (suc fuel) (c ∷ s) h =
      let p = drop_while is_blank (c ∷ s) in
      let hp = All-drop_while P is_blank (c ∷ s) h in
      let t = take_while (λ b. not (is_blank b)) p in
      All-append Word (if null t then [] else t ∷ []) _
        (Word-if t (Each-take_while (λ b. not (is_blank b)) p)
          (All-take_while P (λ b. not (is_blank b)) p hp))
        (cut_hosts-Word fuel _ (All-drop_while P (λ b. not (is_blank b)) p hp))

  pub hosts_of-Word : (line : Bytes) → All P line → All Word (hosts_of line)
  unfolding hosts_of
  hosts_of-Word line = cut_hosts-Word (length line) line
