-- ===== src/Apache/Headers/Scan.antt =====
-- The scan of an Edge-control value takes its elements between commas one by one.
use go_mesi.Base.{split_at, split_at-part, parts_after}
use go_mesi.Base.{
  ℕ, zero, suc, ◌+◌, ◌≤◌, Bool, false, ◌||◌, List, [], ◌∷◌, some, Bytes, if◌then◌else◌, null,
  length, drop, take_while, drop_while, length-drop_while, ◌≡◌, refl, arith, Bool-cases, inl, inr,
}
use go_mesi.Apache.Headers.{
  mesi_is_header_space, trim_end, not_comma, is_signal, signals_from, mesi_header_signals_esi,
}

-- An element without the white space around it.
abbrev pub trim_space : Bytes → Bytes
trim_space s = trim_end (drop_while mesi_is_header_space s)

unfoldable pub any_signal : List Bytes → Bool
any_signal [] = false
any_signal (p ∷ ps) = is_signal (trim_space p) || any_signal ps

-- Leading white space has no comma in it.
skip_before :
    (s : Bytes)
    → take_while not_comma (drop_while mesi_is_header_space s)
      ≡ drop_while mesi_is_header_space (take_while not_comma s)
unfolding take_while drop_while
skip_before [] = refl
skip_before (c ∷ s) = ground (arith, skip_before s)

skip_behind :
    (s : Bytes) → drop_while not_comma (drop_while mesi_is_header_space s) ≡ drop_while not_comma s
unfolding drop_while
skip_behind [] = refl
skip_behind (c ∷ s) = ground (arith, skip_behind s)

later_parts :
    (fuel : ℕ) (d : Bytes)
    → length d ≤ fuel
    → ((t : Bytes) → length t + 1 ≤ fuel → signals_from fuel t ≡ any_signal (split_at b',' t))
    → (if null d then false else signals_from fuel (drop 1 d)) ≡ any_signal (parts_after b',' d)
unfolding any_signal
later_parts fuel [] h later = refl
later_parts fuel (c ∷ t) h later = later t (omega arith)

signals_from-any :
    (fuel : ℕ) (s : Bytes)
    → length s + 1 ≤ fuel
    → signals_from fuel s ≡ any_signal (split_at b',' s)
unfolding signals_from any_signal
signals_from-any zero s h = absurd (omega arith)
signals_from-any (suc fuel) s h =
    let d = drop_while not_comma s in
    let short = length-drop_while not_comma s in
    let later = later_parts fuel d (omega arith) (signals_from-any fuel) in
    rw (skip_before s, skip_behind s, split_at-part b',' s)
      (elim (Bool-cases (is_signal (trim_space (take_while not_comma s)))) [
        | inl e ↦ rw e refl
        | inr e ↦ rw e later
      ])

-- The scan takes the elements one by one.
pub mesi_header_signals_esi-any :
    (value : Bytes) → mesi_header_signals_esi (some value) ≡ any_signal (split_at b',' value)
unfolding mesi_header_signals_esi
mesi_header_signals_esi-any value = signals_from-any (suc (length value)) value (omega arith)
