-- ===== src/Nginx/Worker/Lifecycle.antt =====
-- A worker starts with all of the library or not at all, and ends with nothing of it.
use go_mesi.Base.{
  Bool, true, false, List, [], ◌∷◌, ◌++◌, Option, none, some, if◌then◌else◌, ◌≡◌, refl, sym, ◌∙◌,
  Bool-cases, if-elim, inl, inr,
}
use mathlib.Core.Bool.{true≢false}
use go_mesi.Nginx.Worker.{
  Symbols, Worker, fresh, Call, free_cache, dlclose, thread_init, thread_exit,
}

-- What a start from the first state leaves: the worker runs exactly if the library exports Parse,
-- with the library's pointers.
abbrev pub Started : Option Symbols → Worker × Bool → Type 0
Started none (w, ok) = (ok ≡ false) × (w ≡ fresh)
Started (some found) (w, ok) =
    (ok ≡ found.parse) × (w.go_module ≡ true) × (ok ≡ true → w.esi ≡ found)

-- From the first state a worker starts exactly if the library is found and exports Parse, and then
-- has the library's pointers; and whenever it ends, the cache is freed where the library can do so,
-- before the library is closed, and nothing of the cache is remembered.
pub lifecycle :
    (library : Option Symbols) (w : Worker)
    → Started library (thread_init library fresh)
      × (w.go_module ≡ true
          → ((thread_exit w).1
              ≡ (if w.esi.free_cache then free_cache ∷ dlclose ∷ [] else dlclose ∷ []))
            × ((thread_exit w).0.go_module ≡ false)
            × ((thread_exit w).0.cache_initialized ≡ false)
            × ((thread_exit w).0.cache_last_backend ≡ none))
lifecycle library w = (start library, ends)
  where
    start : (l : Option Symbols) → Started l (thread_init l fresh)
    start none = unfold thread_init in (refl, refl)
    start (some found) =
        unfold thread_init in
        elim (Bool-cases found.parse) [
          | inl e ↦
              if-elim (Started (some found)) found.parse _ _ (λ p. (sym p, refl, λ o. refl))
                (λ p. absurd (true≢false (sym e ∙ p)))
          | inr e ↦
              if-elim (Started (some found)) found.parse _ _ (λ p. absurd (true≢false (sym p ∙ e)))
                (λ p. (sym p, refl, λ o. absurd (true≢false (sym o))))
        ]

    ends :
        w.go_module ≡ true
        → ((thread_exit w).1
            ≡ (if w.esi.free_cache then free_cache ∷ dlclose ∷ [] else dlclose ∷ []))
          × ((thread_exit w).0.go_module ≡ false)
          × ((thread_exit w).0.cache_initialized ≡ false)
          × ((thread_exit w).0.cache_last_backend ≡ none)
    ends g =
        unfold thread_exit in
        if-elim
          (λ (x : Worker × List Call).
            (x.1 ≡ (if w.esi.free_cache then free_cache ∷ dlclose ∷ [] else dlclose ∷ []))
            × (x.0.go_module ≡ false)
            × (x.0.cache_initialized ≡ false)
            × (x.0.cache_last_backend ≡ none))
          w.go_module _ _ (λ h. (freed w.esi.free_cache, refl, refl, refl))
          (λ h. absurd (true≢false (sym g ∙ h)))
      where
        freed :
            (b : Bool)
            → (if b then free_cache ∷ [] else []) ++ dlclose ∷ []
              ≡ (if b then free_cache ∷ dlclose ∷ [] else dlclose ∷ [])
        freed true = refl
        freed false = refl
