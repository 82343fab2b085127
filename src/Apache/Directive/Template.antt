-- ===== src/Apache/Directive/Template.antt =====
-- servers/apache/mod_mesi.c: set_cache_key_template.
use go_mesi.Base.{
  ℕ, Bool, true, false, ◌&&◌, ◌||◌, [], ◌∷◌, Option, none, some, Bytes, ltb, if◌then◌else◌, null,
  length, is_control, ◌==◌, codes,
}
use go_mesi.Apache.Config.{Config, max_cache_key_template}
use go_mesi.Apache.Directive.{
  Outcome, Refusal, accept, refuse, template_missing, template_too_long, template_control,
  template_del, template_interpolated,
}

-- the text begins with these bytes
unfoldable pub starts_with : Bytes → Bytes → Bool
starts_with [] s = true
starts_with (x ∷ pat) [] = false
starts_with (x ∷ pat) (c ∷ s) = c == x && starts_with pat s

-- strstr(s, pat) != NULL, for a pattern that is not empty
unfoldable pub contains : Bytes → Bytes → Bool
unfolding starts_with
contains pat [] = false
contains pat (c ∷ s) = starts_with pat (c ∷ s) || contains pat s

-- the loop that writes "${" for each "$${" that it meets
unfoldable pub undouble : Bytes → Bytes
undouble (a ∷ b ∷ c ∷ s) = elim (a == b'$' && b == b'$' && c == b'{') [
  | true ↦ b'$' ∷ b'{' ∷ undouble s
  | false ↦ a ∷ undouble (b ∷ c ∷ s)
]
undouble (a ∷ b ∷ []) = a ∷ b ∷ []
undouble (a ∷ []) = a ∷ []
undouble [] = []

-- the loop over the bytes, which stops at the first control character or DEL
unfoldable pub control_refusal : Bytes → Option Refusal
control_refusal [] = none
control_refusal (c ∷ s) =
    if is_control c
    then some template_control
    else if c == 0x7f
    then some template_del
    else control_refusal s

-- arg[len - 1] == c
unfoldable pub ends_with_byte : ℕ → Bytes → Bool
ends_with_byte x [] = false
ends_with_byte x (c ∷ []) = c == x
ends_with_byte x (c ∷ d ∷ s) = ends_with_byte x (d ∷ s)

abbrev pub normalized : Bytes → Bytes
normalized arg = if contains (codes "$${") arg then undouble arg else arg

-- What an interpolated placeholder leaves behind: "::", or a ':' at the end.
abbrev pub interpolated : Bytes → Bool
interpolated arg = contains (codes "::") arg || ends_with_byte b':' arg

abbrev pub store_template : Config → Bytes → Outcome
store_template c arg =
    if interpolated arg
    then refuse c template_interpolated
    else accept (record c { cache_key_template = some arg })

unfoldable pub set_cache_key_template : Config → Option Bytes → Outcome
unfolding contains undouble control_refusal ends_with_byte
set_cache_key_template c none = refuse c template_missing
set_cache_key_template c (some arg) =
    if null arg
    then accept (record c { cache_key_template = none })
    else if ltb max_cache_key_template (length arg)
    then refuse c template_too_long
    else elim (control_refusal arg) [
      | some why ↦ refuse c why
      | none ↦ store_template c (normalized arg)
    ]
