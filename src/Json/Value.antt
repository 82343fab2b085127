-- ===== src/Json/Value.antt =====
-- JSON values, and the text that stands for each.
use go_mesi.Base.{ℕ, ◌+◌, Bool, [], ◌∷◌, ◌++◌, some, Bytes, codes, ℤ, if◌then◌else◌}
use go_mesi.Json.Text.{json_string}
use go_mesi.Json.Number.{show_int}

mutual
  pub data Json : Type 0 where
    str : Bytes → Json
    num : ℤ → Json
    bool : Bool → Json
    arr : Items → Json
    obj : Fields → Json

  pub data Items : Type 0 where
    nil : Items
    cons : Json → Items → Items

  pub data Fields : Type 0 where
    end : Fields
    field : Bytes → Json → Fields → Fields

-- A list and an object carry the text behind their opening bracket.
unfoldable mutual
  pub print : Json → Bytes
  print (str s) = json_string (some s)
  print (num z) = show_int z
  print (bool b) = if b then codes "true" else codes "false"
  print (arr xs) = b'[' ∷ print_items xs
  print (obj fs) = b'{' ∷ print_fields fs

  pub print_items : Items → Bytes
  print_items nil = b']' ∷ []
  print_items (cons x xs) = print x ++ more_items xs

  pub more_items : Items → Bytes
  more_items nil = b']' ∷ []
  more_items (cons x xs) = b',' ∷ (print x ++ more_items xs)

  pub print_fields : Fields → Bytes
  print_fields end = b'}' ∷ []
  print_fields (field k v fs) = json_string (some k) ++ b':' ∷ (print v ++ more_fields fs)

  pub more_fields : Fields → Bytes
  more_fields end = b'}' ∷ []
  more_fields (field k v fs) = b',' ∷ (json_string (some k) ++ b':' ∷ (print v ++ more_fields fs))

-- Fuel that suffices to read a value back.
unfoldable mutual
  pub size : Json → ℕ
  size (str s) = 1
  size (num z) = 1
  size (bool b) = 1
  size (arr xs) = 1 + size_items xs
  size (obj fs) = 1 + size_fields fs

  pub size_items : Items → ℕ
  size_items nil = 1
  size_items (cons x xs) = 1 + size x + size_items xs

  pub size_fields : Fields → ℕ
  size_fields end = 1
  size_fields (field k v fs) = 1 + size v + size_fields fs
