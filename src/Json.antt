-- ===== src/Json.antt =====
-- The dictionaries that the code builds for the API server, as JSON values.
use mathlib.Core.Path.{◌≡◌, refl}
use smart_hpa.Prelude.Text.{str_eq}
use smart_hpa.Prelude.{String, List, [], ◌∷◌, Option, none, some, Bool, if◌then◌else◌}
use smart_hpa.Prelude.Int.{ℤ, pos}

mutual
  pub data Json : Type 0 where
    null : Json
    bool : Bool → Json
    num : ℤ → Json
    str : String → Json
    arr : Items → Json
    obj : Fields → Json

  pub data Items : Type 0 where
    nil : Items
    cons : Json → Items → Items

  pub data Fields : Type 0 where
    end : Fields
    field : String → Json → Fields → Fields

-- A dict display, in the order of its keys.
abbrev pub fields : List (String × Json) → Fields
fields [] = end
fields ((k, v) ∷ kvs) = field k v (fields kvs)

abbrev pub object : List (String × Json) → Json
object kvs = obj (fields kvs)

abbrev pub items : List Json → Items
items [] = nil
items (x ∷ xs) = cons x (items xs)

abbrev pub array : List Json → Json
array xs = arr (items xs)

-- `d[key]` on a JSON object, as a reader of the output takes it apart.
abbrev pub get_field : String → Fields → Option Json
get_field k end = none
get_field k (field j v rest) = if str_eq j k then some v else get_field k rest

abbrev pub get : String → Json → Option Json
get k (obj fs) = get_field k fs
get k _ = none

abbrev pub get_num : Json → Option ℤ
get_num (num n) = some n
get_num _ = none

abbrev pub get_text : Json → Option String
get_text (str s) = some s
get_text _ = none

get_runs : get "b" (object (("a", null) ∷ ("b", num (pos 2)) ∷ [])) ≡ some (num (pos 2))
get_runs = refl
