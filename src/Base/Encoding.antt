-- ===== src/Base/Encoding.antt =====
-- JSON values, as the struct tags of the program lay them out. Fields that a tag's omitempty leaves
-- out are left out here.
use Prim.Native.Nat.{ℕ}
use Prim.Native.String.{String}
use mathlib.Core.List.{List, [], ◌∷◌}

mutual
  pub data Json : Type 0 where
    string : String → Json
    number : ℕ → Json
    array : Items → Json
    object : Fields → Json

  pub data Items : Type 0 where
    nil : Items
    cons : Json → Items → Items

  pub data Fields : Type 0 where
    end : Fields
    field : String → Json → Fields → Fields

abbrev items : List Json → Items
items [] = Items.nil
items (j ∷ js) = Items.cons j (items js)

abbrev fields : List (String × Json) → Fields
fields [] = Fields.end
fields ((k, j) ∷ js) = Fields.field k j (fields js)

abbrev pub json_array : List Json → Json
json_array js = Json.array (items js)

abbrev pub json_object : List (String × Json) → Json
json_object fs = Json.object (fields fs)

abbrev texts_of : List String → List Json
texts_of [] = []
texts_of (s ∷ ss) = Json.string s ∷ texts_of ss

abbrev pub json_texts : List String → Json
json_texts ss = json_array (texts_of ss)
