-- ===== src/Json.antt =====
-- JSON values, as the fingerprints and snapshots of the package build them.
use computational_governance.Prelude.{String, ℤ, Bool, Option, none, some, List, [], ◌∷◌}

mutual
  pub data Json : Type 0 where
    null : Json
    bool : Bool → Json
    int : ℤ → Json
    word : String → Json
    arr : Items → Json
    obj : Fields → Json

  pub data Items : Type 0 where
    nil : Items
    cons : Json → Items → Items

  pub data Fields : Type 0 where
    end : Fields
    field : String → Json → Fields → Fields

-- A list of texts, and an optional text.
unfoldable pub texts : List String → Items
texts [] = nil
texts (s ∷ ss) = cons (word s) (texts ss)

abbrev pub optional : Option String → Json
optional none = null
optional (some s) = word s

abbrev pub optional_int : Option ℤ → Json
optional_int none = null
optional_int (some n) = int n
