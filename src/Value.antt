-- ===== src/Value.antt =====
-- The dynamic values (`any`) that the program passes around: what encoding/json decodes, and the
-- int64 that the coercion of arguments makes. A float64 is kept by its bits, an int64 by its
-- two's complement word.
use openbotstack_core.Base.{ℕ, String, Bool, List, [], ◌∷◌, Dict}

mutual
  pub data Value : Type 0 where
    null : Value
    bool : Bool → Value
    float64 : ℕ → Value
    int64 : ℕ → Value
    string : String → Value
    array : Values → Value
    object : Fields → Value

  pub data Values : Type 0 where
    end_values : Values
    value : Value → Values → Values

  pub data Fields : Type 0 where
    end_fields : Fields
    field : String → Value → Fields → Fields

abbrev pub elements : Values → List Value
elements end_values = []
elements (value v vs) = v ∷ elements vs

abbrev pub entries : Fields → Dict Value
entries end_fields = []
entries (field k v fs) = (k, v) ∷ entries fs
