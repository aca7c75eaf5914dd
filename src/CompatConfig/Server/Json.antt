-- ===== src/CompatConfig/Server/Json.antt =====
-- The JSON values that crates/compat-config/src/server.rs builds: `serde_json::Value` and `json!`.
use vpn.Prelude.{
  ℕ, String, string_Eq, ◌==◌, Bool, if◌then◌else◌, ◌≡◌, refl, ap, List, [], ◌∷◌, Option, none, some,
}

mutual
  -- the members of an object, each with its key
  pub data Members : Type 0 where
    member : String → Value → Members → Members
    no_members : Members

  pub data Elements : Type 0 where
    element : Value → Elements → Elements
    no_elements : Elements

  pub data Value : Type 0 where
    str : String → Value
    bool : Bool → Value
    num : ℕ → Value
    obj : Members → Value
    arr : Elements → Value

abbrev items : List Value → Elements
items [] = no_elements
items (v ∷ vs) = element v (items vs)

abbrev pub items_of : Elements → List Value
items_of no_elements = []
items_of (element v vs) = v ∷ items_of vs

abbrev fields : List (String × Value) → Members
fields [] = no_members
fields ((k, v) ∷ kvs) = member k v (fields kvs)

-- `json!([...])` and `json!({...})`
abbrev pub array : List Value → Value
array vs = arr (items vs)

abbrev pub object : List (String × Value) → Value
object kvs = obj (fields kvs)

abbrev get_field : String → Members → Option Value
get_field k no_members = none
get_field k (member j v fs) = if j == k then some v else get_field k fs

abbrev put_field : String → Value → Members → Members
put_field k v no_members = member k v no_members
put_field k v (member j w fs) = if j == k then member j v fs else member j w (put_field k v fs)

-- `v[key]`, where there is such a field
abbrev pub get : String → Value → Option Value
get k (obj fs) = get_field k fs
get k _ = none

-- the elements of an array
abbrev pub elements : Value → List Value
elements (arr vs) = items_of vs
elements _ = []

pub elements-array : (vs : List Value) → elements (array vs) ≡ vs
elements-array [] = refl
elements-array (v ∷ vs) = ap (λ r. v ∷ r) (elements-array vs)

-- `v[key] = w` on an object
abbrev pub put : String → Value → Value → Value
put k w (obj fs) = obj (put_field k w fs)
put k w v = v
