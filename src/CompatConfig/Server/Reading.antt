-- ===== src/CompatConfig/Server/Reading.antt =====
-- Reading of JSON values: which texts and elements a configuration has.
use vpn.Prelude.{String, string_Eq, ◌==◌, Bool, false, ◌||◌, List, [], ◌∷◌, Option, none, some}
use vpn.CompatConfig.Server.Json.{Value, str, get, elements}

unfoldable pub is_text : String → Value → Bool
is_text s (str t) = t == s
is_text s _ = false

unfoldable pub is_option_text : String → Option Value → Bool
unfolding is_text
is_option_text s (some v) = is_text s v
is_option_text s none = false

unfoldable pub listed : Option Value → List Value
listed (some v) = elements v
listed none = []

-- the value of a field is this text
unfoldable pub has : String → String → Value → Bool
unfolding is_option_text
has k s v = is_option_text s (get k v)

unfoldable pub any_of : (Value → Bool) → List Value → Bool
any_of p [] = false
any_of p (v ∷ vs) = p v || any_of p vs

unfoldable pub elements_at : String → Value → List Value
unfolding listed
elements_at k v = listed (get k v)
