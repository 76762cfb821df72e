-- ===== src/Json.antt =====
-- JSON values as `json.loads` gives them: dictionaries with text keys, lists, integers of any size.
-- A float is its IEEE 754 bit pattern, a number below 2 ^ 64.
use my_tracks.Base.{
  ℕ, String, Option, none, some, Bool, ◌==◌, compared_texts, if◌then◌else◌, ◌≡◌, refl, arith,
  eq_iff, List, [], ◌∷◌,
}
use my_tracks.Base.Int.{ℤ}

mutual
  pub data Json : Type 0 where
    null : Json
    boolean : Bool → Json
    int : ℤ → Json
    float : ℕ → Json
    text : String → Json
    array : Items → Json
    object : Fields → Json

  pub data Items : Type 0 where
    nil : Items
    cons : Json → Items → Items

  pub data Fields : Type 0 where
    end : Fields
    field : String → Json → Fields → Fields

-- message.get(key)
unfoldable pub get : Fields → String → Option Json
get end key = none
get (field k v rest) key = let found = get rest key in if k == key then some v else found

-- message[key] = value
unfoldable pub set : Fields → String → Json → Fields
set end key value = field key value end
set (field k v rest) key value =
    let changed = set rest key value in if k == key then field k value rest else field k v changed

-- message.update(other)
unfoldable pub update : Fields → Fields → Fields
unfolding set
update message end = message
update message (field k v rest) = update (set message k v) rest

abbrev pub items_of : List Json → Items
items_of [] = nil
items_of (v ∷ vs) = cons v (items_of vs)

pub get-set :
    (message : Fields) (key other : String) (value : Json)
    → get (set message key value) other ≡ (if key == other then some value else get message other)
unfolding get set
get-set end key other value = refl
get-set (field k v rest) key other value =
    ground (arith, get-set rest key other value, eq_iff k key, eq_iff k other, eq_iff key other)
