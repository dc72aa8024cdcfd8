-- ===== src/Json.antt =====
-- JSON values, as Python's `json` reads and writes them. Numbers with a fraction or an exponent are
-- left out: no command of the endpoint has one.
use ros_tcp_endpoint.Prelude.{Bool, List, [], ◌∷◌, Text, Option, none, some, text_eq, if◌then◌else◌}
use ros_tcp_endpoint.Struct.Int.{ℤ}

mutual
  pub data Json : Type 0 where
    null : Json
    bool : Bool → Json
    int : ℤ → Json
    str : Text → Json
    arr : Items → Json
    obj : Fields → Json

  pub data Items : Type 0 where
    nil : Items
    cons : Json → Items → Items

  -- An object with its fields in order.
  pub data Fields : Type 0 where
    end : Fields
    field : Text → Json → Fields → Fields

-- A list of texts as an array.
unfoldable pub strings : List Text → Items
strings [] = nil
strings (s ∷ ss) = cons (str s) (strings ss)

-- The value of a key. (`json.loads` keeps the last of two equal keys; objects here have none.)
unfoldable pub get_field : Fields → Text → Option Json
get_field end k = none
get_field (field j v fs) k = if text_eq j k then some v else get_field fs k
