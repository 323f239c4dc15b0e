-- ===== src/Json.antt =====
-- The JSON objects that src/ticketflow/*.py keeps in jsonb columns, hands to `interrupt` and takes
-- from `Command(resume=...)`. Arrays and negative numbers occur in none of them.
use ticket_graph.Prelude.{ℕ, Bool, String, Option, none, some, ◌==◌, string_eq, if◌then◌else◌}

mutual
  pub data Json : Type 0 where
    null : Json
    bool : Bool → Json
    num : ℕ → Json
    str : String → Json
    obj : Fields → Json

  pub data Fields : Type 0 where
    end : Fields
    field : String → Json → Fields → Fields

-- `d.get(key)` on the fields of an object
unfoldable pub lookup : String → Fields → Option Json
lookup key end = none
lookup key (field k v rest) = if k == key then some v else lookup key rest

-- `isinstance(value, dict)` and then `value.get(key)`
unfoldable pub get : String → Json → Option Json
unfolding lookup
get key (obj fields) = lookup key fields
get key _ = none
