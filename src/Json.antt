-- ===== src/Json.antt =====
-- A value of unknown type, as `JSON.parse` makes it and as messages between the extension's parts
-- arrive. A number is a natural number or infinite, an object the list of its own properties.
use remotetab.Prelude.{ℕ, String, Bool, Option, none, some, str_eq, if◌then◌else◌}

mutual
  pub data Json : Type 0 where
    null infinite : Json
    boolean : Bool → Json
    number : ℕ → Json
    string : String → Json
    array : JsonList → Json
    object : JsonFields → Json

  pub data JsonList : Type 0 where
    nil : JsonList
    item : Json → JsonList → JsonList

  pub data JsonFields : Type 0 where
    end : JsonFields
    field : (key : String) → Json → JsonFields → JsonFields

-- `object[key]`; none is `undefined`.
unfoldable pub property : String → JsonFields → Option Json
property key end = none
property key (field k value rest) = if str_eq k key then some value else property key rest
