-- ===== src/Base/Json.antt =====
-- JSON values, as the program passes them on: a tool's schema and the arguments of a tool call.
-- A number is kept as its literal, since the program never computes with one.
use mathlib.Core.Bool.{Bool}
use open_voice.Base.Text.{Text}

mutual
  pub data Json : Type 0 where
    null : Json
    boolean : Bool → Json
    number : Text → Json
    string : Text → Json
    array : Items → Json
    object : Fields → Json

  pub data Items : Type 0 where
    nil : Items
    cons : Json → Items → Items

  pub data Fields : Type 0 where
    end : Fields
    field : Text → Json → Fields → Fields
