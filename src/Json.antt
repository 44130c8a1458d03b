-- ===== src/Json.antt =====
-- JSON values as Python's `json` reads them: an object keeps the order in which its keys came.
use qualityci.Case.Numbers.{Number}
use qualityci.Prelude.{String, Bool, nat_eq, string_eq, pair_eq}

mutual
  pub data Json : Type 0 where
    null : Json
    boolean : Bool → Json
    number : Number → Json
    text : String → Json
    array : Values → Json
    object : Members → Json

  pub data Values : Type 0 where
    nil : Values
    cons : Json → Values → Values

  pub data Members : Type 0 where
    end : Members
    member : String → Json → Members → Members
