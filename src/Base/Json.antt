-- ===== src/Base/Json.antt =====
-- Values that `JSON.parse` gives, and what a browser holds under one key of its local storage.
use mathlib.Core.Bool.{Bool}
use multimux.Base.Strings.{Str}

mutual
  pub data Json (N : Type 0) : Type 0 where
    null : Json N
    bool : Bool → Json N
    num : N → Json N
    str : Str → Json N
    arr : Items N → Json N
    obj : Fields N → Json N

  pub data Items (N : Type 0) : Type 0 where
    nil : Items N
    cons : Json N → Items N → Items N

  pub data Fields (N : Type 0) : Type 0 where
    end : Fields N
    field : Str → Json N → Fields N → Fields N

-- `getItem` throws, gives null, gives a text that is no JSON, or gives the text of a value.
pub data Item (N : Type 0) : Type 0 where
  disabled : Item N
  absent : Item N
  corrupt : Item N
  doc : Json N → Item N
