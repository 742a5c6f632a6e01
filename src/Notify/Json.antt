-- ===== src/Notify/Json.antt =====
-- What the notifiers hand to json.Marshal: the fields of their structs, by their tags.
use cron_mon.Base.{Bool, String, Option, none, some, List, [], ◌∷◌}
use cron_mon.Base.Text.{Text}

mutual
  pub data Json : Type 0 where
    text : Text → Json
    bool : Bool → Json
    array : Items → Json
    object : Members → Json

  pub data Items : Type 0 where
    no_item : Items
    item : Json → Items → Items

  pub data Members : Type 0 where
    no_member : Members
    member : String → Json → Members → Members

-- A slice whose elements are encoded by `encode`.
unfoldable pub items {ℓ} : {A : Type ℓ} → (A → Json) → List A → Items
items encode [] = no_item
items encode (x ∷ xs) = item (encode x) (items encode xs)

-- A pointer tagged "omitempty".
unfoldable pub optional_member {ℓ} :
    {A : Type ℓ} → String → (A → Json) → Option A → Members → Members
optional_member name encode none rest = rest
optional_member name encode (some x) rest = member name (encode x) rest
