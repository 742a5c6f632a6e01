-- ===== src/Table.antt =====
-- Go's map[string]V: entries with distinct keys, in an order that nothing may rely on.
pub mod Laws
pub mod Sorting
use mathlib.Core.List.{foldl}
use cron_mon.Base.{ℕ, Bool, Option, none, some, List, [], ◌∷◌, map, if◌then◌else◌}
use cron_mon.Base.Text.{Text, text_eq}

abbrev pub Table {ℓ} : Type ℓ → Type ℓ
Table V = List (Text × V)

module _ {ℓ} {V : Type ℓ} where
  -- v, ok := m[k]
  unfoldable pub lookup : Text → Table V → Option V
  lookup k [] = none
  lookup k ((j, v) ∷ m) = if text_eq j k then some v else lookup k m

  -- m[k] = v
  unfoldable pub put : Text → V → Table V → Table V
  put k v [] = (k, v) ∷ []
  put k v ((j, w) ∷ m) = if text_eq j k then (j, v) ∷ m else (j, w) ∷ put k v m

  -- delete(m, k)
  unfoldable pub remove : Text → Table V → Table V
  remove k [] = []
  remove k ((j, w) ∷ m) = if text_eq j k then m else (j, w) ∷ remove k m

  abbrev pub values : Table V → List V
  values = map (λ e. e.1)
