-- ===== src/Dict.antt =====
-- A HashMap keyed by texts, as an association list: the first entry of a key counts. The order of
-- the entries stands for the map's iteration order.
pub mod Laws
pub mod Unique
use undermoon.Prelude.{
  ℕ, Bool, true, false, Option, none, some, List, [], ◌∷◌, text_eq, if◌then◌else◌, not,
}

abbrev pub Dict {ℓ} : Type ℓ → Type ℓ
Dict V = List (List ℕ × V)

module _ {ℓ} {V : Type ℓ} where
  unfoldable pub lookup : List ℕ → Dict V → Option V
  lookup k [] = none
  lookup k ((j, v) ∷ m) = if text_eq j k then some v else lookup k m

  -- An entry that is there is overwritten in place.
  unfoldable pub insert : List ℕ → V → Dict V → Dict V
  insert k v [] = (k, v) ∷ []
  insert k v ((j, w) ∷ m) = if text_eq j k then (j, v) ∷ m else (j, w) ∷ insert k v m

  unfoldable pub remove : List ℕ → Dict V → Dict V
  remove k [] = []
  remove k ((j, w) ∷ m) = if text_eq j k then remove k m else (j, w) ∷ remove k m

  unfoldable pub contains_key : List ℕ → Dict V → Bool
  contains_key k m = elim (lookup k m) [ none ↦ false | some v ↦ true ]

  -- `for v in m.values_mut() { f(v) }`.
  unfoldable pub map_values : (V → V) → Dict V → Dict V
  map_values f [] = []
  map_values f ((j, w) ∷ m) = (j, f w) ∷ map_values f m
