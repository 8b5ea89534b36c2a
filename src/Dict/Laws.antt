-- ===== src/Dict/Laws.antt =====
-- The laws of the dictionary, with its keys compared as texts.
use undermoon.Prelude.{
  ℕ, ◌≡◌, refl, none, some, List, [], ◌∷◌, text_eq, if◌then◌else◌, arith, text_eq_iff,
}
use mathlib.Core.Option
use undermoon.Dict.{Dict, lookup, insert, remove, map_values}

module _ {ℓ} {V : Type ℓ} where
  pub lookup-insert :
      (k j : List ℕ) (v : V) (m : Dict V)
      → lookup j (insert k v m) ≡ (if text_eq k j then some v else lookup j m)
  unfolding lookup insert
  lookup-insert k j v [] = refl
  lookup-insert k j v ((i, w) ∷ m) =
      ground (arith, text_eq_iff k j, text_eq_iff i k, text_eq_iff i j, lookup-insert k j v m)

  pub lookup-remove :
      (k j : List ℕ) (m : Dict V)
      → lookup j (remove k m) ≡ (if text_eq k j then none else lookup j m)
  unfolding lookup remove
  lookup-remove k j [] = ground arith
  lookup-remove k j ((i, w) ∷ m) =
      ground (arith, text_eq_iff k j, text_eq_iff i k, text_eq_iff i j, lookup-remove k j m)

  pub lookup-map_values :
      (f : V → V) (j : List ℕ) (m : Dict V) → lookup j (map_values f m) ≡ Option.map f (lookup j m)
  unfolding lookup map_values
  lookup-map_values f j [] = refl
  lookup-map_values f j ((i, w) ∷ m) = ground (arith, lookup-map_values f j m)
