-- ===== src/Dict/Unique.antt =====
-- Dictionaries whose keys are all different, and properties of all their entries.
use undermoon.Prelude.{
  ℕ, ◌≡◌, refl, sym, subst, ◌∙◌, inl, inr, true, none, some, List, [], ◌∷◌, text_eq, if◌then◌else◌,
  arith, text_eq_iff, Bool-cases,
}
use undermoon.Dict.{Dict, lookup, insert, remove}
use undermoon.Dict.Laws.{lookup-insert, lookup-remove}

-- Comparing texts does not depend on their order.
pub text_eq_comm : (k j : List ℕ) → text_eq k j ≡ text_eq j k
text_eq_comm k j = elim (Bool-cases (text_eq j k)) [
  | inl same ↦ (text_eq_iff k j).1 (sym ((text_eq_iff j k).0 same)) ∙ sym same
  | inr differ ↦ elim (Bool-cases (text_eq k j)) [
    | inl same ↦
        let again : text_eq j k ≡ true = (text_eq_iff j k).1 (sym ((text_eq_iff k j).0 same)) in cc
    | inr differ' ↦ differ' ∙ sym differ
  ]
]

module _ {ℓ} {V : Type ℓ} where
  abbrev pub IsUnique : Dict V → Type ℓ
  IsUnique [] = Unit
  IsUnique ((k, v) ∷ m) = (lookup k m ≡ none) × IsUnique m

  abbrev pub AllEntries {κ} : (List ℕ → V → Type κ) → Dict V → Type κ
  AllEntries P [] = Unit
  AllEntries P ((k, v) ∷ m) = P k v × AllEntries P m

  pub insert-IsUnique : (k : List ℕ) (v : V) (m : Dict V) → IsUnique m → IsUnique (insert k v m)
  unfolding insert lookup
  insert-IsUnique k v [] u = (refl, tt)
  insert-IsUnique k v ((j, w) ∷ m) (free, u) = elim (Bool-cases (text_eq j k)) [
    | inl same ↦ rw same (free, u)
    | inr differ ↦
        rw differ
          (lookup-insert k j v m ∙ rw (text_eq_comm k j, differ) free, insert-IsUnique k v m u)
  ]

  pub remove-IsUnique : (k : List ℕ) (m : Dict V) → IsUnique m → IsUnique (remove k m)
  unfolding remove
  remove-IsUnique k [] u = tt
  remove-IsUnique k ((j, w) ∷ m) (free, u) = elim (Bool-cases (text_eq j k)) [
    | inl same ↦ rw same (remove-IsUnique k m u)
    | inr differ ↦
        rw differ (lookup-remove k j m ∙ rw (text_eq_comm k j, differ) free, remove-IsUnique k m u)
  ]

  module _ {κ} (P : List ℕ → V → Type κ) where
    pub insert-AllEntries :
        (k : List ℕ) (v : V) (m : Dict V) → P k v → AllEntries P m → AllEntries P (insert k v m)
    unfolding insert
    insert-AllEntries k v [] p h = (p, tt)
    insert-AllEntries k v ((j, w) ∷ m) p (q, h) = elim (Bool-cases (text_eq j k)) [
      | inl same ↦ rw same (subst (λ i. P i v) (sym ((text_eq_iff j k).0 same)) p, h)
      | inr differ ↦ rw differ (q, insert-AllEntries k v m p h)
    ]

    pub remove-AllEntries : (k : List ℕ) (m : Dict V) → AllEntries P m → AllEntries P (remove k m)
    unfolding remove
    remove-AllEntries k [] h = tt
    remove-AllEntries k ((j, w) ∷ m) (q, h) = elim (Bool-cases (text_eq j k)) [
      | inl same ↦ rw same (remove-AllEntries k m h)
      | inr differ ↦ rw differ (q, remove-AllEntries k m h)
    ]

    pub lookup-AllEntries :
        (k : List ℕ) (v : V) (m : Dict V) → AllEntries P m → lookup k m ≡ some v → P k v
    unfolding lookup
    lookup-AllEntries k v [] h e = cc
    lookup-AllEntries k v ((j, w) ∷ m) (q, h) e = elim (Bool-cases (text_eq j k)) [
      | inl same ↦
          let there : some w ≡ some v =
            subst (λ b. (if b then some w else lookup k m) ≡ some v) same e in
          subst (λ i. P i v) ((text_eq_iff j k).0 same) (subst (P j) (cc) q)
      | inr differ ↦
          lookup-AllEntries k v m h
            (subst (λ b. (if b then some w else lookup k m) ≡ some v) differ e)
    ]

  -- Writing back what is there changes nothing.
  pub insert-lookup : (k : List ℕ) (v : V) (m : Dict V) → lookup k m ≡ some v → insert k v m ≡ m
  unfolding lookup insert
  insert-lookup k v [] e = cc
  insert-lookup k v ((j, w) ∷ m) e = ground (arith, insert-lookup k v m)
