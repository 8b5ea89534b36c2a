-- ===== src/Prelude/Lists.antt =====
-- Lists measured and indexed by native numbers, under the library's names.
use Prim.Native.Nat.{ℕ, zero, suc, ◌+◌, ◌<◌}
use mathlib.Core.Path.{◌≡◌, refl, ap, subst}
use mathlib.Core.Logic.{◌≢◌}
use mathlib.Core.Bool.{Bool, false, ◌||◌}
use mathlib.Core.List.{List, [], ◌∷◌, ◌++◌, append_assoc}
use mathlib.Core.Option.{Option, none, some}
use native.Mathlib.Omega.{arith}

module _ {ℓ} {A : Type ℓ} where
  abbrev pub length : List A → ℕ
  length [] = 0
  length (x ∷ xs) = suc (length xs)

  abbrev pub get_elem? : List A → ℕ → Option A
  get_elem? [] i = none
  get_elem? (x ∷ xs) zero = some x
  get_elem? (x ∷ xs) (suc i) = get_elem? xs i

  abbrev pub set : List A → ℕ → A → List A
  set [] i v = []
  set (x ∷ xs) zero v = v ∷ xs
  set (x ∷ xs) (suc i) v = x ∷ set xs i v

  abbrev pub take : ℕ → List A → List A
  take zero xs = []
  take (suc n) [] = []
  take (suc n) (x ∷ xs) = x ∷ take n xs

  abbrev pub drop : ℕ → List A → List A
  drop zero xs = xs
  drop (suc n) [] = []
  drop (suc n) (x ∷ xs) = drop n xs

  abbrev pub replicate : ℕ → A → List A
  replicate zero a = []
  replicate (suc n) a = a ∷ replicate n a

  -- Whether some element passes the test.
  abbrev pub any : (A → Bool) → List A → Bool
  any p [] = false
  any p (x ∷ xs) = p x || any p xs

  -- A predicate of every element.
  abbrev pub All {κ} : (A → Type κ) → List A → Type κ
  All P [] = Unit
  All P (x ∷ xs) = P x × All P xs

module _ {ℓ} {A : Type ℓ} where
  pub length-append : (xs ys : List A) → length (xs ++ ys) ≡ length xs + length ys
  length-append [] ys = omega arith
  length-append (x ∷ xs) ys = omega (arith, length-append xs ys)

  pub length-set : (xs : List A) (i : ℕ) (v : A) → length (set xs i v) ≡ length xs
  length-set [] i v = refl
  length-set (x ∷ xs) zero v = refl
  length-set (x ∷ xs) (suc i) v = ap suc (length-set xs i v)

  pub length-replicate : (n : ℕ) (a : A) → length (replicate n a) ≡ n
  length-replicate zero a = refl
  length-replicate (suc n) a = ap suc (length-replicate n a)

  pub get_elem?-set_self :
      (xs : List A) (i : ℕ) (v : A) → i < length xs → get_elem? (set xs i v) i ≡ some v
  get_elem?-set_self [] i v h = elim h [ ]
  get_elem?-set_self (x ∷ xs) zero v h = refl
  get_elem?-set_self (x ∷ xs) (suc i) v h = get_elem?-set_self xs i v (omega arith)

  pub get_elem?-set_ne :
      (xs : List A) {i j : ℕ} (v : A) → i ≢ j → get_elem? (set xs i v) j ≡ get_elem? xs j
  get_elem?-set_ne [] v h = refl
  get_elem?-set_ne (x ∷ xs) {i = zero} {j = zero} v h = absurd (h refl)
  get_elem?-set_ne (x ∷ xs) {i = zero} {j = suc j} v h = refl
  get_elem?-set_ne (x ∷ xs) {i = suc i} {j = zero} v h = refl
  get_elem?-set_ne (x ∷ xs) {i = suc i} {j = suc j} v h = get_elem?-set_ne xs v (λ e. h (ap suc e))

  pub any-append : (p : A → Bool) (xs ys : List A) → any p (xs ++ ys) ≡ (any p xs || any p ys)
  any-append p [] ys = refl
  any-append p (x ∷ xs) ys = ground (arith, any-append p xs ys)

  -- The element behind a prefix, read, written and cut by its index.
  pub get_elem?-append :
      (pre : List A) (x : A) (xs : List A) → get_elem? (pre ++ x ∷ xs) (length pre) ≡ some x
  get_elem?-append [] x xs = refl
  get_elem?-append (y ∷ pre) x xs = get_elem?-append pre x xs

  pub get_elem?-append_end : (pre : List A) → get_elem? pre (length pre) ≡ none
  get_elem?-append_end [] = refl
  get_elem?-append_end (y ∷ pre) = get_elem?-append_end pre

  pub set-append :
      (pre : List A) (x y : A) (xs : List A) → set (pre ++ x ∷ xs) (length pre) y ≡ pre ++ y ∷ xs
  set-append [] x y xs = refl
  set-append (z ∷ pre) x y xs = ap (◌∷◌ z) (set-append pre x y xs)

  pub take-append : (pre xs : List A) → take (length pre) (pre ++ xs) ≡ pre
  take-append [] xs = refl
  take-append (z ∷ pre) xs = ap (◌∷◌ z) (take-append pre xs)

  -- The same, at an index and a list that are equal to these.
  pub get_elem?_at :
      {xs : List A} {i : ℕ} (pre : List A) (x : A) (post : List A)
      → xs ≡ pre ++ x ∷ post
      → i ≡ length pre
      → get_elem? xs i ≡ some x
  get_elem?_at pre x post e k = rw (e, k) (get_elem?-append pre x post)

  pub get_elem?_at_end :
      {xs : List A} {i : ℕ} (pre : List A) → xs ≡ pre → i ≡ length pre → get_elem? xs i ≡ none
  get_elem?_at_end pre e k = rw (e, k) (get_elem?-append_end pre)

  pub set_at :
      {xs : List A} {i : ℕ} (pre : List A) (x y : A) (post : List A)
      → xs ≡ pre ++ x ∷ post
      → i ≡ length pre
      → set xs i y ≡ pre ++ y ∷ post
  set_at pre x y post e k = rw (e, k) (set-append pre x y post)

  pub take_at :
      {xs : List A} {i : ℕ} (pre post : List A)
      → xs ≡ pre ++ post
      → i ≡ length pre
      → take i xs ≡ pre
  take_at pre post e k = rw (e, k) (take-append pre post)

  pub length-snoc : (pre : List A) (x : A) → length pre + 1 ≡ length (pre ++ x ∷ [])
  length-snoc pre x = omega (arith, length-append pre (x ∷ []))

  pub append-snoc : (pre : List A) (x : A) (xs : List A) → pre ++ x ∷ xs ≡ (pre ++ x ∷ []) ++ xs
  append-snoc pre x xs = rw append_assoc

  pub get_elem?-some : (xs : List A) (i : ℕ) → i < length xs → (x : A) × (get_elem? xs i ≡ some x)
  get_elem?-some [] i h = elim h [ ]
  get_elem?-some (x ∷ xs) zero h = (x, refl)
  get_elem?-some (x ∷ xs) (suc i) h = get_elem?-some xs i (omega arith)

  pub All-get_elem? {κ} :
      (P : A → Type κ) (xs : List A) (i : ℕ) (x : A) → All P xs → get_elem? xs i ≡ some x → P x
  All-get_elem? P [] i x a e = cc
  All-get_elem? P (y ∷ xs) zero x a e = subst P (cc) a.0
  All-get_elem? P (y ∷ xs) (suc i) x a e = All-get_elem? P xs i x a.1 e

  pub All-set {κ} :
      (P : A → Type κ) (xs : List A) (i : ℕ) (x : A) → All P xs → P x → All P (set xs i x)
  All-set P [] i x a h = tt
  All-set P (y ∷ xs) zero x a h = (h, a.1)
  All-set P (y ∷ xs) (suc i) x a h = (a.0, All-set P xs i x a.1 h)

  pub All-append {κ} : (P : A → Type κ) (xs ys : List A) → All P xs → All P ys → All P (xs ++ ys)
  All-append P [] ys h k = k
  All-append P (x ∷ xs) ys h k = (h.0, All-append P xs ys h.1 k)

  pub All-split {κ} : (P : A → Type κ) (xs ys : List A) → All P (xs ++ ys) → All P xs × All P ys
  All-split P [] ys h = (tt, h)
  All-split P (x ∷ xs) ys (p, h) = let (front, back) = All-split P xs ys h in ((p, front), back)

  pub drop_at :
      {xs : List A} {i : ℕ} (pre post : List A)
      → xs ≡ pre ++ post
      → i ≡ length pre
      → drop i xs ≡ post
  drop_at pre post e k = rw (e, k) (drop-append pre post)
    where
      drop-append : (pre xs : List A) → drop (length pre) (pre ++ xs) ≡ xs
      drop-append [] xs = refl
      drop-append (z ∷ pre) xs = drop-append pre xs
