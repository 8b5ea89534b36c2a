-- ===== src/Broker/Proxies/Mult.antt =====
-- How often a list of addresses holds an address.
use undermoon.Prelude.{
  ℕ, ◌+◌, ◌≡◌, refl, ap, ◌∙◌, Bool, true, ◌||◌, List, [], ◌∷◌, ◌++◌, arith, to_num, ltb, text_eq,
  text_eq_refl, All,
}
use undermoon.Cluster.{Text}
use undermoon.Broker.Proxies.{text_mem}

abbrev pub mult : Text → List Text → ℕ
mult a [] = 0
mult a (x ∷ xs) = to_num (text_eq x a) + mult a xs

pub mult-append : (a : Text) (xs ys : List Text) → mult a (xs ++ ys) ≡ mult a xs + mult a ys
mult-append a [] ys = omega arith
mult-append a (x ∷ xs) ys = omega (arith, mult-append a xs ys)

pub text_mem-mult : (a : Text) (xs : List Text) → text_mem a xs ≡ ltb 0 (mult a xs)
unfolding text_mem
text_mem-mult a [] = refl
text_mem-mult a (x ∷ xs) = ground (arith, text_mem-mult a xs)

pub All-text_mem {ℓ} :
    (P : Text → Type ℓ) (xs : List Text) → ((a : Text) → text_mem a xs ≡ true → P a) → All P xs
unfolding text_mem
All-text_mem P [] h = tt
All-text_mem P (x ∷ xs) h = (
  h x (ap (λ b. b || text_mem x xs) (text_eq_refl x)),
  All-text_mem P xs (λ a e. h a (ap (λ b. text_eq x a || b) e ∙ or_true (text_eq x a))),
)
  where
    or_true : (b : Bool) → (b || true) ≡ true
    or_true b = ground arith
