-- ===== src/Prelude/Lists.antt =====
-- Lists measured by native numbers, under the library's names, and predicates on lists.
use Prim.Native.Nat.{ℕ, zero, suc, ◌+◌, ◌-◌, ◌≤◌}
use mathlib.Core.Path.{◌≡◌, refl, ap}
use mathlib.Core.List.{Memᴰ, List, [], ◌∷◌, ◌++◌}
use mathlib.Core.Bool.{Bool}
use native.Mathlib.Omega.{arith}
use dev_board.Prelude.Tests.{if◌then◌else◌}

module _ {ℓ} {A : Type ℓ} where
  abbrev pub length : List A → ℕ
  length [] = 0
  length (x ∷ xs) = suc (length xs)

  abbrev pub drop : ℕ → List A → List A
  drop zero xs = xs
  drop (suc n) [] = []
  drop (suc n) (x ∷ xs) = drop n xs

  abbrev pub take : ℕ → List A → List A
  take zero xs = []
  take (suc n) [] = []
  take (suc n) (x ∷ xs) = x ∷ take n xs

  pub take-length : (n : ℕ) (xs : List A) → length xs ≤ n → take n xs ≡ xs
  take-length zero [] h = refl
  take-length zero (x ∷ xs) h = ground (arith, h)
  take-length (suc n) [] h = refl
  take-length (suc n) (x ∷ xs) h = ap (◌∷◌ x) (take-length n xs (omega (arith, h)))

  pub take-append : (n : ℕ) (xs ys : List A) → n ≤ length xs → take n (xs ++ ys) ≡ take n xs
  take-append zero xs ys h = refl
  take-append (suc n) [] ys h = ground (arith, h)
  take-append (suc n) (x ∷ xs) ys h = ap (◌∷◌ x) (take-append n xs ys (omega (arith, h)))

  pub length-append : (xs ys : List A) → length (xs ++ ys) ≡ length xs + length ys
  length-append [] ys = omega arith
  length-append (x ∷ xs) ys = omega (arith, length-append xs ys)

  pub length-drop : (n : ℕ) (xs : List A) → length (drop n xs) ≡ length xs - n
  length-drop zero xs = omega arith
  length-drop (suc n) [] = omega arith
  length-drop (suc n) (x ∷ xs) = omega (arith, length-drop n xs)

-- The items that a test keeps, in their order.
abbrev pub filter {ℓ} : {A : Type ℓ} → (A → Bool) → List A → List A
filter p [] = []
filter p (x ∷ xs) = let rest = filter p xs in if p x then x ∷ rest else rest

-- Every item has the property.
abbrev pub All {ℓ κ} : {A : Type ℓ} → (A → Type κ) → List A → Type κ
All P [] = Unit
All P (x ∷ xs) = P x × All P xs

pub All-every {ℓ κ} : {A : Type ℓ} {P : A → Type κ} → ((a : A) → P a) → (xs : List A) → All P xs
All-every p [] = tt
All-every p (x ∷ xs) = (p x, All-every p xs)

pub All-map {ℓ κ μ} :
    {A : Type ℓ} {P : A → Type κ} {Q : A → Type μ}
    → ((a : A) → P a → Q a)
    → (xs : List A) → All P xs
    → All Q xs
All-map f [] h = tt
All-map f (x ∷ xs) h = (f x h.0, All-map f xs h.1)

pub All-mem {ℓ} : {A : Type ℓ} (xs : List A) → All (λ x. Memᴰ x xs) xs
All-mem [] = tt
All-mem (x ∷ xs) = (Memᴰ.head refl, All-map (λ y m. Memᴰ.tail m) xs (All-mem xs))
