-- ===== src/Prelude/Dict.antt =====
-- A Go map with string keys as an association list, and a Go set of strings as a list. No modelled
-- code depends on the order in which a map is walked.
use Prim.Native.String.{String}
use mathlib.Core.Path.{◌≡◌, refl}
use mathlib.Core.Logic.{◌⊎◌, ◌≢◌}
use text.Mathlib.TextPositions.{eq_refl}
use mathlib.Core.Bool.{Bool, false, ◌||◌}
use mathlib.Core.Option.{Option, none, some}
use mathlib.Core.List.{List, [], ◌∷◌, ◌++◌}
use native.Mathlib.Omega.{arith}
use text.Mathlib.Text.{◌==◌}
use text.Mathlib.TextEquality.{eq_iff}
use dev_board.Prelude.Tests.{if◌then◌else◌}

abbrev pub Dict {ℓ} : Type ℓ → Type ℓ
Dict V = List (String × V)

module _ {ℓ} {V : Type ℓ} where
  -- v, ok := m[k]
  unfoldable pub lookup : String → Dict V → Option V
  lookup key [] = none
  lookup key (entry ∷ rest) =
      let deeper = lookup key rest in if entry.0 == key then some entry.1 else deeper

  -- m[k] = v
  unfoldable pub insert : String → V → Dict V → Dict V
  insert key value [] = (key, value) ∷ []
  insert key value (entry ∷ rest) =
      let deeper = insert key value rest in
      if entry.0 == key then (key, value) ∷ rest else entry ∷ deeper

  -- delete(m, k)
  unfoldable pub delete : String → Dict V → Dict V
  delete k [] = []
  delete k ((j, v) ∷ m) = let rest = delete k m in if j == k then rest else (j, v) ∷ rest

  unfoldable pub contains_key : String → Dict V → Bool
  contains_key k [] = false
  contains_key k ((j, v) ∷ m) = j == k || contains_key k m

  pub lookup-insert :
      (set key : String) (value : V) (dict : Dict V)
      → lookup key (insert set value dict) ≡ (if set == key then some value else lookup key dict)
  unfolding lookup insert
  lookup-insert set key value [] = refl
  lookup-insert set key value ((other, old) ∷ rest) =
      ground (
        arith,
        lookup-insert set key value rest,
        eq_iff other set,
        eq_iff other key,
        eq_iff set key,
      )

  pub lookup-delete :
      (k j : String) (m : Dict V) → lookup j (delete k m) ≡ (if k == j then none else lookup j m)
  unfolding lookup delete
  lookup-delete k j [] = ground arith
  lookup-delete k j ((i, v) ∷ m) =
      ground (arith, lookup-delete k j m, eq_iff i k, eq_iff i j, eq_iff k j)

  pub lookup-insert_self : (k : String) (v : V) (m : Dict V) → lookup k (insert k v m) ≡ some v
  lookup-insert_self k v m = simp (lookup-insert, eq_refl)

  pub lookup-insert_ne :
      (k j : String) (v : V) (m : Dict V) → k ≢ j → lookup j (insert k v m) ≡ lookup j m
  lookup-insert_ne k j v m h = ground (arith, lookup-insert k j v m, eq_iff k j)

  -- An entry of an updated map is the new one, or an old one.
  pub lookup-insert_cases :
      (k j : String) (v w : V) (m : Dict V)
      → lookup j (insert k v m) ≡ some w
      → ((k ≡ j) × (w ≡ v)) ⊎ (lookup j m ≡ some w)
  lookup-insert_cases k j v w m h = ground (arith, lookup-insert k j v m, eq_iff k j)

-- `_, ok := set[a]`, and a loop over a slice that looks for `a`
unfoldable pub contains : String → List String → Bool
contains a [] = false
contains a (x ∷ xs) = x == a || contains a xs

pub contains-append :
    (a : String) (xs ys : List String) → contains a (xs ++ ys) ≡ (contains a xs || contains a ys)
unfolding contains
contains-append a [] ys = refl
contains-append a (x ∷ xs) ys = ground (arith, contains-append a xs ys)
