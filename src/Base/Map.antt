-- ===== src/Base/Map.antt =====
-- Hash maps and hash sets as association lists and lists. The order of a list stands for the
-- iteration order of the table, on which the program may not rely: a theorem about every list is a
-- theorem about every order.
use mathlib.Core.Path.{◌≡◌, refl}
use mathlib.Core.Logic.{inl, inr}
use mathlib.Core.Bool.{Bool, true, false, ◌||◌}
use mathlib.Core.Option.{Option, none, some}
use mathlib.Core.List.{List, [], ◌∷◌}
use native.Mathlib.Omega.{arith}
use mini_lmk.Base.Tests.{if◌then◌else◌, Bool-cases}
use mini_lmk.Base.Eq.{Eq, ◌≟◌}

abbrev pub map_option {ℓ κ} : {A : Type ℓ} {B : Type κ} → (A → B) → Option A → Option B
map_option f none = none
map_option f (some a) = some (f a)

abbrev pub Map : Type 0 → Type 0 → Type 0
Map K V = List (K × V)

module _ {K V : Type 0} where
  -- `values_mut`
  unfoldable pub map_values : (V → V) → Map K V → Map K V
  map_values f [] = []
  map_values f ((k, v) ∷ m) = (k, f v) ∷ map_values f m

  unfoldable pub retain_values : (V → Bool) → Map K V → Map K V
  retain_values p [] = []
  retain_values p ((k, v) ∷ m) = let rest = retain_values p m in if p v then (k, v) ∷ rest else rest

module _ {K : Type 0} ⦃e : Eq K⦄ where
  -- `HashSet::contains`, `insert`, `remove`
  unfoldable pub contains : K → List K → Bool
  contains k [] = false
  contains k (x ∷ xs) = x ≟ k || contains k xs

  unfoldable pub add : K → List K → List K
  unfolding contains
  add k xs = if contains k xs then xs else k ∷ xs

  unfoldable pub discard : K → List K → List K
  discard k [] = []
  discard k (x ∷ xs) = let rest = discard k xs in if x ≟ k then rest else x ∷ rest

  pub beq_refl : (k : K) → (k ≟ k) ≡ true
  beq_refl k = (e.beq_iff k k).1 refl

  pub contains-add :
      (k j : K) (xs : List K) → contains j (add k xs) ≡ (if k ≟ j then true else contains j xs)
  unfolding contains add
  contains-add k j xs = elim (Bool-cases (contains k xs)) [
    | inl h ↦ elim (Bool-cases (k ≟ j)) [
      | inl eq ↦ rw (h, eq) (rw ((e.beq_iff k j).0 eq) at h)
      | inr ne ↦ rw (h, ne)
    ]
    | inr h ↦ elim (Bool-cases (k ≟ j)) [ inl eq ↦ rw (h, eq) | inr ne ↦ rw (h, ne) ]
  ]

  pub contains-discard :
      (k j : K) (xs : List K) → contains j (discard k xs) ≡ (if k ≟ j then false else contains j xs)
  unfolding contains discard
  contains-discard k j [] = ground arith
  contains-discard k j (x ∷ xs) =
      ground (arith, contains-discard k j xs, e.beq_iff x k, e.beq_iff x j, e.beq_iff k j)

module _ {K V : Type 0} ⦃e : Eq K⦄ where
  -- `HashMap::get`
  unfoldable pub lookup : K → Map K V → Option V
  lookup k [] = none
  lookup k ((j, v) ∷ m) = if j ≟ k then some v else lookup k m

  -- `HashMap::insert`
  unfoldable pub insert : K → V → Map K V → Map K V
  insert k v [] = (k, v) ∷ []
  insert k v ((j, w) ∷ m) = if j ≟ k then (k, v) ∷ m else (j, w) ∷ insert k v m

  -- `HashMap::remove`
  unfoldable pub remove : K → Map K V → Map K V
  remove k [] = []
  remove k ((j, v) ∷ m) = let rest = remove k m in if j ≟ k then rest else (j, v) ∷ rest

  -- `get_mut` and a write through it
  unfoldable pub modify : K → (V → V) → Map K V → Map K V
  modify k f [] = []
  modify k f ((j, v) ∷ m) = if j ≟ k then (j, f v) ∷ m else (j, v) ∷ modify k f m

  pub lookup-insert :
      (k j : K) (v : V) (m : Map K V)
      → lookup j (insert k v m) ≡ (if k ≟ j then some v else lookup j m)
  unfolding lookup insert
  lookup-insert k j v [] = refl
  lookup-insert k j v ((i, w) ∷ m) =
      ground (arith, lookup-insert k j v m, e.beq_iff i k, e.beq_iff i j, e.beq_iff k j)

  pub lookup-remove :
      (k j : K) (m : Map K V) → lookup j (remove k m) ≡ (if k ≟ j then none else lookup j m)
  unfolding lookup remove
  lookup-remove k j [] = ground arith
  lookup-remove k j ((i, w) ∷ m) =
      ground (arith, lookup-remove k j m, e.beq_iff i k, e.beq_iff i j, e.beq_iff k j)

  pub lookup-modify :
      (k j : K) (f : V → V) (m : Map K V)
      → lookup j (modify k f m) ≡ (if k ≟ j then map_option f (lookup j m) else lookup j m)
  unfolding lookup modify
  lookup-modify k j f [] = ground arith
  lookup-modify k j f ((i, w) ∷ m) =
      ground (arith, lookup-modify k j f m, e.beq_iff i k, e.beq_iff i j, e.beq_iff k j)

  pub lookup-map_values :
      (k : K) (f : V → V) (m : Map K V) → lookup k (map_values f m) ≡ map_option f (lookup k m)
  unfolding lookup map_values
  lookup-map_values k f [] = refl
  lookup-map_values k f ((i, w) ∷ m) = ground (arith, lookup-map_values k f m)
