-- ===== src/Table.antt =====
-- std::collections::HashMap with usize keys, as an association list. The order of the list stands
-- for the map's iteration order, which nothing here depends on.
pub mod Keys
pub mod Values
use rustcomm.Prelude.{
  ℕ, ◌≡◌, refl, Bool, true, false, Option, none, some, List, [], ◌∷◌, arith, ◌==◌, if◌then◌else◌,
}

abbrev pub Table {ℓ} : Type ℓ → Type ℓ
Table V = List (ℕ × V)

module _ {ℓ} {V : Type ℓ} where
  unfoldable pub lookup : ℕ → Table V → Option V
  lookup id [] = none
  lookup id ((other, value) ∷ table) =
      let elsewhere = lookup id table in if other == id then some value else elsewhere

  -- A second value for a key takes the place of the first.
  unfoldable pub insert : ℕ → V → Table V → Table V
  insert id new [] = (id, new) ∷ []
  insert id new ((other, value) ∷ table) =
      let behind = (other, value) ∷ insert id new table in
      if other == id then (id, new) ∷ table else behind

  unfoldable pub remove : ℕ → Table V → Table V
  remove k [] = []
  remove k ((j, v) ∷ m) = let rest = remove k m in if j == k then rest else (j, v) ∷ rest

  unfoldable pub keys : Table V → List ℕ
  keys [] = []
  keys ((k, v) ∷ m) = k ∷ keys m

  abbrev pub is_some : Option V → Bool
  is_some none = false
  is_some (some v) = true

  unfoldable pub contains_key : ℕ → Table V → Bool
  unfolding lookup
  contains_key k m = is_some (lookup k m)

  unfoldable pub is_empty : Table V → Bool
  is_empty [] = true
  is_empty (e ∷ m) = false

module _ {ℓ} {V : Type ℓ} where
  pub lookup-insert :
      (id wanted : ℕ) (new : V) (table : Table V)
      → lookup wanted (insert id new table)
        ≡ (if id == wanted then some new else lookup wanted table)
  unfolding lookup insert
  lookup-insert id wanted new [] = refl
  lookup-insert id wanted new (entry ∷ table) = ground (arith, lookup-insert id wanted new table)

  pub lookup-remove :
      (k j : ℕ) (m : Table V) → lookup j (remove k m) ≡ (if k == j then none else lookup j m)
  unfolding lookup remove
  lookup-remove k j [] = ground arith
  lookup-remove k j ((i, w) ∷ m) = ground (arith, lookup-remove k j m)

pub lookup-empty {ℓ} : {V : Type ℓ} (k : ℕ) → lookup {V = V} k [] ≡ none
unfolding lookup
lookup-empty k = refl

pub ruleset table_laws = (lookup-insert, lookup-remove, lookup-empty)
