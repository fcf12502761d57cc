-- ===== src/Table/Values.antt =====
-- A table whose values are replaced by a function of them: what the operations do to it.
use rustcomm.Prelude.{ℕ, suc, ◌≡◌, refl, ap, Option, none, some, [], ◌∷◌, arith, length}
use rustcomm.Table.{Table, lookup, insert, remove, keys, is_some, is_empty}

module _ {V W : Type 0} (f : V → W) where
  abbrev pub map_option : Option V → Option W
  map_option none = none
  map_option (some v) = some (f v)

  unfoldable pub map_values : Table V → Table W
  map_values [] = []
  map_values ((id, value) ∷ table) = (id, f value) ∷ map_values table

  pub lookup-map_values :
      (id : ℕ) (table : Table V) → lookup id (map_values table) ≡ map_option (lookup id table)
  unfolding lookup map_values
  lookup-map_values id [] = refl
  lookup-map_values id (entry ∷ table) = ground (arith, lookup-map_values id table)

  pub insert-map_values :
      (id : ℕ) (new : V) (table : Table V)
      → map_values (insert id new table) ≡ insert id (f new) (map_values table)
  unfolding insert map_values
  insert-map_values id new [] = refl
  insert-map_values id new (entry ∷ table) = ground (arith, insert-map_values id new table)

  pub remove-map_values :
      (id : ℕ) (table : Table V) → map_values (remove id table) ≡ remove id (map_values table)
  unfolding remove map_values
  remove-map_values id [] = refl
  remove-map_values id (entry ∷ table) = ground (arith, remove-map_values id table)

  pub keys-map_values : (table : Table V) → keys (map_values table) ≡ keys table
  unfolding keys map_values
  keys-map_values [] = refl
  keys-map_values (entry ∷ table) = ap (entry.0 ∷◌) (keys-map_values table)

  pub length-map_values : (table : Table V) → length (map_values table) ≡ length table
  unfolding map_values
  length-map_values [] = refl
  length-map_values (entry ∷ table) = ap suc (length-map_values table)

  pub is_empty-map_values : (table : Table V) → is_empty (map_values table) ≡ is_empty table
  unfolding map_values is_empty
  is_empty-map_values [] = refl
  is_empty-map_values (entry ∷ table) = refl

  pub is_some-map_option : (o : Option V) → is_some (map_option o) ≡ is_some o
  is_some-map_option none = refl
  is_some-map_option (some v) = refl
