-- ===== src/Table/Keys.antt =====
-- The keys of a map: they are distinct, and those that `lookup` knows.
use rustcomm.Prelude.{ℕ, ◌≡◌, refl, ◌||◌, not, ◌&&◌, [], ◌∷◌, arith, ◌==◌, contains, Distinct}
use rustcomm.Table.{Table, lookup, insert, remove, keys, is_some}

module _ {ℓ} {V : Type ℓ} where
  pub contains-keys : (k : ℕ) (m : Table V) → contains (keys m) k ≡ is_some (lookup k m)
  unfolding contains keys lookup
  contains-keys k [] = refl
  contains-keys k ((j, v) ∷ m) = ground (arith, contains-keys k m)

  contains-keys-insert :
      (k j : ℕ) (v : V) (m : Table V)
      → contains (keys (insert k v m)) j ≡ (k == j || contains (keys m) j)
  unfolding contains keys insert
  contains-keys-insert k j v [] = refl
  contains-keys-insert k j v ((i, w) ∷ m) = ground (arith, contains-keys-insert k j v m)

  contains-keys-remove :
      (k j : ℕ) (m : Table V)
      → contains (keys (remove k m)) j ≡ (not (k == j) && contains (keys m) j)
  unfolding contains keys remove
  contains-keys-remove k j [] = ground arith
  contains-keys-remove k j ((i, w) ∷ m) = ground (arith, contains-keys-remove k j m)

  pub insert-Distinct :
      (k : ℕ) (v : V) (m : Table V) → Distinct (keys m) → Distinct (keys (insert k v m))
  unfolding keys insert contains
  insert-Distinct k v [] d = ground arith
  insert-Distinct k v ((i, w) ∷ m) d =
      ground (arith, insert-Distinct k v m d.1, contains-keys-insert k i v m)

  pub remove-Distinct : (k : ℕ) (m : Table V) → Distinct (keys m) → Distinct (keys (remove k m))
  unfolding keys remove
  remove-Distinct k [] d = tt
  remove-Distinct k ((i, w) ∷ m) d =
      ground (arith, remove-Distinct k m d.1, contains-keys-remove k i m)
