-- ===== src/Tcp/Ids/Cycle.antt =====
-- The candidates of advance_connection_id run through the ids in a cycle, so that none comes twice.
use rustcomm.Prelude.{
  contains, Distinct, ℕ, zero, suc, ◌+◌, ◌-◌, ◌%◌, ◌≤◌, ◌<◌, ◌≡◌, refl, true, false, List, [], ◌∷◌,
  arith, length, inl, inr, Bool-cases,
}
use rustcomm.Tcp.State.{next, usize_max, connection_id_range_start}

-- The number of ids.
abbrev pub id_count : ℕ
id_count = usize_max - connection_id_range_start + 1

abbrev pub InRange : ℕ → Type 0
InRange id = (connection_id_range_start ≤ id) × (id ≤ usize_max)

pub next-InRange : (id : ℕ) → InRange id → InRange (next id)
unfolding next
next-InRange id h = ground arith

unfoldable pub candidates : ℕ → ℕ → List ℕ
candidates zero id = []
candidates (suc n) id = next id ∷ candidates n (next id)

pub length-candidates : (n id : ℕ) → length (candidates n id) ≡ n
unfolding candidates
length-candidates zero id = refl
length-candidates (suc n) id = omega (arith, length-candidates n (next id))

-- How many steps lead from `a` to `x`.
steps : ℕ → ℕ → ℕ
steps a x = (x + id_count - a) % id_count

steps-next : (id : ℕ) → InRange id → steps id (next id) ≡ 1
unfolding steps next
steps-next id h = ground arith

steps-from_next :
    (id x n : ℕ)
    → InRange id
    → InRange x
    → steps (next id) x ≤ n
    → suc n < id_count
    → steps id x ≡ suc (steps (next id) x)
unfolding steps next
steps-from_next id x n h k le small = ground arith

candidates-steps :
    (n id x : ℕ)
    → InRange id
    → InRange x
    → n < id_count
    → contains (candidates n id) x ≡ true
    → (1 ≤ steps id x) × (steps id x ≤ n)
unfolding candidates contains
candidates-steps zero id x h k small e = cc
candidates-steps (suc n) id x h k small e = ground (
  arith,
  steps-next id h,
  candidates-steps n (next id) x (next-InRange id h) k,
  steps-from_next id x n h k,
)

candidates_self : (n id : ℕ) → InRange id → n < id_count → contains (candidates n id) id ≡ false
unfolding steps
candidates_self n id h small = elim (Bool-cases (contains (candidates n id) id)) [
  | inl e ↦ absurd (omega (arith, candidates-steps n id id h h small e))
  | inr e ↦ e
]

pub candidates-Distinct : (n id : ℕ) → InRange id → n ≤ id_count → Distinct (candidates n id)
unfolding candidates
candidates-Distinct zero id h small = tt
candidates-Distinct (suc n) id h small = (
  candidates_self n (next id) (next-InRange id h) (omega arith),
  candidates-Distinct n (next id) (next-InRange id h) (omega arith),
)
