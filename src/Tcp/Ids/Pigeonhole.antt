-- ===== src/Tcp/Ids/Pigeonhole.antt =====
-- Distinct numbers that all lie in a list are no more than the list is long.
use rustcomm.Prelude.{
  contains, Distinct, ℕ, suc, ◌≤◌, ◌≡◌, ◌≢◌, true, false, List, [], ◌∷◌, ◌++◌, arith, length, All,
  ◌==◌, if◌then◌else◌,
}

erase : ℕ → List ℕ → List ℕ
erase x [] = []
erase x (y ∷ ys) = if y == x then ys else y ∷ erase x ys

length-erase : (x : ℕ) (ys : List ℕ) → contains ys x ≡ true → suc (length (erase x ys)) ≡ length ys
unfolding contains erase
length-erase x [] h = cc
length-erase x (y ∷ ys) h = ground (arith, length-erase x ys)

contains-erase :
    (x z : ℕ) (ys : List ℕ) → contains ys z ≡ true → z ≢ x → contains (erase x ys) z ≡ true
unfolding contains erase
contains-erase x z [] h n = cc
contains-erase x z (y ∷ ys) h n = ground (arith, contains-erase x z ys)

abbrev pub Within : List ℕ → List ℕ → Type 0
Within xs ys = All (λ x. contains ys x ≡ true) xs

Within-erase :
    (x : ℕ) (xs ys : List ℕ) → Within xs ys → contains xs x ≡ false → Within xs (erase x ys)
unfolding contains
Within-erase x [] ys w h = tt
Within-erase x (z ∷ xs) ys w h =
    (contains-erase x z ys w.0 (ground arith), Within-erase x xs ys w.1 (ground arith))

pub length-Within : (xs ys : List ℕ) → Distinct xs → Within xs ys → length xs ≤ length ys
length-Within [] ys d w = omega arith
length-Within (x ∷ xs) ys d w =
    omega (
      arith,
      length-erase x ys w.0,
      length-Within xs (erase x ys) d.1 (Within-erase x xs ys w.1 d.0),
    )

pub contains-append_left :
    (xs ys : List ℕ) (x : ℕ) → contains xs x ≡ true → contains (xs ++ ys) x ≡ true
unfolding contains
contains-append_left [] ys x h = cc
contains-append_left (y ∷ xs) ys x h = ground (arith, contains-append_left xs ys x)

pub contains-append_right :
    (xs ys : List ℕ) (x : ℕ) → contains ys x ≡ true → contains (xs ++ ys) x ≡ true
unfolding contains
contains-append_right [] ys x h = h
contains-append_right (y ∷ xs) ys x h = ground (arith, contains-append_right xs ys x)
