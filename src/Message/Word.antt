-- ===== src/Message/Word.antt =====
-- u32::to_le_bytes and u32::from_le_bytes.
use rustcomm.Prelude.{ℕ, ◌+◌, ◌*◌, ◌/◌, ◌%◌, ◌^◌, ◌<◌, ◌≡◌, List, [], ◌∷◌, ◌++◌, arith}

unfoldable pub to_le_bytes : ℕ → List ℕ
to_le_bytes n = n % 256 ∷ n / 256 % 256 ∷ n / 65536 % 256 ∷ n / 16777216 % 256 ∷ []

-- The source reads four bytes; the other cases are never reached.
unfoldable pub from_le_bytes : List ℕ → ℕ
from_le_bytes (a ∷ b ∷ c ∷ d ∷ _) = a + 256 * b + 65536 * c + 16777216 * d
from_le_bytes _ = 0

pub from_le_bytes-to_le_bytes :
    (n : ℕ) (rest : List ℕ) → n < 2 ^ 32 → from_le_bytes (to_le_bytes n ++ rest) ≡ n
unfolding to_le_bytes from_le_bytes
from_le_bytes-to_le_bytes n rest h = omega arith
