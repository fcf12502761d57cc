-- ===== src/Message/Utf8.antt =====
-- The test of std::str::from_utf8: well-formed UTF-8 by the table of byte ranges.
use rustcomm.Prelude.{
  ℕ, Bool, true, false, ◌&&◌, Option, none, some, List, [], ◌∷◌, ltb, leb, ◌==◌, if◌then◌else◌,
}

-- The ranges of the bytes that must follow a lead byte.
follow : ℕ → Option (List (ℕ × ℕ))
follow b =
    if ltb b 0x80
    then some []
    else if ltb b 0xc2
    then none
    else if ltb b 0xe0
    then some ((0x80, 0xbf) ∷ [])
    else if b == 0xe0
    then some ((0xa0, 0xbf) ∷ (0x80, 0xbf) ∷ [])
    else if b == 0xed
    then some ((0x80, 0x9f) ∷ (0x80, 0xbf) ∷ [])
    else if ltb b 0xf0
    then some ((0x80, 0xbf) ∷ (0x80, 0xbf) ∷ [])
    else if b == 0xf0
    then some ((0x90, 0xbf) ∷ (0x80, 0xbf) ∷ (0x80, 0xbf) ∷ [])
    else if ltb b 0xf4
    then some ((0x80, 0xbf) ∷ (0x80, 0xbf) ∷ (0x80, 0xbf) ∷ [])
    else if b == 0xf4
    then some ((0x80, 0x8f) ∷ (0x80, 0xbf) ∷ (0x80, 0xbf) ∷ [])
    else none

utf8_from : List (ℕ × ℕ) → List ℕ → Bool
unfolding follow
utf8_from [] [] = true
utf8_from (p ∷ pending) [] = false
utf8_from [] (b ∷ bytes) = elim (follow b) [ none ↦ false | some pending ↦ utf8_from pending bytes ]
utf8_from ((low, high) ∷ pending) (b ∷ bytes) = leb low b && leb b high && utf8_from pending bytes

unfoldable pub valid_utf8 : List ℕ → Bool
unfolding utf8_from
valid_utf8 bytes = utf8_from [] bytes
