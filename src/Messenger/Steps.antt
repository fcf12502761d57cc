-- ===== src/Messenger/Steps.antt =====
-- One round of the loop over a receive buffer, by what `deserialize_message` finds at recv_pos.
use rustcomm.Prelude.{
  ℕ, zero, suc, ◌<◌, ◌≡◌, refl, inl, inr, true, false, List, [], ◌∷◌, ◌++◌, arith, length,
  length-append, drop-append, append_assoc, ltb, lt→ltb, Bool-cases,
}
use rustcomm.Error.{Error}
use rustcomm.Message.Registry.{MessageRegistry}
use rustcomm.Message.Frame.{Context, deserialize_message, decoded, incomplete, failed}
use rustcomm.Messenger.Receive.{parsed, parse_loop}

module _ {M C : Type 0} (context : Context C) (registry : MessageRegistry M) where
  pub parse_loop-incomplete :
      (before rest : List ℕ) (fuel : ℕ) (out : List (M × C))
      → deserialize_message context rest registry ≡ incomplete
      → parse_loop context registry (before ++ rest) fuel out (length before)
        ≡ parsed out (length before) false
  unfolding parse_loop
  parse_loop-incomplete before rest zero out e = refl
  parse_loop-incomplete before rest (suc fuel) out e =
      elim (Bool-cases (ltb (length before) (length (before ++ rest)))) [
        | inl more ↦ rw (more, drop-append before rest, e)
        | inr none ↦ rw none
      ]

  pub parse_loop-failed :
      (before rest : List ℕ) (fuel : ℕ) (out : List (M × C)) (error : Error)
      → 0 < length rest
      → deserialize_message context rest registry ≡ failed error
      → parse_loop context registry (before ++ rest) (suc fuel) out (length before)
        ≡ parsed out (length before) true
  unfolding parse_loop
  parse_loop-failed before rest fuel out error some_left e =
      let more : ltb (length before) (length (before ++ rest)) ≡ true =
        lt→ltb _ _ (omega (arith, length-append before rest)) in
      rw (more, drop-append before rest, e)

  pub parse_loop-decoded :
      (before bytes rest : List ℕ) (fuel : ℕ) (out : List (M × C)) (msg : M) (ctx : C)
      → 0 < length bytes
      → deserialize_message context (bytes ++ rest) registry ≡ decoded msg ctx (length bytes)
      → parse_loop context registry (before ++ (bytes ++ rest)) (suc fuel) out (length before)
        ≡ parse_loop context registry
            ((before ++ bytes) ++ rest)
            fuel
            (out ++ (msg, ctx) ∷ [])
            (length (before ++ bytes))
  unfolding parse_loop
  parse_loop-decoded before bytes rest fuel out msg ctx some_left e =
      let more : ltb (length before) (length (before ++ (bytes ++ rest))) ≡ true =
        lt→ltb _ _
          (omega (arith, length-append before (bytes ++ rest), length-append bytes rest)) in
      rw (more, drop-append before (bytes ++ rest), e)
        (rw (length-append before bytes, append_assoc))
