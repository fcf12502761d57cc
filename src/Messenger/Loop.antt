-- ===== src/Messenger/Loop.antt =====
-- The loop over a receive buffer, for any bytes: what it takes out of it, and why it stops.
use rustcomm.Prelude.{
  ℕ, zero, suc, ◌+◌, ◌-◌, ◌≤◌, ◌≡◌, ◌⊎◌, refl, sym, ◌∙◌, inl, inr, true, false, List, [], ◌∷◌, ◌++◌,
  arith, length, drop, length-drop, append-nil, append_assoc, ltb, ltb→le, Bool-cases,
}
use rustcomm.Error.{Error}
use rustcomm.Message.Registry.{MessageRegistry}
use rustcomm.Message.Frame.{
  Context, Decoded, deserialize_message, decoded, incomplete, failed, out_of_range,
}
use rustcomm.Message.Incomplete.{deserialize_message_bounds}
use rustcomm.Messenger.Receive.{Parsed, parsed, parse_panic, parse_one, parse_loop, parse}

module _ {M C : Type 0} (context : Context C) (registry : MessageRegistry M)
    (recv_buf : List ℕ) where
  -- The messages that deserialize_message finds one after another, from a position to another.
  pub data Messages : ℕ → List (M × C) → ℕ → Type 0 where
    no_more : {pos : ℕ} → Messages pos [] pos
    one_more :
        {pos n end : ℕ} {msg : M} {ctx : C} {ms : List (M × C)}
        → deserialize_message context (drop pos recv_buf) registry ≡ decoded msg ctx n
        → Messages (pos + n) ms end
        → Messages pos ((msg, ctx) ∷ ms) end

  -- Why the loop stops where it does: at the end of the buffer, at a message that is not complete
  -- or at one that is malformed; or it panics there.
  abbrev pub Stops : ℕ → Parsed M C → Type 0
  Stops end (parsed out pos false) =
      (pos ≡ end)
      × (pos ≤ length recv_buf)
      × ((pos ≡ length recv_buf)
          ⊎ (deserialize_message {M = M} context (drop pos recv_buf) registry ≡ incomplete))
  Stops end (parsed out pos true) =
      (pos ≡ end)
      × ((e : Error) × (deserialize_message {M = M} context (drop pos recv_buf) registry
            ≡ failed e))
  Stops end parse_panic =
      deserialize_message {M = M} context (drop end recv_buf) registry ≡ out_of_range

  abbrev pub Gives : List (M × C) → Parsed M C → Type 0
  Gives out (parsed given pos had_error) = given ≡ out
  Gives out parse_panic = Unit

  -- From `pos` with `out` so far.
  abbrev Runs : ℕ → List (M × C) → Parsed M C → Type 0
  Runs pos out result =
      (ms : List (M × C)) × (end : ℕ) × Messages pos ms end
      × Gives (out ++ ms) result
      × Stops end result

  Gives-append_assoc :
      (out : List (M × C)) (msg : M) (ctx : C) (ms : List (M × C)) (result : Parsed M C)
      → Gives ((out ++ (msg, ctx) ∷ []) ++ ms) result
      → Gives (out ++ (msg, ctx) ∷ ms) result
  Gives-append_assoc out msg ctx ms (parsed given pos had_error) h =
      h ∙ append_assoc out ((msg, ctx) ∷ []) ms
  Gives-append_assoc out msg ctx ms parse_panic h = tt

  parse_one-Runs :
      (d : Decoded M C) (pos : ℕ) (out : List (M × C)) (again : List (M × C) → ℕ → Parsed M C)
      → deserialize_message context (drop pos recv_buf) registry ≡ d
      → pos ≤ length recv_buf
      → ((msg : M) (ctx : C) (n : ℕ)
          → d ≡ decoded msg ctx n
          → Runs (pos + n) (out ++ (msg, ctx) ∷ []) (again (out ++ (msg, ctx) ∷ []) (pos + n)))
      → Runs pos out (parse_one d out pos again)
  unfolding parse_one
  parse_one-Runs (decoded msg ctx n) pos out again e within rest =
      let (ms, end, run, gives, stops) = rest msg ctx n refl in
      (
        (msg, ctx) ∷ ms,
        end,
        one_more e run,
        Gives-append_assoc out msg ctx ms (again (out ++ (msg, ctx) ∷ []) (pos + n)) gives,
        stops,
      )
  parse_one-Runs incomplete pos out again e within rest =
      ([], pos, no_more, sym (append-nil out), (refl, within, inr e))
  parse_one-Runs (failed error) pos out again e within rest =
      ([], pos, no_more, sym (append-nil out), (refl, (error, e)))
  parse_one-Runs out_of_range pos out again e within rest = ([], pos, no_more, tt, e)

  parse_loop-Runs :
      (fuel pos : ℕ) (out : List (M × C))
      → pos ≤ length recv_buf
      → length recv_buf - pos ≤ fuel
      → Runs pos out (parse_loop context registry recv_buf fuel out pos)
  unfolding parse_loop
  parse_loop-Runs zero pos out within enough =
      ([], pos, no_more, sym (append-nil out), (refl, within, inl (omega arith)))
  parse_loop-Runs (suc fuel) pos out within enough = elim (Bool-cases (ltb pos (length recv_buf))) [
    | inr at_end ↦
        let done = ltb→le pos (length recv_buf) at_end in
        rw at_end ([], pos, no_more, sym (append-nil out), (refl, within, inl (omega arith)))
    | inl more ↦ rw more (
        parse_one-Runs (deserialize_message context (drop pos recv_buf) registry) pos out
          (parse_loop context registry recv_buf fuel) refl within
          λ msg ctx n e.
            let b = deserialize_message_bounds context registry (drop pos recv_buf) msg ctx n e in
            let l = length-drop pos recv_buf in
            parse_loop-Runs fuel (pos + n) (out ++ (msg, ctx) ∷ []) (omega arith) (omega arith))
  ]

  -- For any bytes in the buffer the receive loop ends before its fuel does: it gives the messages
  -- that deserialize_message finds one after another from the start, and stops behind the last of
  -- them because the buffer ends there, or what follows is not complete, or is malformed; or it
  -- panics there at a slice.
  pub parse-ends :
      (ms : List (M × C)) × (end : ℕ) × Messages 0 ms end
      × Gives ms (parse context registry recv_buf)
      × Stops end (parse context registry recv_buf)
  unfolding parse
  parse-ends = parse_loop-Runs (length recv_buf) 0 [] (omega arith) (omega arith)
