-- ===== src/Messenger/Reassembly.antt =====
-- The messages of a stream come out whole and in order, however the stream is cut into pieces.
use rustcomm.Prelude.{
  ℕ, zero, suc, ◌+◌, ◌-◌, ◌≤◌, ◌<◌, ◌≡◌, refl, sym, ap, ◌∙◌, inl, inr, false, List, [], ◌∷◌, ◌++◌,
  arith, length, take, drop, All, length-append, length-take, take-append_le, drop-append,
  drop-drop, take_all, append_assoc, append-nil, ltb, ltb→lt, ltb→le, if◌then◌else◌, Bool-cases,
}
use rustcomm.Message.Registry.{Message, MessageRegistry, CodecPair}
use rustcomm.Message.Frame.{Context, deserialize_message}
use rustcomm.Message.FrameShape.{payload, frame, Travels, length-to_le_bytes}
use rustcomm.Message.RoundTrip.{deserialize_message-frame}
use rustcomm.Message.Incomplete.{deserialize_message-take}
use rustcomm.Message.Word.{to_le_bytes}
use rustcomm.Messenger.Steps.{parse_loop-incomplete, parse_loop-decoded}
use rustcomm.Messenger.Receive.{parsed, parse_loop, parse}

module _ {M C : Type 0} (message : Message M) (context : Context C) where
  -- A message, its context, and the codec that is registered for it.
  abbrev pub Parcel : Type 0
  Parcel = M × C × CodecPair M

  abbrev pub frame_of : Parcel → List ℕ
  frame_of p = frame message context p.0 p.1 p.2

  abbrev pub TravelAll : MessageRegistry M → List Parcel → Type 0
  TravelAll registry ms = All (λ p. Travels message context registry p.0 p.1 p.2) ms

  abbrev pub frames : List Parcel → List ℕ
  frames [] = []
  frames (p ∷ ms) = frame_of p ++ frames ms

  -- The messages that are complete in the first n bytes, the bytes that they take, and the others.
  abbrev pub complete : List Parcel → ℕ → List (M × C)
  complete [] n = []
  complete (p ∷ ms) n =
      if ltb n (length (frame_of p)) then [] else (p.0, p.1) ∷ complete ms (n - length (frame_of p))

  abbrev pub used : List Parcel → ℕ → ℕ
  used [] n = 0
  used (p ∷ ms) n =
      if ltb n (length (frame_of p))
      then 0
      else length (frame_of p) + used ms (n - length (frame_of p))

  abbrev pub left : List Parcel → ℕ → List Parcel
  left [] n = []
  left (p ∷ ms) n =
      if ltb n (length (frame_of p)) then p ∷ ms else left ms (n - length (frame_of p))

  pub length-frame : (p : Parcel) → 4 ≤ length (frame_of p)
  length-frame p =
      let bytes = payload message context p.0 p.1 p.2 in
      omega
        (arith, length-append (to_le_bytes (length bytes)) bytes, length-to_le_bytes (length bytes))

  take-past {ℓ} :
      {A : Type ℓ} (n : ℕ) (xs ys : List A)
      → length xs ≤ n
      → take n (xs ++ ys) ≡ xs ++ take (n - length xs) ys
  take-past n [] ys h = let e : n - 0 ≡ n = omega arith in rw e
  take-past zero (x ∷ xs) ys h = absurd (omega arith)
  take-past (suc n) (x ∷ xs) ys h =
      let e : suc n - suc (length xs) ≡ n - length xs = omega arith in
      rw e (ap (◌∷◌ x) (take-past n xs ys (omega arith)))

  -- The loop stops at a frame that is cut short, whatever the fuel.
  parse_loop-cut :
      (registry : MessageRegistry M) (p : Parcel) (ms : List Parcel) (n fuel : ℕ) (before : List ℕ)
      (out : List (M × C))
      → Travels message context registry p.0 p.1 p.2
      → n < length (frame_of p)
      → parse_loop context registry
          (before ++ take n (frame_of p ++ frames ms))
          fuel
          out
          (length before)
        ≡ parsed out (length before) false
  parse_loop-cut registry p ms n fuel before out t h =
      let bytes = payload message context p.0 p.1 p.2 in
      rw (take-append_le n (frame_of p) (frames ms) (omega arith)) (
        parse_loop-incomplete context registry before (take n (frame_of p)) fuel out (
          deserialize_message-take context registry bytes n t.fits_u32 (
            omega (
              arith,
              length-append (to_le_bytes (length bytes)) bytes,
              length-to_le_bytes (length bytes),
            ))))

  -- The loop, from the position behind `before`, over the first n bytes of the frames.
  parse_loop-frames :
      (registry : MessageRegistry M) (ms : List Parcel) (n fuel : ℕ) (before : List ℕ)
      (out : List (M × C))
      → TravelAll registry ms
      → length (take n (frames ms)) ≤ fuel
      → parse_loop context registry (before ++ take n (frames ms)) fuel out (length before)
        ≡ parsed (out ++ complete ms n) (length before + used ms n) false
  unfolding deserialize_message
  parse_loop-frames registry [] n fuel before out t f =
      let at_end : length before + 0 ≡ length before = omega arith in
      rw (take_all {A = ℕ} n [] (omega arith), append-nil out, at_end)
        (parse_loop-incomplete context registry before [] fuel out refl)
  parse_loop-frames registry (p ∷ ms) n zero before out t f =
      elim (Bool-cases (ltb n (length (frame_of p)))) [
        | inl e ↦
            let at_end : length before + 0 ≡ length before = omega arith in
            simp (e, append-nil, at_end)
              (parse_loop-cut registry p ms n zero before out t.0 (ltb→lt _ _ e))
        | inr e ↦ absurd (
            omega (
              arith,
              length-frame p,
              ltb→le n (length (frame_of p)) e,
              length-take n (frame_of p ++ frames ms),
              length-append (frame_of p) (frames ms),
            ))
      ]
  parse_loop-frames registry (p ∷ ms) n (suc fuel) before out t f =
      elim (Bool-cases (ltb n (length (frame_of p)))) [
        | inl e ↦
            let at_end : length before + 0 ≡ length before = omega arith in
            simp (e, append-nil, at_end)
              (parse_loop-cut registry p ms n (suc fuel) before out t.0 (ltb→lt _ _ e))
        | inr e ↦
            let size = length (frame_of p) in
            let fits = ltb→le n size e in
            let k = n - size in
            let bytes = take k (frames ms) in
            let position : length (before ++ frame_of p) + used ms k
                ≡ length before + (size + used ms k) =
              omega (arith, length-append before (frame_of p)) in
            rw (take-past n (frame_of p) (frames ms) fits, e)
              (parse_loop-decoded context registry before (frame_of p) bytes fuel out p.0 p.1
                  (omega (arith, length-frame p))
                  (deserialize_message-frame message context t.0 bytes)
                ∙ parse_loop-frames registry ms k fuel (before ++ frame_of p)
                    (out ++ (p.0, p.1) ∷ []) t.1
                    (omega (
                      arith,
                      length-frame p,
                      length-take n (frame_of p ++ frames ms),
                      length-append (frame_of p) (frames ms),
                      length-take k (frames ms),
                    ))
                ∙ rw (position, append_assoc))
      ]

  -- So the receive loop, over the first n bytes of the frames, finds the messages that are complete.
  pub parse-frames :
      (registry : MessageRegistry M) (ms : List Parcel) (n : ℕ)
      → TravelAll registry ms
      → parse context registry (take n (frames ms)) ≡ parsed (complete ms n) (used ms n) false
  unfolding parse
  parse-frames registry ms n t =
      let start : 0 + used ms n ≡ used ms n = omega arith in
      parse_loop-frames registry ms n (length (take n (frames ms))) [] [] t (omega arith) ∙ rw start

  -- The bytes that the loop leaves are the first ones of the frames of the messages that are left.
  pub used-le : (ms : List Parcel) (n : ℕ) → used ms n ≤ n
  used-le [] n = omega arith
  used-le (p ∷ ms) n = ground (arith, used-le ms (n - length (frame_of p)))

  pub drop-used : (ms : List Parcel) (n : ℕ) → drop (used ms n) (frames ms) ≡ frames (left ms n)
  drop-used [] n = refl
  drop-used (p ∷ ms) n = elim (Bool-cases (ltb n (length (frame_of p)))) [
    | inl e ↦ rw e
    | inr e ↦ rw e (
        sym (drop-drop (length (frame_of p)) _ (frame_of p ++ frames ms))
        ∙ rw (drop-append (frame_of p) (frames ms)) (drop-used ms (n - length (frame_of p))))
  ]

  -- What is left begins with a frame of which less than all has come, or is nothing.
  abbrev pub Short : List Parcel → ℕ → Type 0
  Short [] n = Unit
  Short (p ∷ ms) n = n < length (frame_of p)

  pub left-Short : (ms : List Parcel) (n : ℕ) → Short (left ms n) (n - used ms n)
  left-Short [] n = tt
  left-Short (p ∷ ms) n = elim (Bool-cases (ltb n (length (frame_of p)))) [
    | inl e ↦ rw e (omega (arith, ltb→lt n (length (frame_of p)) e))
    | inr e ↦
        let k = n - length (frame_of p) in
        let same : n - (length (frame_of p) + used ms k) ≡ k - used ms k = omega arith in
        rw (e, same) (left-Short ms k)
  ]

  -- The messages of all parcels: those that are complete, and those that are left.
  abbrev pub contents : List Parcel → List (M × C)
  contents [] = []
  contents (p ∷ ms) = (p.0, p.1) ∷ contents ms

  pub complete-left :
      (ms : List Parcel) (n : ℕ) → complete ms n ++ contents (left ms n) ≡ contents ms
  complete-left [] n = refl
  complete-left (p ∷ ms) n = elim (Bool-cases (ltb n (length (frame_of p)))) [
    | inl e ↦ rw e
    | inr e ↦ rw e (ap (◌∷◌ (p.0, p.1)) (complete-left ms (n - length (frame_of p))))
  ]

  pub left-TravelAll :
      (registry : MessageRegistry M) (ms : List Parcel) (n : ℕ)
      → TravelAll registry ms
      → TravelAll registry (left ms n)
  left-TravelAll registry [] n t = tt
  left-TravelAll registry (p ∷ ms) n t = elim (Bool-cases (ltb n (length (frame_of p)))) [
    | inl e ↦ rw e t
    | inr e ↦ rw e (left-TravelAll registry ms (n - length (frame_of p)) t.1)
  ]
