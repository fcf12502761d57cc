-- ===== src/Tcp/Registered.antt =====
-- What the calls of the transport add up to: the registration of each socket, and whether each call
-- is one that mio accepts (its documentation: `register` takes a source that is not registered,
-- `reregister` and `deregister` one that is).
use rustcomm.Prelude.{ℕ, ◌≡◌, true, false, Option, none, some, List, [], ◌∷◌, ◌==◌, if◌then◌else◌}
use rustcomm.Table.{is_some}
use rustcomm.Transport.Types.{Interest}
use rustcomm.Tcp.State.{Call, register, reregister, deregister, shutdown, wrote}

unfoldable pub registered : List Call → ℕ → Option Interest
registered [] id = none
registered (register j i ∷ calls) id = if j == id then some i else registered calls id
registered (reregister j i ∷ calls) id = if j == id then some i else registered calls id
registered (deregister j ∷ calls) id = if j == id then none else registered calls id
registered (shutdown j how ∷ calls) id = registered calls id
registered (wrote j bytes ∷ calls) id = registered calls id

-- Each call was made on a source that was, or was not, registered, as the call asks.
abbrev pub AreAccepted : List Call → Type 0
AreAccepted [] = Unit
AreAccepted (register j i ∷ calls) = (is_some (registered calls j) ≡ false) × AreAccepted calls
AreAccepted (reregister j i ∷ calls) = (is_some (registered calls j) ≡ true) × AreAccepted calls
AreAccepted (deregister j ∷ calls) = (is_some (registered calls j) ≡ true) × AreAccepted calls
AreAccepted (shutdown j how ∷ calls) = (is_some (registered calls j) ≡ true) × AreAccepted calls
AreAccepted (wrote j bytes ∷ calls) = (is_some (registered calls j) ≡ true) × AreAccepted calls
