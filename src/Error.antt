-- ===== src/Error.antt =====
-- The error type of error.rs, and the ways in which a call of the program can end.
-- `ErrorKind` is the part of std::io::ErrorKind that the program tells apart; a text carried by an
-- error is not modelled beyond the message id and the transport name.
use rustcomm.Prelude.{ℕ, List}

pub data ErrorKind : Type 0 where
  would_block broken_pipe connection_reset connection_refused invalid_input other other_kind :
      ErrorKind

-- error.rs, one constructor for each variant
pub data Error : Type 0 where
  io : ErrorKind → Error
  connection_not_found : ℕ → Error
  listener_not_found : ℕ → Error
  malformed_data : Error
  unknown_message_id : List ℕ → Error
  tls_certificate_load tls_key_load : ErrorKind → Error
  tls_invalid_certificate tls_invalid_key tls_invalid_server_name tls_handshake : Error
  tls_server_config_missing tls_client_config_missing : Error
  tls_server_config_build tls_client_config_build : Error
  config_error : Error
  invalid_transport_type : List ℕ → List (List ℕ) → Error

-- Result<A, E> of a call that keeps no state
pub data Result {ℓ} (E A : Type ℓ) : Type ℓ where
  ok : A → Result E A
  err : E → Result E A

infixl 5 ◌>>=◌
abbrev pub ◌>>=◌ {ℓ} : {E A B : Type ℓ} → Result E A → (A → Result E B) → Result E B
ok a >>= f = f a
err e >>= f = err e

-- From<std::io::Error>, as `?` applies it
abbrev pub from_io : {A : Type 0} → Result ErrorKind A → Result Error A
from_io (ok a) = ok a
from_io (err kind) = err (io kind)
