-- ===== src/Transport/Dynamic.antt =====
-- transport/mod.rs: the struct Transport, which holds the implementation that the configuration
-- names; its other methods are in Transport/Boxed. `tls` says whether the program is built with the
-- feature of this name, and what the two constructors return comes as an argument.
use rustcomm.Prelude.{ℕ, Bool, Option, none, some, List, [], ◌∷◌, if◌then◌else◌}
use rustcomm.Error.{ErrorKind, io, invalid_input, invalid_transport_type, Error, Result, err}
use rustcomm.Transport.Types.{SocketAddr, SocketAnswers}
use rustcomm.Transport.Exit.{Exit, raised, question}
use rustcomm.Transport.Impl.{TransportImpl}
use rustcomm.Message.Registry.{str_eq}

-- "tcp" and "tls"
abbrev pub tcp_name : List ℕ
tcp_name = 116 ∷ 99 ∷ 112 ∷ []

abbrev pub tls_name : List ℕ
tls_name = 116 ∷ 108 ∷ 115 ∷ []

-- config.get_string(..), under the name first: `none` is a missing or unreadable key.
unfoldable pub transport_type : Bool → Option (List ℕ) → Option (List ℕ) → List ℕ
transport_type name_is_empty (some named) plain =
    if name_is_empty then elim plain [ none ↦ tcp_name | some s ↦ s ] else named
transport_type name_is_empty none plain = elim plain [ none ↦ tcp_name | some s ↦ s ]

abbrev pub valid_types : Bool → List (List ℕ)
valid_types tls = if tls then tcp_name ∷ tls_name ∷ [] else tcp_name ∷ []

-- The implementation that the type names, from what the constructors of the two return.
unfoldable pub new_named :
    {T : Type 0} → Bool → List ℕ → Result Error T → Result Error T → Result Error T
new_named tls type tcp_transport tls_transport =
    if str_eq type tcp_name
    then tcp_transport
    else if tls
    then if str_eq type tls_name
      then tls_transport
      else err (invalid_transport_type type (valid_types tls))
    else err (invalid_transport_type type (valid_types tls))

module _ {T W : Type 0} (impl : TransportImpl T W) where
  unfoldable pub connect_first : T → List SocketAddr → SocketAnswers → Exit T (ℕ × SocketAddr)
  connect_first t [] a = raised (io invalid_input) t
  connect_first t (addr ∷ _) a = impl.connect_impl t addr a

  -- The second argument is what addr.to_socket_addrs() returned.
  unfoldable pub connect :
      T → Result ErrorKind (List SocketAddr) → SocketAnswers → Exit T (ℕ × SocketAddr)
  unfolding connect_first
  connect t resolved a = question resolved t λ addrs. connect_first t addrs a

  unfoldable pub listen_first : T → List SocketAddr → SocketAnswers → Exit T (ℕ × SocketAddr)
  listen_first t [] a = raised (io invalid_input) t
  listen_first t (addr ∷ _) a = impl.listen_impl t addr a

  unfoldable pub listen :
      T → Result ErrorKind (List SocketAddr) → SocketAnswers → Exit T (ℕ × SocketAddr)
  unfolding listen_first
  listen t resolved a = question resolved t λ addrs. listen_first t addrs a
