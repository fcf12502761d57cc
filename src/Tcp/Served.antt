-- ===== src/Tcp/Served.antt =====
-- A call through the TransportInterface is served as the call of the method of the transport.
use rustcomm.Prelude.{ℕ, suc, ◌≡◌, refl, sym, ◌∙◌, List, [], ◌∷◌, ◌++◌, length}
use rustcomm.Error.{ok, err}
use rustcomm.Transport.Types.{SocketAddr, SocketAnswers, Shutdown, SendRequest, id_response}
use rustcomm.Transport.Exit.{Exit, returned, raised, panicked, after}
use rustcomm.Transport.Interface
use rustcomm.Transport.Interface.{Channel, submit}
use rustcomm.Tcp.State.{TcpTransport}
use rustcomm.Tcp.Manage
use rustcomm.Tcp.Send
use rustcomm.Tcp.Requests.{respond, respond_result, process_request, process_interface_requests}

-- The requests with the answers that the operating system gives while they are served.
abbrev pub answered : List SendRequest → (ℕ → SocketAnswers) → List (SendRequest × SocketAnswers)
answered [] a = []
answered (r ∷ rest) a = (r, a 0) ∷ answered rest (λ n. a (suc n))

-- What the event loop does with the requests that wait.
abbrev pub serve : TcpTransport → Channel → (ℕ → SocketAnswers) → Exit TcpTransport (Unit {0})
serve t c a = process_interface_requests t (answered c.requests a)

after_assoc :
    {A B C : Type 0} (m : Exit TcpTransport A) (f : A → TcpTransport → Exit TcpTransport B)
    (g : B → TcpTransport → Exit TcpTransport C)
    → after (after m f) g ≡ after m (λ x t. after (f x t) g)
after_assoc (returned x t) f g = refl
after_assoc (raised e t) f g = refl
after_assoc (panicked p) f g = refl

after_unit : (m : Exit TcpTransport (Unit {0})) → after m (λ _ t. returned tt t) ≡ m
after_unit (returned tt t) = refl
after_unit (raised e t) = refl
after_unit (panicked p) = refl

after_cong :
    {A B : Type 0} (m : Exit TcpTransport A) {f g : A → TcpTransport → Exit TcpTransport B}
    → ((x : A) (t : TcpTransport) → f x t ≡ g x t)
    → after m f ≡ after m g
after_cong (returned x t) h = h x t
after_cong (raised e t) h = refl
after_cong (panicked p) h = refl

serve_last :
    (t : TcpTransport) (rs : List SendRequest) (r : SendRequest) (a : ℕ → SocketAnswers)
    → process_interface_requests t (answered (rs ++ r ∷ []) a)
      ≡ after
          (process_interface_requests t (answered rs a))
          λ _ t'. process_request t' r (a (length rs))
unfolding process_interface_requests
serve_last t [] r a = after_unit (process_request t r (a 0))
serve_last t (q ∷ rs) r a =
    after_cong (process_request t q (a 0)) (λ _ t'. serve_last t' rs r (λ n. a (suc n)))
    ∙ sym (after_assoc (process_request t q (a 0)) _ _)

-- First the requests that waited, and then the method.
abbrev pub Serves : Channel → Channel → (TcpTransport → TcpTransport) → Type 0
Serves c c' method =
    (t : TcpTransport) (a : ℕ → SocketAnswers)
    → serve t c' a ≡ after (serve t c a) λ _ t'. returned tt (method t')

-- What the caller gets, and nothing else happens after the method: one response for the channel
-- with the method's value or with its error.
abbrev pub with_answer : ℕ → Exit TcpTransport (ℕ × SocketAddr) → Exit TcpTransport (Unit {0})
with_answer channel (returned (id, addr) t) =
    returned tt (record t { responses = t.responses ++ id_response channel (ok (id, addr)) ∷ [] })
with_answer channel (raised e t) =
    returned tt (record t { responses = t.responses ++ id_response channel (err e) ∷ [] })
with_answer channel (panicked p) = panicked p

-- The same for a method that answers on the response channel of the request.
abbrev pub Answers :
    Channel
    → Exit Channel ℕ
    → (TcpTransport → SocketAnswers → Exit TcpTransport (ℕ × SocketAddr))
    → Type 0
Answers c (returned channel c') method =
    (t : TcpTransport) (a : ℕ → SocketAnswers)
    → serve t c' a
      ≡ after (serve t c a) λ _ t'. with_answer channel (method t' (a (length c.requests)))
Answers c (raised e c') method = ⊥
Answers c (panicked p) method = ⊥

respond_result_lem :
    (channel : ℕ) (m : Exit TcpTransport (ℕ × SocketAddr))
    → respond_result channel m ≡ with_answer channel m
unfolding respond_result respond
respond_result_lem channel (returned (id, addr) t) = refl
respond_result_lem channel (raised e t) = refl
respond_result_lem channel (panicked p) = refl

-- A call through the TransportInterface, of any method that waits for no answer, is served after
-- all requests that waited before it, and as the call of the transport's method of the same name.
pub interface-Serves :
    (c : Channel) (id : ℕ) (ids bytes : List ℕ) (how : Shutdown)
    → Serves c (Interface.close_connection c id) (λ t. Manage.close_connection t id)
      × Serves c (Interface.close_all_connections c) (λ t. Manage.close_all_connections t)
      × Serves c (Interface.shutdown_connection c id how) (λ t. Manage.shutdown_connection t id how)
      × Serves c
          (Interface.shutdown_all_connections c how)
          (λ t. Manage.shutdown_all_connections t how)
      × Serves c (Interface.close_listener c id) (λ t. Manage.close_listener t id)
      × Serves c (Interface.close_all_listeners c) (λ t. Manage.close_all_listeners t)
      × Serves c (Interface.close_all c) (λ t. Manage.close_all t)
      × Serves c (Interface.send_to c id bytes) (λ t. Send.send_to t id bytes)
      × Serves c (Interface.send_to_many c ids bytes) (λ t. Send.send_to_many t ids bytes)
      × Serves c (Interface.broadcast c bytes) (λ t. Send.broadcast t bytes)
      × Serves c (Interface.broadcast_except c bytes id) (λ t. Send.broadcast_except t bytes id)
      × Serves c
          (Interface.broadcast_except_many c bytes ids)
          (λ t. Send.broadcast_except_many t bytes ids)
unfolding process_request Interface.close_connection Interface.close_all_connections
    Interface.shutdown_connection Interface.shutdown_all_connections Interface.close_listener
    Interface.close_all_listeners Interface.close_all Interface.send_to Interface.send_to_many
    Interface.broadcast Interface.broadcast_except Interface.broadcast_except_many
interface-Serves c id ids bytes how = (
  λ t a. serve_last t c.requests (SendRequest.close_connection_request id) a,
  λ t a. serve_last t c.requests (SendRequest.close_all_connections_request) a,
  λ t a. serve_last t c.requests (SendRequest.shutdown_connection_request id how) a,
  λ t a. serve_last t c.requests (SendRequest.shutdown_all_connections_request how) a,
  λ t a. serve_last t c.requests (SendRequest.close_listener_request id) a,
  λ t a. serve_last t c.requests (SendRequest.close_all_listeners_request) a,
  λ t a. serve_last t c.requests (SendRequest.close_all_request) a,
  λ t a. serve_last t c.requests (SendRequest.send_to_request id bytes) a,
  λ t a. serve_last t c.requests (SendRequest.send_to_many_request ids bytes) a,
  λ t a. serve_last t c.requests (SendRequest.broadcast_request bytes) a,
  λ t a. serve_last t c.requests (SendRequest.broadcast_except_request bytes id) a,
  λ t a. serve_last t c.requests (SendRequest.broadcast_except_many_request bytes ids) a,
)

-- connect and listen through the interface, for an address that resolves to at least one, are
-- served after all requests that waited before: the transport's method runs with the first of the
-- addresses; then one response is added, on the channel that the caller waits on, with the value
-- that the method returned or with its error, and nothing else is changed; an error does not leave
-- the event loop, and a panic does.
pub interface-Answers :
    (c : Channel) (addr : SocketAddr) (others : List SocketAddr)
    → Answers c (Interface.connect c (ok (addr ∷ others))) (λ t. Manage.connect t (ok (addr ∷ [])))
      × Answers c (Interface.listen c (ok (addr ∷ others))) (λ t. Manage.listen t (ok (addr ∷ [])))
unfolding process_request Interface.connect Interface.listen
interface-Answers c addr others = (
  λ t a.
      serve_last t c.requests (SendRequest.connect_request addr c.next_response) a
      ∙ after_cong (serve t c a) (λ _ t'. respond_result_lem c.next_response _),
  λ t a.
      serve_last t c.requests (SendRequest.listen_request addr c.next_response) a
      ∙ after_cong (serve t c a) (λ _ t'. respond_result_lem c.next_response _),
)
