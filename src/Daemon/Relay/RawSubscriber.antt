-- ===== src/Daemon/Relay/RawSubscriber.antt =====
-- `Fsm` of `RawSubscriberServiceImpl` (src/daemon/engine/svc/relay/raw_subscriber_service.cpp): a channel
-- that receives the raw messages of a subject. Histories are oldest first.
pub mod Forwarding
use ocvsmd.Common.{
  ℕ, ◌≡◌, refl, sym, ◌∙◌, ap, subst, Bool, true, false, Option, none, some, List, [], ◌∷◌, ◌++◌,
  map, arith, if◌then◌else◌, length, append_assoc, append-nil,
}
use ocvsmd.Error.{OptError, error, canceled}
use ocvsmd.Io.SocketBuffer.{Payload, SocketBuffer, bytes, of_scattered, of_scattered_lem}
use ocvsmd.Ipc.Route.{real_payload, real_payload-append}
use ocvsmd.Daemon.Sessions
use ocvsmd.Daemon.Sessions.{Service}
use ocvsmd.Daemon.CyError.{Outcome, success, failure, cy_failure_to_opt_error}
use ocvsmd.Daemon.Relay.{Life, live, close, broken}

-- `Spec::Request`
pub data Request : Type 0 where
  empty : Request
  create : (extent_size subject_id : ℕ) → Request

-- `RawSubscriberReceive_0_1`
pub record Receive : Type 0 where
  pub priority : ℕ
  pub remote_node_id : List ℕ
  pub payload_size : ℕ

-- `Spec::Response`, with the raw bytes that go out behind it.
pub data Response : Type 0 where
  created : Response
  receive : Receive → Payload → Response

-- A message from the network: who sent it, if not anonymous, and its fragments.
pub record Message : Type 0 where
  pub priority : ℕ
  pub publisher_node_id : Option ℕ
  pub fragments : List Payload

pub record Fsm : Type 0 where
  pub life : Life
  pub has_subscriber : Bool
  pub sent : List Response

abbrev pub make : Fsm
make = record { life = live; has_subscriber = false; sent = [] }

pub record Env : Type 0 where
  pub make_subscriber : ℕ → ℕ → Outcome
  pub send : Fsm → OptError

unfoldable pub complete : OptError → Fsm → Fsm
complete opt_error f = record f { has_subscriber = false; life = close opt_error f.life }

unfoldable pub fault : Fsm → Fsm
fault f = record f { life = broken f.life }

abbrev pub sent_by : OptError → Response → Fsm → Fsm
sent_by none response f = record f { sent = f.sent ++ response ∷ [] }
sent_by (some e) response f = f

abbrev pub to_list : Option ℕ → List ℕ
to_list none = []
to_list (some n) = n ∷ []

-- The response for a message; its size is that of the scattered buffer.
unfoldable pub receive_of : Message → Response
unfolding of_scattered
receive_of m =
    let sock_buff = of_scattered m.fragments in
    receive
      (record {
        priority = m.priority;
        remote_node_id = to_list m.publisher_node_id;
        payload_size = sock_buff.size;
      })
      (bytes sock_buff)

module _ (env : Env) where
  unfoldable pub make_cy_subscriber : ℕ → ℕ → Fsm → Bool × Fsm
  unfolding complete
  make_cy_subscriber extent_size subject_id f = elim (env.make_subscriber extent_size subject_id) [
    | success ↦ (true, record f { has_subscriber = true })
    | failure cy_failure ↦ (false, complete (cy_failure_to_opt_error cy_failure) f)
  ]

  abbrev pub reply_created : OptError → Fsm → Fsm
  reply_created none f = sent_by none created f
  reply_created (some e) f = complete (some e) f

  abbrev pub started : Bool × Fsm → Fsm
  started (true, f) = reply_created (env.send f) f
  started (false, f) = f

  unfoldable pub start : Request → Fsm → Fsm
  unfolding make_cy_subscriber
  start empty f = f
  start (create extent_size subject_id) f = started (make_cy_subscriber extent_size subject_id f)

  unfoldable pub handle_node_message : Message → Fsm → Fsm
  unfolding fault receive_of
  handle_node_message m f =
      if f.life.is_released then fault f else sent_by (env.send f) (receive_of m) f

  -- `handleEvent(Completed)`
  unfoldable pub handle_completed : Bool → Fsm → Fsm
  unfolding complete fault
  handle_completed keep_alive f =
      if f.life.is_released
      then fault f
      else if keep_alive
      then f
      else complete (some (error canceled)) f

  unfoldable pub handle_all : List Message → Fsm → Fsm
  unfolding handle_node_message
  handle_all [] f = f
  handle_all (m ∷ ms) f = handle_all ms (handle_node_message m f)

abbrev pub is_over : Fsm → Bool
is_over f = f.life.is_released

-- `operator()`
unfoldable pub serve : Env → Request → Service Fsm → Service Fsm
serve env request s = Sessions.serve is_over (start env request make) s
