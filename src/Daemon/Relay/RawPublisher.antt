-- ===== src/Daemon/Relay/RawPublisher.antt =====
-- `Fsm` of `RawPublisherServiceImpl` (src/daemon/engine/svc/relay/raw_publisher_service.cpp): a channel
-- that publishes raw messages on a subject. Histories are oldest first.
pub mod Publishing
use ocvsmd.Common.{
  ℕ, suc, ◌+◌, Bool, true, false, Option, none, some, List, [], ◌∷◌, ◌++◌, if◌then◌else◌, length,
}
use ocvsmd.Error.{OptError, DsdlError, error, canceled, opt_error_to_dsdl_error}
use ocvsmd.Io.SocketBuffer.{Payload}
use ocvsmd.Ipc.Route.{real_payload}
use ocvsmd.Daemon.Sessions
use ocvsmd.Daemon.Sessions.{Service}
use ocvsmd.Daemon.CyError.{CyError, Outcome, success, failure, cy_failure_to_opt_error}
use ocvsmd.Daemon.Relay.{Life, live, close, broken}

-- `Spec::Request`
pub data Request : Type 0 where
  empty : Request
  create : (subject_id : ℕ) → Request
  config : (priority : List ℕ) → Request
  publish : (timeout_us payload_size : ℕ) → Request

-- `Spec::Response`
pub data Response : Type 0 where
  created : Response
  publish_error : DsdlError → Response

-- A message handed to the publisher.
pub record Published : Type 0 where
  pub priority : ℕ
  pub timeout_us : ℕ
  pub bytes : Payload

-- `cy_raw_publisher_` is its priority.
pub record Fsm : Type 0 where
  pub life : Life
  pub cy_raw_publisher : Option ℕ
  pub sent : List Response
  pub published : List Published

abbrev pub make : Fsm
make = record { life = live; cy_raw_publisher = none; sent = []; published = [] }

-- The Cyphal side and the channel: what becomes of the n-th message, and whether a response goes out.
pub record Env : Type 0 where
  pub make_publisher : ℕ → Outcome
  pub default_priority : ℕ
  pub publish_raw : ℕ → Published → Option CyError
  pub send : Fsm → OptError

unfoldable pub complete : OptError → Fsm → Fsm
complete opt_error f = record f { cy_raw_publisher = none; life = close opt_error f.life }

unfoldable pub fault : Fsm → Fsm
fault f = record f { life = broken f.life }

abbrev pub failure_of : Option CyError → OptError
failure_of none = none
failure_of (some cy_failure) = cy_failure_to_opt_error cy_failure

abbrev pub sent_by : OptError → Response → Fsm → Fsm
sent_by none response f = record f { sent = f.sent ++ response ∷ [] }
sent_by (some e) response f = f

module _ (env : Env) where
  unfoldable pub make_cy_publisher : ℕ → Fsm → Bool × Fsm
  unfolding complete
  make_cy_publisher subject_id f = elim (env.make_publisher subject_id) [
    | success ↦ (true, record f { cy_raw_publisher = some (env.default_priority) })
    | failure cy_failure ↦ (false, complete (cy_failure_to_opt_error cy_failure) f)
  ]

  abbrev pub reply_created : OptError → Fsm → Fsm
  reply_created none f = sent_by none created f
  reply_created (some e) f = complete (some e) f

  abbrev pub started : Bool × Fsm → Fsm
  started (true, f) = reply_created (env.send f) f
  started (false, f) = f

  unfoldable pub start : Request → Fsm → Fsm
  unfolding make_cy_publisher
  start empty f = f
  start (create subject_id) f = started (make_cy_publisher subject_id f)
  start (config priority) f = f
  start (publish timeout_us payload_size) f = f

  unfoldable pub send_publish_response : OptError → Fsm → Fsm
  send_publish_response opt_error f =
      sent_by (env.send f) (publish_error (opt_error_to_dsdl_error opt_error)) f

  abbrev pub configure : Option ℕ → List ℕ → Fsm → Fsm
  configure none priority f = complete (some (error canceled)) f
  configure (some old) [] f = f
  configure (some old) (priority ∷ more) f = record f { cy_raw_publisher = some priority }

  -- A claim of more bytes than came is undefined behaviour.
  abbrev pub publish_bytes : ℕ → ℕ → Option Payload → Fsm → Fsm
  publish_bytes priority timeout_us none f = fault f
  publish_bytes priority timeout_us (some bytes) f =
      let m : Published = record { priority = priority; timeout_us = timeout_us; bytes = bytes } in
      send_publish_response (failure_of (env.publish_raw (length f.published) m))
        (record f { published = f.published ++ m ∷ [] })

  abbrev pub publish_with : Option ℕ → ℕ → ℕ → Payload → Fsm → Fsm
  publish_with none timeout_us payload_size payload f = complete (some (error canceled)) f
  publish_with (some priority) timeout_us payload_size payload f =
      publish_bytes priority timeout_us (real_payload payload payload_size) f

  abbrev pub input_event : Request → Payload → Fsm → Fsm
  input_event empty payload f = f
  input_event (create subject_id) payload f = f
  input_event (config priority) payload f = configure f.cy_raw_publisher priority f
  input_event (publish timeout_us payload_size) payload f =
      publish_with f.cy_raw_publisher timeout_us payload_size payload f

  -- `handleEvent(Input)`
  unfoldable pub handle_input : Request → Payload → Fsm → Fsm
  unfolding complete fault send_publish_response
  handle_input input payload f = if f.life.is_released then fault f else input_event input payload f

  -- `handleEvent(Completed)`
  unfoldable pub handle_completed : Bool → OptError → Fsm → Fsm
  unfolding complete fault
  handle_completed keep_alive opt_error f =
      if f.life.is_released then fault f else if keep_alive then f else complete opt_error f

abbrev pub is_over : Fsm → Bool
is_over f = f.life.is_released

-- `operator()`
unfoldable pub serve : Env → Request → Service Fsm → Service Fsm
serve env request s = Sessions.serve is_over (start env request make) s
