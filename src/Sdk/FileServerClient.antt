-- ===== src/Sdk/FileServerClient.antt =====
-- The clients of src/sdk/svc/file_server, and what src/sdk/file_server.cpp asks of them: each sends one
-- request when the channel is connected, and its completion gives the receiver the result.
pub mod Roots
use ocvsmd.Common.{
  ℕ, Bool, true, false, Option, none, some, List, [], ◌∷◌, ◌++◌, length, ltb, if◌then◌else◌,
}
use ocvsmd.Error.{Error, OptError, error, invalid_argument}
use ocvsmd.Daemon.FileProvider.Paths.{FilePath}
use ocvsmd.Daemon.FileServer.{RootRequest}

-- A result: `Success` has the items, which `PushRoot` and `PopRoot` do not have.
pub data Result : Type 0 where
  failure : Error → Result
  success : List FilePath → Result

abbrev pub result_of : OptError → List FilePath → Result
result_of none items = success items
result_of (some e) items = failure e

-- A client with a request `Q`; `sent` and `received` are histories, oldest first.
pub record Client (Q : Type 0) : Type 0 where
  pub request : Q
  pub items : List FilePath
  pub sent : List Q
  pub received : List Result

module _ {Q : Type 0} where
  abbrev pub make : Q → Client Q
  make request = record { request = request; items = []; sent = []; received = [] }

  abbrev pub receive : Result → Client Q → Client Q
  receive result c = record c { received = c.received ++ result ∷ [] }

  abbrev pub sent_by : OptError → Client Q → Client Q
  sent_by none c = record c { sent = c.sent ++ c.request ∷ [] }
  sent_by (some e) c = receive (failure e) c

  -- `handleEvent(Connected)`
  unfoldable pub handle_connected : (Q → OptError) → Client Q → Client Q
  handle_connected send c = sent_by (send c.request) c

  -- `handleEvent(Input)` of `ListRootsClientImpl`; the other two do nothing.
  unfoldable pub handle_list_input : FilePath → Client Q → Client Q
  handle_list_input item c = record c { items = c.items ++ item ∷ [] }

  -- `handleEvent(Completed)`
  unfoldable pub handle_completed : OptError → Client Q → Client Q
  handle_completed opt_error c = receive (result_of opt_error c.items) c

-- What `popRoot` and `pushRoot` of `FileServerImpl` make: a failure at once, or a client.
pub data Sender : Type 0 where
  just : Result → Sender
  of_client : Client RootRequest → Sender

unfoldable pub root_sender : (capacity : ℕ) (path : FilePath) (back : Bool) → Sender
root_sender capacity path back =
    if ltb capacity (length path)
    then just (failure (error invalid_argument))
    else of_client (make (record { item = path; is_back = back }))
