-- ===== src/Sdk/Relay.antt =====
-- What the clients of src/sdk/svc/relay share. A client opens a channel by its request; the first
-- response hands the channel over to an endpoint (a publisher, a subscriber or an RPC client), which from
-- then on hears the channel's events and gives each result to the receiver submitted last.
pub mod RawPublisherClient
pub mod RawSubscriberClient
pub mod RawRpcClient
use ocvsmd.Common.{
  ℕ, ◌+◌, Bool, true, false, Option, none, some, List, [], ◌∷◌, ◌++◌, if◌then◌else◌,
}
use ocvsmd.Error.{Error, OptError, error, canceled}

-- `Result` of a client: a failure, or the endpoint.
pub data Opened : Type 0 where
  failure : Error → Opened
  success : Opened

-- A client with a request `Q`; `sent` and `received` are histories, oldest first.
pub record Client (Q : Type 0) : Type 0 where
  pub request : Q
  pub is_handed_over : Bool
  pub sent : List Q
  pub received : List Opened

-- `completed.opt_error.value_or(Error{Error::Code::Canceled})`
abbrev pub completion_of : OptError → Error
completion_of none = error canceled
completion_of (some e) = e

module _ {Q : Type 0} where
  abbrev pub make : Q → Client Q
  make request = record { request = request; is_handed_over = false; sent = []; received = [] }

  abbrev pub receive : Opened → Client Q → Client Q
  receive result c = record c { received = c.received ++ result ∷ [] }

  abbrev pub sent_by : OptError → Client Q → Client Q
  sent_by none c = record c { sent = c.sent ++ c.request ∷ [] }
  sent_by (some e) c = receive (failure e) c

  -- `handleEvent(Connected)`, with what `send` gives for the request.
  unfoldable pub handle_connected : (Q → OptError) → Client Q → Client Q
  handle_connected send c = if c.is_handed_over then c else sent_by (send c.request) c

  -- `handleEvent(Input)`
  unfoldable pub handle_input : Client Q → Client Q
  handle_input c =
      if c.is_handed_over then c else receive success (record c { is_handed_over = true })

  -- `handleEvent(Completed)`
  unfoldable pub handle_completed : OptError → Client Q → Client Q
  handle_completed opt_error c =
      if c.is_handed_over then c else receive (failure (completion_of opt_error)) c

-- One call of a receiver; receivers are numbered as they are submitted.
pub record Call (A : Type 0) : Type 0 where
  pub receiver : ℕ
  pub result : A

-- `completion_error_` and `receiver_`, and the history of the receivers' calls, oldest first.
pub record Receivers (A : Type 0) : Type 0 where
  pub completion_error : OptError
  pub receiver : Option ℕ
  pub next_receiver : ℕ
  pub calls : List (Call A)

module _ {A : Type 0} where
  abbrev pub no_receiver : Receivers A
  no_receiver = record { completion_error = none; receiver = none; next_receiver = 0; calls = [] }

  -- A receiver that is called at once, and not kept.
  abbrev pub answer_at_once : A → Receivers A → Receivers A
  answer_at_once result r = record r {
    next_receiver = r.next_receiver + 1;
    calls = r.calls ++ record { receiver = r.next_receiver; result = result } ∷ [];
  }

  abbrev pub keep_receiver : Receivers A → Receivers A
  keep_receiver r = record r {
    receiver = some (r.next_receiver);
    next_receiver = r.next_receiver + 1;
  }

  abbrev pub notify : Option ℕ → A → Receivers A → Receivers A
  notify none result r = r
  notify (some k) result r = record r {
    calls = r.calls ++ record { receiver = k; result = result } ∷ [];
  }

  -- `notifyReceived`: the receiver stays, and is called again by what comes later.
  unfoldable pub notify_received : A → Receivers A → Receivers A
  notify_received result r = notify r.receiver result r

  -- `handleEvent(Completed)` of an endpoint.
  unfoldable pub end_receivers : (Error → A) → OptError → Receivers A → Receivers A
  unfolding notify_received
  end_receivers fail opt_error r =
      let e = completion_of opt_error in
      notify_received (fail e) (record r { completion_error = some e })
