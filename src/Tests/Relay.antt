-- ===== src/Tests/Relay.antt =====
-- The raw relay services of src/daemon/engine/svc/relay on concrete channels.
use ocvsmd.Common.{◌≡◌, refl, false, none, some, List, [], ◌∷◌, ◌++◌, arith}
use ocvsmd.Daemon.CyError.{success}
use ocvsmd.Ipc.Route.{real_payload}
use ocvsmd.Daemon.Relay.RawPublisher
use ocvsmd.Daemon.Relay.RawPublisher.Publishing.{
  Action, set_priority, send_raw, act_all, messages, replies, act_all_lem,
}
use ocvsmd.Daemon.Relay.RawRpcClient
use ocvsmd.Daemon.Relay.RawRpcClient.Calls
use ocvsmd.Daemon.Relay.RawRpcClient.Calls.{begins, inputs, calls_in_order}
use ocvsmd.Common.Map.{lookup, insert}
use ocvsmd.Daemon.Sessions
use ocvsmd.Daemon.Sessions.{Service, serve, settle, IsSound, acts}

abbrev publishing : RawPublisher.Env
publishing = record {
  make_publisher = λ subject. success;
  default_priority = 4;
  publish_raw = λ n m. none;
  send = λ f. none;
}

abbrev publisher : RawPublisher.Fsm
publisher = record RawPublisher.make { cy_raw_publisher = some 4 }

abbrev actions : List Action
actions = send_raw 100 (9 ∷ 9 ∷ []) (1 ∷ 2 ∷ []) ∷ set_priority 1 ∷ send_raw 100 [] [] ∷ []

act_all_example :
    ((act_all publishing actions publisher).published ≡ [] ++ messages 4 actions)
    × ((act_all publishing actions publisher).sent
        ≡ [] ++ replies publishing 0 (messages 4 actions))
act_all_example = act_all_lem publishing (λ f. refl) actions 4 publisher refl refl

created_first :
    (RawPublisher.start publishing (RawPublisher.create 7) RawPublisher.make).sent
    ≡ RawPublisher.created ∷ []
unfolding RawPublisher.start
created_first = refl

abbrev calling : RawRpcClient.Env
calling = record {
  make_client = λ node service extent. success;
  default_priority = 4;
  request = λ f r. success;
  send = λ f. none;
}

abbrev channel : RawRpcClient.Fsm
channel = RawRpcClient.start calling (RawRpcClient.create 64 300 42) RawRpcClient.make

alive : channel.life.is_released ≡ false
unfolding RawRpcClient.start
alive = refl

abbrev first_call : RawRpcClient.Fsm
first_call = RawRpcClient.handle_input calling (RawRpcClient.call 10 20 2) (0 ∷ 5 ∷ 6 ∷ []) channel

abbrev no_channel : Service RawRpcClient.Fsm
no_channel = record { next_fsm_id = 0; id_to_fsm = []; ended = [] }

abbrev one_channel : Service RawRpcClient.Fsm
one_channel = serve RawRpcClient.is_over channel no_channel

channel_found : lookup 0 one_channel.id_to_fsm ≡ some channel
unfolding serve lookup insert RawRpcClient.start
channel_found = refl

calls_in_order_example :
    IsSound RawRpcClient.is_over Calls.IsSound
      (settle RawRpcClient.is_over 0 first_call one_channel)
calls_in_order_example = calls_in_order (
    Sessions.next
      (Sessions.next Sessions.here
        (Sessions.begins channel (begins calling (RawRpcClient.create 64 300 42))))
      (acts 0 channel first_call channel_found
        (inputs calling (RawRpcClient.call 10 20 2) (0 ∷ 5 ∷ 6 ∷ []) alive (omega arith))))

-- A second call takes the place of one that still waits.
first_call_waits : first_call.cy_promise ≡ some (record { call_id = 0; is_answered = false })
unfolding RawRpcClient.start RawRpcClient.handle_input real_payload
first_call_waits = refl

replaced :
    (RawRpcClient.handle_input calling (RawRpcClient.call 10 20 0) [] first_call).cy_promise
    ≡ some (record { call_id = 1; is_answered = false })
unfolding RawRpcClient.start RawRpcClient.handle_input real_payload
replaced = refl
