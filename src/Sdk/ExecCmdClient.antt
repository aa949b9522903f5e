-- ===== src/Sdk/ExecCmdClient.antt =====
-- src/sdk/svc/node/exec_cmd_client.cpp
use ocvsmd.Common.{ℕ, none, some, List, length, map}
use ocvsmd.Common.Int.{ℤ}
use ocvsmd.Common.Map.{emplace}
use ocvsmd.Error.{Error, OptError, DsdlError, dsdl_error_to_opt_error}
use ocvsmd.Daemon.ExecCmd.{Request, RequestPayload, ResponsePayload}
use ocvsmd.Sdk.NodeClient.{Client, chunks, to_u64}

-- `NodeResponse`
pub data NodeResponse : Type 0 where
  failure : Error → NodeResponse
  success : ResponsePayload → NodeResponse

-- `Spec::Response` as it comes from the channel
pub record Input : Type 0 where
  pub node_id : ℕ
  pub error : DsdlError
  pub payload : ResponsePayload

unfoldable pub build_requests : List ℕ → RequestPayload → ℤ → List Request
unfolding chunks
build_requests node_ids node_request timeout =
    map (λ chunk. record { timeout_us = to_u64 timeout; node_ids = chunk; payload = node_request })
      (chunks (length node_ids) node_ids)

abbrev pub response_of : OptError → ResponsePayload → NodeResponse
response_of none payload = success payload
response_of (some e) payload = failure e

-- `handleEvent(Input)`: the first response of a node stays.
unfoldable pub handle_input : Input → Client Request NodeResponse → Client Request NodeResponse
unfolding dsdl_error_to_opt_error emplace
handle_input input c = record c {
  gathered =
      emplace input.node_id (response_of (dsdl_error_to_opt_error input.error) input.payload)
        c.gathered;
}
