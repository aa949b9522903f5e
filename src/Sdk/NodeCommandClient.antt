-- ===== src/Sdk/NodeCommandClient.antt =====
-- `restart` and `beginSoftwareUpdate` (src/sdk/node_command_client.cpp). The numbers of the commands are
-- those of a third-party message, and a parameter.
use ocvsmd.Common.{ℕ, List, []}
use ocvsmd.Common.Int.{ℤ}
use ocvsmd.Daemon.ExecCmd.{Request, RequestPayload}
use ocvsmd.Sdk.ExecCmdClient.{build_requests}

pub record Commands : Type 0 where
  pub restart : ℕ
  pub begin_software_update : ℕ

-- The requests of the client that is made.
unfoldable pub send_command : List ℕ → RequestPayload → ℤ → List Request
unfolding build_requests
send_command node_ids node_request timeout = build_requests node_ids node_request timeout

module _ (commands : Commands) where
  unfoldable pub restart : List ℕ → ℤ → List Request
  unfolding send_command
  restart node_ids timeout =
      send_command node_ids (record { command = commands.restart; parameter = [] }) timeout

  unfoldable pub begin_software_update : List ℕ → List ℕ → ℤ → List Request
  unfolding send_command
  begin_software_update node_ids file_path timeout =
      send_command node_ids
        (record { command = commands.begin_software_update; parameter = file_path }) timeout
