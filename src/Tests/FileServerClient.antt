-- ===== src/Tests/FileServerClient.antt =====
-- The clients of src/sdk/svc/file_server at concrete inputs.
use ocvsmd.Common.{ℕ, ◌≡◌, refl, true, none, some, [], ◌∷◌}
use ocvsmd.Error.{error, canceled, invalid_argument}
use ocvsmd.Sdk.FileServerClient
use ocvsmd.Sdk.FileServerClient.{
  Client, make, just, failure, root_sender, handle_connected, handle_list_input, handle_completed,
}

-- A path that is longer than a request's is refused at once.
too_long : root_sender 2 (1 ∷ 2 ∷ 3 ∷ []) true ≡ just (failure (error invalid_argument))
unfolding root_sender
too_long = refl

-- After a failure to send the receiver has its result, and a completion gives it another.
two_results :
    (handle_completed {Q = ℕ} none
      (handle_connected (λ q. some (error canceled)) (make 7))).received
    ≡ failure (error canceled) ∷ FileServerClient.success [] ∷ []
unfolding handle_completed handle_connected
two_results = refl
