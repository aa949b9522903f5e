-- ===== src/Sdk/FileServerClient/Roots.antt =====
-- What the client of `ListRoots` is given (src/sdk/svc/file_server/list_roots_client.cpp and
-- src/daemon/engine/svc/file_server/list_roots_service.cpp).
use ocvsmd.Common.{ℕ, ◌≡◌, sym, ◌∙◌, ap, none, List, [], ◌∷◌, ◌++◌, append-nil, append_assoc}
use ocvsmd.Error.{OptError}
use ocvsmd.Daemon.FileProvider.Paths.{FilePath}
use ocvsmd.Daemon.FileProvider.{Provider}
use ocvsmd.Daemon.FileServer.{Told, listed, list_roots}
use ocvsmd.Sdk.FileServerClient.{Client, success, handle_list_input, handle_completed}

module _ {Q : Type 0} where
  unfoldable pub hear_items : List FilePath → Client Q → Client Q
  unfolding handle_list_input
  hear_items [] c = c
  hear_items (item ∷ items) c = hear_items items (handle_list_input item c)

  unfoldable pub hear_completions : List OptError → Client Q → Client Q
  unfolding handle_completed
  hear_completions [] c = c
  hear_completions (o ∷ os) c = hear_completions os (handle_completed o c)

  abbrev pub hear : Told → Client Q → Client Q
  hear t c = hear_completions t.completions (hear_items t.items c)

  hear_items_lem :
      (items : List FilePath) (c : Client Q)
      → hear_items items c ≡ record c { items = c.items ++ items }
  unfolding hear_items handle_list_input
  hear_items_lem [] c = ap (λ l. record c { items = l }) (sym (append-nil c.items))
  hear_items_lem (item ∷ items) c =
      hear_items_lem items (handle_list_input item c)
      ∙ ap (λ l. record c { items = l }) (append_assoc c.items (item ∷ []) items)

  -- A client that asks for the roots is given one result, the roots in their order but those that are
  -- too long for a response.
  pub hear-list_roots :
      (n : ℕ) (p : Provider) (c : Client Q)
      → c.items ≡ []
      → (hear (list_roots n p) c).received ≡ c.received ++ success (listed n p.roots) ∷ []
  unfolding list_roots hear_completions handle_completed
  hear-list_roots n p c fresh =
      ap (λ d. (handle_completed none d).received) (hear_items_lem (listed n p.roots) c)
      ∙ ap (λ l. c.received ++ success (l ++ listed n p.roots) ∷ []) fresh
