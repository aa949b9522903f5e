-- ===== src/Sdk/NodeClient.antt =====
-- What the clients of src/sdk/svc/node share: node ids go out in chunks that fit a request, the requests
-- go out when the channel is connected, and its completion gives the receiver what was gathered.
use ocvsmd.Common.{
  ℕ, zero, suc, ◌+◌, ◌-◌, ◌%◌, ◌≤◌, ◌≡◌, refl, sym, ◌∙◌, ap, Bool, true, false, none, some, List,
  [], ◌∷◌, ◌++◌, arith, length, take, drop, length-drop, length-take, take-append-drop, All,
  append-nil, append_assoc,
}
use ocvsmd.Common.Map.{Map}
use ocvsmd.Common.Int.{ℤ, pos, negsuc}
use ocvsmd.Error.{Error, OptError}
use ocvsmd.Ipc.ClientRouter.{u64_mod}

-- `ArrayCapacity::node_ids`
abbrev pub chunk_size : ℕ
chunk_size = 128

-- The loop over offsets, on fuel: each round takes a node at least.
unfoldable pub chunks : ℕ → List ℕ → List (List ℕ)
chunks zero ids = []
chunks (suc fuel) [] = []
chunks (suc fuel) (id ∷ ids) = take chunk_size (id ∷ ids) ∷ chunks fuel (drop chunk_size (id ∷ ids))

-- `std::max<std::uint64_t>(0, timeout.count())`: the count is made unsigned before it is compared.
abbrev pub to_u64 : ℤ → ℕ
to_u64 (pos n) = n % u64_mod
to_u64 (negsuc n) = (u64_mod - (n + 1) % u64_mod) % u64_mod

-- What a receiver is given.
pub data Result (V : Type 0) : Type 0 where
  failure : Error → Result V
  success : Map V → Result V

abbrev pub result_of : {V : Type 0} → OptError → Map V → Result V
result_of none gathered = success gathered
result_of (some e) gathered = failure e

-- A client with requests `R` and, for each node, what it gathered of it; `sent` and `received` are
-- histories, oldest first.
pub record Client (R V : Type 0) : Type 0 where
  pub requests : List R
  pub gathered : Map V
  pub sent : List R
  pub is_begun : Bool
  pub received : List (Result V)

module _ {R V : Type 0} where
  abbrev pub make : List R → Client R V
  make requests = record {
    requests = requests;
    gathered = [];
    sent = [];
    is_begun = false;
    received = [];
  }

  abbrev pub receive : Result V → Client R V → Client R V
  receive result c = record c { received = c.received ++ result ∷ [] }

  -- The gateway's side: what `send` gives for each request, and then `complete`.
  abbrev pub begun_by : OptError → Client R V → Client R V
  begun_by none c = record c { is_begun = true }
  begun_by (some e) c = receive (failure e) c

  abbrev pub sent_or : OptError → R → (Client R V → Client R V) → Client R V → Client R V
  sent_or none r go_on c = go_on (record c { sent = c.sent ++ r ∷ [] })
  sent_or (some e) r go_on c = receive (failure e) c

  unfoldable pub send_all : (R → OptError) → OptError → List R → Client R V → Client R V
  send_all send complete [] c = begun_by complete c
  send_all send complete (r ∷ rs) c = sent_or (send r) r (send_all send complete rs) c

  -- `handleEvent(Connected)`
  unfoldable pub handle_connected : (R → OptError) → OptError → Client R V → Client R V
  unfolding send_all
  handle_connected send complete c = send_all send complete c.requests c

  -- `handleEvent(Completed)`
  unfoldable pub handle_completed : OptError → Client R V → Client R V
  handle_completed opt_error c = receive (result_of opt_error c.gathered) c

  send_all-sent :
      (send : R → OptError)
      → ((r : R) → send r ≡ none)
      → (rs : List R) (c : Client R V)
      → send_all send none rs c ≡ record c { sent = c.sent ++ rs; is_begun = true }
  unfolding send_all
  send_all-sent send works [] c =
      ap (λ s. record c { sent = s; is_begun = true }) (sym (append-nil c.sent))
  send_all-sent send works (r ∷ rs) c =
      ap (λ e. sent_or e r (send_all send none rs) c) (works r)
      ∙ send_all-sent send works rs (record c { sent = c.sent ++ r ∷ [] })
      ∙ ap (λ s. record c { sent = s; is_begun = true }) (append_assoc c.sent (r ∷ []) rs)

  -- On a gateway that takes them, all requests go out in order, and then the server is told to begin.
  pub handle_connected_lem :
      (send : R → OptError) (c : Client R V)
      → ((r : R) → send r ≡ none)
      → handle_connected send none c ≡ record c { sent = c.sent ++ c.requests; is_begun = true }
  unfolding handle_connected
  handle_connected_lem send c works = send_all-sent send works c.requests c

-- No node is lost, and each chunk fits.
pub chunks_fit :
    (fuel : ℕ) (ids : List ℕ) → All (λ chunk. length chunk ≤ chunk_size) (chunks fuel ids)
unfolding chunks
chunks_fit zero ids = tt
chunks_fit (suc fuel) [] = tt
chunks_fit (suc fuel) (id ∷ ids) =
    (omega (arith, length-take chunk_size (id ∷ ids)), chunks_fit fuel (drop chunk_size (id ∷ ids)))

abbrev pub joined : List (List ℕ) → List ℕ
joined [] = []
joined (chunk ∷ more) = chunk ++ joined more

pub joined-chunks : (fuel : ℕ) (ids : List ℕ) → length ids ≤ fuel → joined (chunks fuel ids) ≡ ids
unfolding chunks
joined-chunks zero [] h = refl
joined-chunks zero (id ∷ ids) h = absurd (omega arith)
joined-chunks (suc fuel) [] h = refl
joined-chunks (suc fuel) (id ∷ ids) h =
    ap (λ t. take chunk_size (id ∷ ids) ++ t)
      (joined-chunks fuel (drop chunk_size (id ∷ ids))
        (omega (arith, length-drop chunk_size (id ∷ ids))))
    ∙ take-append-drop chunk_size (id ∷ ids)
