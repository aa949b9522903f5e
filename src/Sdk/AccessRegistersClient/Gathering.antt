-- ===== src/Sdk/AccessRegistersClient/Gathering.antt =====
-- What the client gathers of a node is what it was told (src/sdk/svc/node/access_registers_client.cpp).
use ocvsmd.Common.{
  ℕ, ◌≡◌, ◌≢◌, refl, sym, ◌∙◌, ap, subst, inl, inr, false, Option, none, some, List, [], ◌∷◌, ◌++◌,
  map, arith, ◌==◌, Bool-cases, All, All-append_left, All-append_right, ==_refl,
}
use ocvsmd.Common.Map.{Map, lookup, insert, lookup-insert, lookup-emplace_self, lookup-emplace_ne}
use ocvsmd.Error.{Error, OptError}
use ocvsmd.Daemon.AccessRegisters.{KeyValue, Response}
use ocvsmd.Daemon.AccessRegisters.Track.{told, told_self, told_other, IsFailure}
use ocvsmd.Sdk.AccessRegistersClient.{
  ValueOrError, NodeRegisters, failure, success, entry, add_entry, gathered_by, handle_input,
}

-- What is gathered from responses, the newest first.
unfoldable pub gather : List Response → Map NodeRegisters
unfolding handle_input
gather [] = []
gather (r ∷ earlier) = handle_input r (gather earlier)

abbrev pub entry_of : Response → ValueOrError
entry_of r = entry r.opt_error r.item

-- Responses about registers, as the client has them of a node.
abbrev pub listed : List Response → Option NodeRegisters
listed [] = none
listed (r ∷ t) = some (success (map entry_of (r ∷ t)))

abbrev pub Named : List Response → Type 0
Named = All (λ (r : Response). r.item.key ≢ [])

map-snoc :
    (t : List Response) (r : Response)
    → map entry_of (t ++ r ∷ []) ≡ map entry_of t ++ entry_of r ∷ []
map-snoc [] r = refl
map-snoc (s ∷ t) r = ap (λ l. entry_of s ∷ l) (map-snoc t r)

listed-snoc :
    (t : List Response) (r : Response)
    → listed (t ++ r ∷ []) ≡ some (success (map entry_of t ++ entry_of r ∷ []))
listed-snoc [] r = refl
listed-snoc (s ∷ t) r = ap (λ l. some (success (entry_of s ∷ l))) (map-snoc t r)

self-insert : (n : ℕ) (v : NodeRegisters) (m : Map NodeRegisters) → lookup n (insert n v m) ≡ some v
self-insert n v m = lookup-insert n n v m ∙ rw (==_refl n) refl

-- Another node's response changes nothing for a node.
add_entry_other :
    (k n : ℕ) (v : ValueOrError) (o : Option NodeRegisters) (m : Map NodeRegisters)
    → (k == n) ≡ false
    → lookup n (add_entry k v o m) ≡ lookup n m
add_entry_other k n v none m ne = lookup-insert k n _ m ∙ rw ne refl
add_entry_other k n v (some (failure e)) m ne = refl
add_entry_other k n v (some (success regs)) m ne = lookup-insert k n _ m ∙ rw ne refl

gathered_other :
    (k n : ℕ) (e : OptError) (item : KeyValue) (key : List ℕ) (m : Map NodeRegisters)
    → (k == n) ≡ false
    → lookup n (gathered_by k e item key m) ≡ lookup n m
gathered_other k n (some e) item [] m ne = lookup-emplace_ne k n (failure e) m ne
gathered_other k n (some e) item (c ∷ key) m ne = add_entry_other k n _ (lookup k m) m ne
gathered_other k n none item key m ne = add_entry_other k n _ (lookup k m) m ne

handle_input-other :
    (n : ℕ) (r : Response) (m : Map NodeRegisters)
    → (r.node_id == n) ≡ false
    → lookup n (handle_input r m) ≡ lookup n m
unfolding handle_input
handle_input-other n r m miss = gathered_other r.node_id n r.opt_error r.item r.item.key m miss

-- A response with a name goes to the end of what is there.
add_entry_self :
    (n : ℕ) (v : ValueOrError) (t : List Response) (m : Map NodeRegisters)
    → lookup n (add_entry n v (listed t) m) ≡ some (success (map entry_of t ++ v ∷ []))
add_entry_self n v [] m = self-insert n (success (v ∷ [])) m
add_entry_self n v (r ∷ t) m = self-insert n _ m

named_gathered :
    (n : ℕ) (e : OptError) (item : KeyValue) (key : List ℕ) (m : Map NodeRegisters)
    → key ≢ []
    → gathered_by n e item key m ≡ add_entry n (entry e item) (lookup n m) m
named_gathered n none item key m full = refl
named_gathered n (some e) item [] m full = absurd (full refl)
named_gathered n (some e) item (c ∷ key) m full = refl

self-handle_input :
    (n : ℕ) (r : Response) (t : List Response) (m : Map NodeRegisters)
    → r.node_id ≡ n
    → r.item.key ≢ []
    → lookup n m ≡ listed t
    → lookup n (handle_input r m) ≡ listed (t ++ r ∷ [])
unfolding handle_input
self-handle_input n r t m hit full there =
    subst (λ k. lookup n (gathered_by k r.opt_error r.item r.item.key m) ≡ listed (t ++ r ∷ []))
      (sym hit)
      (ap (lookup n) (named_gathered n r.opt_error r.item r.item.key m full)
        ∙ ap (λ o. lookup n (add_entry n (entry_of r) o m)) there
        ∙ add_entry_self n (entry_of r) t m
        ∙ sym (listed-snoc t r))

-- Of a node that was told of with names only, the client has just that, in order.
pub gather-listed :
    (n : ℕ) (sent : List Response)
    → Named (told n sent)
    → lookup n (gather sent) ≡ listed (told n sent)
unfolding gather lookup told
gather-listed n [] h = refl
gather-listed n (r ∷ earlier) h = elim (Bool-cases (r.node_id == n)) [
  | inl hit ↦
      let e : r.node_id ≡ n = ground (arith, hit) in
      let all = subst Named (told_self n r earlier e) h in
      self-handle_input n r (told n earlier) (gather earlier) e
        (All-append_right (λ (r : Response). r.item.key ≢ []) (told n earlier) (r ∷ []) all).0
        (gather-listed n earlier
          (All-append_left (λ (r : Response). r.item.key ≢ []) (told n earlier) (r ∷ []) all))
      ∙ ap listed (sym (told_self n r earlier e))
  | inr miss ↦
      handle_input-other n r (gather earlier) miss
      ∙ gather-listed n earlier (subst Named (told_other n r earlier miss) h)
      ∙ ap listed (sym (told_other n r earlier miss))
]

snoc-single : (t : List Response) (r s : Response) → t ++ r ∷ [] ≡ s ∷ [] → (t ≡ []) × (r ≡ s)
snoc-single [] r s e = (refl, cc)
snoc-single (x ∷ []) r s e = cc
snoc-single (x ∷ y ∷ t) r s e = cc

failure-handle_input :
    (n : ℕ) (r : Response) (e : Error) (m : Map NodeRegisters)
    → r.node_id ≡ n
    → r.item.key ≡ []
    → r.opt_error ≡ some e
    → lookup n m ≡ none
    → lookup n (handle_input r m) ≡ some (failure e)
unfolding handle_input
failure-handle_input n r e m hit unnamed failed there =
    ap (λ k. lookup n (gathered_by k r.opt_error r.item r.item.key m)) hit
    ∙ ap (λ key. lookup n (gathered_by n r.opt_error r.item key m)) unnamed
    ∙ ap (λ o. lookup n (gathered_by n o r.item [] m)) failed
    ∙ lookup-emplace_self n (failure e) m
    ∙ rw there refl

-- Of a node that failed as a whole, the client has the error.
pub gather-failed :
    (n : ℕ) (sent : List Response) (h : IsFailure (told n sent))
    → lookup n (gather sent) ≡ some (failure h.error)
unfolding gather lookup told
gather-failed n [] h = cc (h.only)
gather-failed n (r ∷ earlier) h = elim (Bool-cases (r.node_id == n)) [
  | inl hit ↦
      let e : r.node_id ≡ n = ground (arith, hit) in
      let (before, same) =
        snoc-single (told n earlier) r h.response (sym (told_self n r earlier e) ∙ h.only) in
      failure-handle_input n r h.error (gather earlier) e
        (ap (λ (s : Response). s.item.key) same ∙ h.unnamed)
        (ap (λ (s : Response). s.opt_error) same ∙ h.failed)
        (gather-listed n earlier (subst Named (sym before) tt) ∙ ap listed before)
  | inr miss ↦
      handle_input-other n r (gather earlier) miss
      ∙ gather-failed n earlier (record {
        response = h.response;
        error = h.error;
        only = sym (told_other n r earlier miss) ∙ h.only;
        unnamed = h.unnamed;
        failed = h.failed;
      })
]
