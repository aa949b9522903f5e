-- ===== src/Ipc/Pipe/SocketServer/Sessions.antt =====
-- The order of the events that the router is given about each client
-- (src/common/ipc/pipe/socket_server.cpp).
use ocvsmd.Common.{
  ℕ, ◌+◌, ◌<◌, ◌≡◌, refl, sym, ap, ◌∙◌, subst, Bool, true, false, Option, none, some, List, [], ◌∷◌,
  arith, ◌==◌, if◌then◌else◌, inl, inr, Bool-cases, has_value, leb, ltb, if_cases, ◌%◌, ◌&&◌,
  ==_refl,
}
use ocvsmd.Common.Map.{lookup, emplace, lookup-emplace_self, lookup-emplace_ne}
use ocvsmd.Error.{OptError}
use ocvsmd.Io.SocketBuffer.{Payload, SocketBuffer}
use ocvsmd.Io.Posix.{Incoming, Outgoing}
use ocvsmd.Ipc.Pipe.SocketBase.{IoState, receive_data}
use ocvsmd.Ipc.Pipe.SocketServer.{
  Event, connected, message, disconnected, ClientContext, SocketServer, Env, Setup, start,
  make_socket_handle, and_then, of_errno, init, size_mod, new_context, send, notify, handle_accept,
  handle_client_request,
}
use ocvsmd.Ipc.Pipe.SocketServer.Requests.{
  receiver, receiver_of, IsQuiet, send-IsQuiet, notify-IsQuiet, delivery, ending,
  handle_client_request-Serves,
}

-- A client's session: not there yet, open, closed; or out of order.
pub data Phase : Type 0 where
  absent active gone broken : Phase

abbrev pub advance : Phase → Event → Phase
advance absent (connected c) = active
advance active (message c payload) = active
advance active (disconnected c) = gone
advance _ _ = broken

abbrev pub client_of : Event → ℕ
client_of (connected c) = c
client_of (message c payload) = c
client_of (disconnected c) = c

-- The phase of a client after events, the newest first.
unfoldable pub phase_of : ℕ → List Event → Phase
phase_of c [] = absent
phase_of c (e ∷ es) = let p = phase_of c es in if client_of e == c then advance p e else p

-- The phase that a client should be in: open while the server has its context, closed if its
-- number was given out, and before that not there.
abbrev pub phase_at : Bool → Bool → Phase
phase_at true given = active
phase_at false true = gone
phase_at false false = absent

abbrev pub is_given : ℕ → ℕ → Bool
is_given counter c = ltb 0 c && leb c counter

abbrev pub expected : SocketServer → ℕ → Phase
expected s c = phase_at (has_value (receiver_of s c)) (is_given s.unique_client_id_counter c)

pub record IsOrderly (s : SocketServer) : Type 0 where
  pub phases : (c : ℕ) → phase_of c s.events ≡ expected s c
  pub given :
      (c : ℕ) → has_value (receiver_of s c) ≡ true → is_given s.unique_client_id_counter c ≡ true

-- What happens to the server. A request comes from a connection that is there, since the context
-- owns its callback; and no more clients come than a counter of 64 bits has.
pub data Step (env : Env) (s : SocketServer) : SocketServer → Type 0 where
  starts : (setup : Setup) → Step env s (start setup s).1
  finds_nothing : Step env s (handle_accept env none s)
  accepts :
      (incoming : Incoming) (outgoing : Outgoing)
      → s.unique_client_id_counter + 1 < size_mod
      → Step env s (handle_accept env (some (incoming, outgoing)) s)
  requests :
      (c : ℕ) (ctx : ClientContext)
      → lookup c s.client_id_to_context ≡ some ctx
      → Step env s (handle_client_request env c s)
  sends : (c : ℕ) (b : SocketBuffer) → Step env s (send c b s).1

pub data Reach (env : Env) (s : SocketServer) : SocketServer → Type 0 where
  here : Reach env s s
  next : {t u : SocketServer} → Reach env s t → Step env t u → Reach env s u

IsQuiet-IsOrderly : (s t : SocketServer) → IsQuiet s t → IsOrderly s → IsOrderly t
IsQuiet-IsOrderly s t q o = record {
  phases = λ c.
      ap (phase_of c) q.events
      ∙ o.phases c
      ∙ ap (λ r. phase_at (has_value r) (is_given s.unique_client_id_counter c))
          (sym (q.receivers c))
      ∙ ap (λ n. phase_at (has_value (receiver_of t c)) (is_given n c)) (sym q.counter);
  given = λ c h.
      ap (λ n. is_given n c) q.counter
      ∙ o.given c (ap (λ r. has_value r) (sym (q.receivers c)) ∙ h);
}

start-IsQuiet : (setup : Setup) (s : SocketServer) → IsQuiet s (start setup s).1
unfolding start make_socket_handle
start-IsQuiet setup s =
    let made = and_then setup.socket (and_then (of_errno setup.reuse_address) setup.bind) in
    let same : IsQuiet s s = record { events = refl; counter = refl; receivers = λ d. refl } in
    let q : IsQuiet s (make_socket_handle setup s).1 =
      if_cases (IsQuiet s) (has_value made) (λ _. same)
        (λ _. record { events = refl; counter = refl; receivers = λ d. refl }) in
    if_cases (IsQuiet s) (has_value (and_then made (of_errno setup.listen))) (λ _. q)
      (λ _. record { events = q.events; counter = q.counter; receivers = q.receivers })

init-IsOrderly : IsOrderly init
unfolding phase_of lookup
init-IsOrderly = record { phases = λ c. ground arith; given = λ c h. cc }

-- What a call of `receiveData` of one client tells of it, and of the others.
phase_of-own :
    (c : ℕ) (o : OptError) (del : Option Payload) (es : List Event)
    → phase_of c es ≡ active
    → phase_of c (ending o c (delivery del c es)) ≡ (if has_value o then gone else active)
unfolding phase_of
phase_of-own c none none es h = h
phase_of-own c none (some payload) es h = rw (==_refl c, h) refl
phase_of-own c (some e) none es h = rw (==_refl c, h) refl
phase_of-own c (some e) (some payload) es h = rw (==_refl c, h) refl

phase_of-other :
    (c d : ℕ) (o : OptError) (del : Option Payload) (es : List Event)
    → (c == d) ≡ false
    → phase_of d (ending o c (delivery del c es)) ≡ phase_of d es
unfolding phase_of
phase_of-other c d none none es h = refl
phase_of-other c d none (some payload) es h = rw h refl
phase_of-other c d (some e) none es h = rw h refl
phase_of-other c d (some e) (some payload) es h = rw h refl

phase_at-if :
    (b : OptError) (rx : IoState × Incoming)
    → phase_at (has_value (if has_value b then none else some rx)) true
      ≡ (if has_value b then gone else active)
phase_at-if none rx = refl
phase_at-if (some e) rx = refl

module _ (incoming : Incoming) (outgoing : Outgoing) (s : SocketServer) where
  -- The server with a new client, before and after the connection is noted.
  abbrev joined : ℕ → SocketServer
  joined k = record s {
    unique_client_id_counter = k;
    client_id_to_context = emplace k (new_context incoming outgoing) s.client_id_to_context;
  }

  abbrev told : ℕ → SocketServer
  told k = record (joined k) { events = connected k ∷ s.events }

  there :
      (o : Option ClientContext)
      → has_value
          (receiver (elim o [ none ↦ some (new_context incoming outgoing) | some w ↦ some w ]))
        ≡ true
  there none = refl
  there (some w) = refl

  told-IsOrderly : IsOrderly s → IsOrderly (told (s.unique_client_id_counter + 1))
  unfolding phase_of
  told-IsOrderly o = record {
    phases = λ d. elim (Bool-cases (n == d)) [
      | inl hit ↦
          subst (λ k. phase_of k (connected n ∷ s.events) ≡ expected (told n) k)
            (ground (arith, hit)) own
      | inr miss ↦
          rw miss (o.phases d)
          ∙ ap (λ b. phase_at (has_value (receiver_of s d)) b) (same_given d miss)
          ∙ ap (λ r. phase_at (has_value r) (is_given n d)) (sym (other d miss))
    ];
    given = λ d h. elim (Bool-cases (n == d)) [
      | inl hit ↦ ground (arith, hit)
      | inr miss ↦
          sym (same_given d miss) ∙ o.given d (ap (λ r. has_value r) (sym (other d miss)) ∙ h)
    ];
  }
    where
      n : ℕ
      n = s.unique_client_id_counter + 1

      other : (d : ℕ) → (n == d) ≡ false → receiver_of (told n) d ≡ receiver_of s d
      other d miss =
          ap receiver
            (lookup-emplace_ne n d (new_context incoming outgoing) s.client_id_to_context miss)

      same_given : (d : ℕ) → (n == d) ≡ false → is_given s.unique_client_id_counter d ≡ is_given n d
      same_given d miss = ground arith

      not_there : has_value (receiver_of s n) ≡ false
      not_there = elim (Bool-cases (has_value (receiver_of s n))) [
        | inl h ↦ absurd (ground (arith, o.given n h))
        | inr h ↦ h
      ]

      not_given : is_given s.unique_client_id_counter n ≡ false
      not_given = ground arith

      now_given : is_given n n ≡ true
      now_given = ground arith

      was_absent : phase_of n s.events ≡ absent
      was_absent =
          o.phases n
          ∙ ap (λ b. phase_at b (is_given s.unique_client_id_counter n)) not_there
          ∙ ap (λ b. phase_at false b) not_given

      own : phase_of n (connected n ∷ s.events) ≡ expected (told n) n
      own =
          rw (==_refl n, was_absent) refl
          ∙ ap (λ b. phase_at b (is_given n n))
              (sym (
                ap (λ r. has_value (receiver r))
                  (lookup-emplace_self n (new_context incoming outgoing) s.client_id_to_context)
                ∙ there (lookup n s.client_id_to_context)))

module _ (env : Env) where
  accepts-IsOrderly :
      (incoming : Incoming) (outgoing : Outgoing) (s : SocketServer)
      → s.unique_client_id_counter + 1 < size_mod
      → IsOrderly s
      → IsOrderly (handle_accept env (some (incoming, outgoing)) s)
  unfolding handle_accept phase_of
  accepts-IsOrderly incoming outgoing s room o =
      let n = s.unique_client_id_counter + 1 in
      let eq : n % size_mod ≡ n = omega arith in
      subst (λ k. IsOrderly (notify env (connected k) (joined incoming outgoing s k))) (sym eq)
        (IsQuiet-IsOrderly (told incoming outgoing s n) _
          (notify-IsQuiet env (connected n) (joined incoming outgoing s n))
          (told-IsOrderly incoming outgoing s o))

  requests-IsOrderly :
      (c : ℕ) (ctx : ClientContext) (s : SocketServer)
      → lookup c s.client_id_to_context ≡ some ctx
      → IsOrderly s
      → IsOrderly (handle_client_request env c s)
  unfolding phase_of
  requests-IsOrderly c ctx s found o =
      let rx = receive_data ctx.state ctx.incoming in
      let t = handle_client_request env c s in
      let served = handle_client_request-Serves env c s ctx found in
      let here : has_value (receiver_of s c) ≡ true = rw found refl in
      let given_c = o.given c here in
      record {
        phases = λ d. ap (phase_of d) served.events ∙ (elim (Bool-cases (c == d)) [
          | inl hit ↦
              let e : c ≡ d = ground (arith, hit) in
              subst
                (λ k.
                  phase_of k (ending rx.result c (delivery rx.delivered c s.events)) ≡ expected t k)
                e
                (phase_of-own c rx.result rx.delivered s.events
                    (o.phases c ∙ ap (λ b. phase_at b (is_given s.unique_client_id_counter c)) here)
                  ∙ sym (
                      ap (λ n. phase_at (has_value (receiver_of t c)) (is_given n c)) served.counter
                      ∙ ap (λ b. phase_at (has_value (receiver_of t c)) b) given_c
                      ∙ ap (λ r. phase_at (has_value r) true)
                          (served.receivers c ∙ rw (==_refl c) refl)
                      ∙ phase_at-if rx.result (rx.state, rx.incoming)))
          | inr miss ↦
              phase_of-other c d rx.result rx.delivered s.events miss
              ∙ o.phases d
              ∙ sym (
                  ap (λ n. phase_at (has_value (receiver_of t d)) (is_given n d)) served.counter
                  ∙ ap (λ r. phase_at (has_value r) (is_given s.unique_client_id_counter d))
                      (served.receivers d ∙ rw miss refl))
        ]);
        given = λ d h. ap (λ n. is_given n d) served.counter ∙ (elim (Bool-cases (c == d)) [
          | inl hit ↦
              let e : c ≡ d = ground (arith, hit) in
              subst (λ k. is_given s.unique_client_id_counter k ≡ true) e given_c
          | inr miss ↦
              o.given d (ap (λ r. has_value r) (sym (served.receivers d ∙ rw miss refl)) ∙ h)
        ]);
      }

  Step-IsOrderly : {s t : SocketServer} → Step env s t → IsOrderly s → IsOrderly t
  unfolding handle_accept
  Step-IsOrderly {s} (starts setup) o = IsQuiet-IsOrderly s _ (start-IsQuiet setup s) o
  Step-IsOrderly {s} finds_nothing o = o
  Step-IsOrderly {s} (accepts incoming outgoing room) o =
      accepts-IsOrderly incoming outgoing s room o
  Step-IsOrderly {s} (requests c ctx found) o = requests-IsOrderly c ctx s found o
  Step-IsOrderly {s} (sends c b) o = IsQuiet-IsOrderly s _ (send-IsQuiet c b s) o

  Reach-IsOrderly : {s t : SocketServer} → Reach env s t → IsOrderly s → IsOrderly t
  Reach-IsOrderly here o = o
  Reach-IsOrderly (next path step) o = Step-IsOrderly step (Reach-IsOrderly path o)

  -- In every state that the server gets to from its start, the router was told of each client in
  -- order: first that it connected, then its messages, then that it disconnected, each of the first
  -- and the last once. The session is open exactly while the server has the client's context; it is
  -- closed if the client's number was given out and the context is gone; and nothing was told of a
  -- number that was not given out.
  pub sessions_in_order :
      (s : SocketServer) (c : ℕ) → Reach env init s → phase_of c s.events ≡ expected s c
  sessions_in_order s c path = (Reach-IsOrderly path init-IsOrderly).phases c
