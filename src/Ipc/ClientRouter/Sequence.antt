-- ===== src/Ipc/ClientRouter/Sequence.antt =====
-- The sequence numbers that a client's gateway gives to its messages
-- (src/common/ipc/client_router.cpp).
use ocvsmd.Common.{
  ℕ, zero, suc, ◌+◌, ◌%◌, ◌<◌, ◌≤◌, ◌≡◌, refl, sym, ap, ◌∙◌, subst, Bool, false, ◌&&◌, Option, none,
  some, List, [], ◌∷◌, arith, ltb, ◌==◌, if◌then◌else◌, Bool-cases, if_cases, Option-cases, inl,
  inr, ==_refl,
}
use ocvsmd.Common.Map.{lookup, erase, lookup-insert, lookup-erase}
use ocvsmd.Error.{OptError}
use ocvsmd.Io.SocketBuffer
use ocvsmd.Io.SocketBuffer.{Payload, SocketBuffer, prepend}
use ocvsmd.Ipc.Gateway.{Event}
use ocvsmd.Ipc.Route.{Route, channel_msg}
use ocvsmd.Ipc.ClientRouter.{
  u64_mod, Gateway, ClientRouter, Env, Posted, new_gateway, make_gateway, is_registered_gateway,
  post, gateway_send, gateway_complete, gateway_dispose, handle_connected, with_gateway, end_of,
}

-- The number of a message of a gateway, if the route is one.
abbrev pub number_in : ℕ → Route → Option ℕ
number_in tag (channel_msg m) = if m.tag == tag then some m.sequence else none
number_in tag _ = none

abbrev pub and_number : Option ℕ → List ℕ → List ℕ
and_number none ns = ns
and_number (some n) ns = n ∷ ns

-- The sequence numbers of the messages given to the pipe for a gateway, newest first.
unfoldable pub sequences_of : ℕ → List Posted → List ℕ
sequences_of tag [] = []
sequences_of tag (p ∷ ps) =
    let rest = sequences_of tag ps in and_number (number_in tag p.route) rest

-- The first so many numbers, newest first, as a counter of 64 bits gives them.
unfoldable pub counted_up : ℕ → List ℕ
counted_up zero = []
counted_up (suc n) = let rest = counted_up n in n % u64_mod ∷ rest

-- How many messages a gateway has sent, and that its counter says so while it is alive.
pub record InOrder (r : ClientRouter) (tag : ℕ) : Type 0 where
  pub sent : ℕ
  pub numbers : sequences_of tag r.posted ≡ counted_up sent
  pub counter : (g : Gateway) → lookup tag r.gateways ≡ some g → g.next_sequence ≡ sent % u64_mod

pub record IsOrderly (r : ClientRouter) : Type 0 where
  pub made : (t : ℕ) (g : Gateway) → lookup t r.gateways ≡ some g → t < r.next_tag
  pub fresh : (t : ℕ) → r.next_tag ≤ t → sequences_of t r.posted ≡ []
  pub order : (t : ℕ) → InOrder r t

-- What differs in neither tags, gateways nor numbers.
pub record IsLike (r s : ClientRouter) : Type 0 where
  pub tags : s.next_tag ≡ r.next_tag
  pub alive : s.gateways ≡ r.gateways
  pub numbers : (t : ℕ) → sequences_of t s.posted ≡ sequences_of t r.posted

pub like-IsOrderly : (r s : ClientRouter) → IsLike r s → IsOrderly r → IsOrderly s
like-IsOrderly r s l o = record {
  made = λ t g e. subst (λ k. t < k) (sym l.tags) (o.made t g (sym (ap (lookup t) l.alive) ∙ e));
  fresh = λ t h. l.numbers t ∙ o.fresh t (subst (λ k. k ≤ t) l.tags h);
  order = λ t.
      let q = o.order t in
      record {
        sent = q.sent;
        numbers = l.numbers t ∙ q.numbers;
        counter = λ g e. q.counter g (sym (ap (lookup t) l.alive) ∙ e);
      };
}

-- A gateway changes, but not its counter.
pub with_gateway-IsOrderly :
    (t : ℕ) (g w : Gateway) (r : ClientRouter)
    → lookup t r.gateways ≡ some g
    → w.next_sequence ≡ g.next_sequence
    → IsOrderly r
    → IsOrderly (with_gateway r t w)
with_gateway-IsOrderly t g w r e same o = record {
  made = λ u v f. elim (Bool-cases (t == u)) [
    | inl hit ↦ subst (λ k. k < r.next_tag) (ground (arith, hit)) (o.made t g e)
    | inr miss ↦ o.made u v (ground (arith, lookup-insert t u w r.gateways, miss, f))
  ];
  fresh = o.fresh;
  order = λ u.
      let q = o.order u in
      record {
        sent = q.sent;
        numbers = q.numbers;
        counter = λ v f. elim (Bool-cases (t == u)) [
          | inl hit ↦
              let tu : t ≡ u = ground (arith, hit) in
              let wv : w ≡ v = ground (arith, lookup-insert t u w r.gateways, hit, f) in
              ap (λ (x : Gateway). x.next_sequence) (sym wv)
              ∙ same
              ∙ q.counter g (subst (λ k. lookup k r.gateways ≡ some g) tu e)
          | inr miss ↦ q.counter v (ground (arith, lookup-insert t u w r.gateways, miss, f))
        ];
      };
}

pub make_gateway-IsOrderly :
    (r : ClientRouter) → r.next_tag + 1 < u64_mod → IsOrderly r → IsOrderly (make_gateway r).1
unfolding make_gateway counted_up
make_gateway-IsOrderly r room o =
    let next : (r.next_tag + 1) % u64_mod ≡ r.next_tag + 1 = omega arith in
    record {
      made = λ t g e. elim (Bool-cases (r.next_tag == t)) [
        | inl hit ↦ ground (arith, hit, next)
        | inr miss ↦
            let old =
              o.made t g
                (ground (arith, lookup-insert r.next_tag t new_gateway r.gateways, miss, e)) in
            omega (arith, old, next)
      ];
      fresh = λ t h. o.fresh t (omega (arith, next, h));
      order = λ t. elim (Bool-cases (r.next_tag == t)) [
        | inl hit ↦ record {
          sent = 0;
          numbers = o.fresh t (ground (arith, hit));
          counter = λ g e.
              let same : new_gateway ≡ g =
                ground (arith, lookup-insert r.next_tag t new_gateway r.gateways, hit, e) in
              ap (λ (x : Gateway). x.next_sequence) (sym same) ∙ omega arith;
        }
        | inr miss ↦
            let q = o.order t in
            record {
              sent = q.sent;
              numbers = q.numbers;
              counter = λ g e.
                  q.counter g
                    (ground (arith, lookup-insert r.next_tag t new_gateway r.gateways, miss, e));
            }
      ];
    }

module _ (env : Env) where
  -- Routes that are no messages of a channel.
  post-IsOrderly :
      (route : Route) (b : SocketBuffer) (r : ClientRouter)
      → ((t : ℕ) → number_in t route ≡ none)
      → IsOrderly r
      → IsOrderly (post env route b r).1
  unfolding post sequences_of
  post-IsOrderly route b r other o = elim (Option-cases (env.codec.serialize route)) [
    | inl e ↦ rw (e, post) o
    | inr (bs, e) ↦
        rw (e, post)
          (like-IsOrderly r _
            (record {
              tags = refl;
              alive = refl;
              numbers = λ t. ap (λ n. and_number n (sequences_of t r.posted)) (other t);
            })
            o)
  ]

  -- A message that is serialized carries the next number.
  sent-IsOrderly :
      (t : ℕ) (g : Gateway) (id : ℕ) (b : SocketBuffer) (r : ClientRouter) (bs : List ℕ)
      → lookup t r.gateways ≡ some g
      → IsOrderly r
      → IsOrderly
          (record (with_gateway r t
            (record g { next_sequence = (g.next_sequence + 1) % u64_mod })) {
              posted =
                  record {
                    route = channel_msg (record {
                      tag = t;
                      sequence = g.next_sequence;
                      service_id = id;
                      payload_size = b.size;
                    });
                    buffer = prepend bs b;
                  }
                  ∷ r.posted;
            })
  unfolding sequences_of counted_up
  sent-IsOrderly t g id b r bs e o = record {
    made = λ u v f. elim (Bool-cases (t == u)) [
      | inl hit ↦ subst (λ k. k < r.next_tag) (ground (arith, hit)) (o.made t g e)
      | inr miss ↦ o.made u v (ground (arith, lookup-insert t u w r.gateways, miss, f))
    ];
    fresh = λ u h.
        let below = o.made t g e in
        let miss : (t == u) ≡ false = ground arith in rw miss (o.fresh u h);
    order = λ u. elim (Bool-cases (t == u)) [
      | inl hit ↦ subst (InOrder after) (ground (arith, hit)) own
      | inr miss ↦
          let q = o.order u in
          record {
            sent = q.sent;
            numbers = rw miss (q.numbers);
            counter = λ v f. q.counter v (ground (arith, lookup-insert t u w r.gateways, miss, f));
          }
    ];
  }
    where
      w : Gateway
      w = record g { next_sequence = (g.next_sequence + 1) % u64_mod }

      after : ClientRouter
      after = record (with_gateway r t w) {
        posted =
            record {
              route = channel_msg (record {
                tag = t;
                sequence = g.next_sequence;
                service_id = id;
                payload_size = b.size;
              });
              buffer = prepend bs b;
            }
            ∷ r.posted;
      }

      own : InOrder after t
      own =
          let q = o.order t in
          let now = q.counter g e in
          record {
            sent = suc q.sent;
            numbers = rw (==_refl t) (
                ap (λ n. n ∷ sequences_of t r.posted) now
                ∙ ap (λ ns. q.sent % u64_mod ∷ ns) q.numbers);
            counter = λ v f.
                let same : w ≡ v = ground (arith, lookup-insert t t w r.gateways, ==_refl t, f) in
                ap (λ (x : Gateway). x.next_sequence) (sym same) ∙ omega (arith, now);
          }

  -- The generated serializer has room for every route.
  abbrev pub Writes : Type 0
  Writes = (route : Route) → (bs : List ℕ) × (env.codec.serialize route ≡ some bs)

  -- Handlers work on the router through its operations, so they keep what the operations keep.
  abbrev pub KeepsOrder : Type 0
  KeepsOrder = (t : ℕ) (e : Event) (r : ClientRouter) → IsOrderly r → IsOrderly (env.react t e r).1

  pub gateway_send-IsOrderly :
      Writes
      → (t : ℕ) (g : Gateway) (id : ℕ) (b : SocketBuffer) (r : ClientRouter)
      → lookup t r.gateways ≡ some g
      → IsOrderly r
      → IsOrderly (gateway_send env t g id b r).1
  unfolding gateway_send post
  gateway_send-IsOrderly writes t g id b r e o =
      if_cases P r.is_connected
        (λ _. if_cases P (is_registered_gateway r t) (λ _. written (writes route)) (λ _. o))
        (λ _. o)
    where
      P : OptError × ClientRouter → Type 0
      P x = IsOrderly x.1

      route : Route
      route =
          channel_msg
            (record { tag = t; sequence = g.next_sequence; service_id = id; payload_size = b.size })

      written :
          (bs : List ℕ) × (env.codec.serialize route ≡ some bs)
          → IsOrderly
              (post env route b
                (with_gateway r t (record g { next_sequence = (g.next_sequence + 1) % u64_mod }))).1
      written (bs, wr) = rw (wr, post) (sent-IsOrderly t g id b r bs e o)

  pub gateway_complete-IsOrderly :
      (t : ℕ) (g : Gateway) (err : OptError) (keep_alive : Bool) (r : ClientRouter)
      → lookup t r.gateways ≡ some g
      → IsOrderly r
      → IsOrderly (gateway_complete env t g err keep_alive r).1
  unfolding gateway_complete
  gateway_complete-IsOrderly t g err keep_alive r e o =
      let w = record g { completion_opt_error = err } in
      let o' = with_gateway-IsOrderly t g w r e refl o in
      if_cases P r.is_connected
        (λ _.
          if_cases P (is_registered_gateway r t)
            (λ _.
              if_cases P (g.next_sequence == 0) (λ _. o')
                (λ _.
                  post-IsOrderly (end_of t keep_alive err) SocketBuffer.empty (with_gateway r t w)
                    (λ u. refl) o'))
            (λ _. o))
        (λ _. o)
    where
      P : OptError × ClientRouter → Type 0
      P x = IsOrderly x.1

  pub gateway_dispose-IsOrderly :
      (t : ℕ) (g : Gateway) (r : ClientRouter) → IsOrderly r → IsOrderly (gateway_dispose env t g r)
  unfolding gateway_dispose
  gateway_dispose-IsOrderly t g r o =
      if_cases IsOrderly (is_registered_gateway r t && (ltb 0 g.next_sequence && r.is_connected))
        (λ _.
          post-IsOrderly (end_of t false g.completion_opt_error) SocketBuffer.empty gone (λ u. refl)
            o')
        (λ _. o')
    where
      gone : ClientRouter
      gone = record r { map_of_gateways = erase t r.map_of_gateways; gateways = erase t r.gateways }

      o' : IsOrderly gone
      o' = record {
        made = λ u v f. o.made u v (ground (arith, lookup-erase t u r.gateways, f));
        fresh = o.fresh;
        order = λ u.
            let q = o.order u in
            record {
              sent = q.sent;
              numbers = q.numbers;
              counter = λ v f. q.counter v (ground (arith, lookup-erase t u r.gateways, f));
            };
      }

  pub handle_connected-IsOrderly :
      (r : ClientRouter) → IsOrderly r → IsOrderly (handle_connected env r).1
  unfolding handle_connected
  handle_connected-IsOrderly r o = post-IsOrderly _ SocketBuffer.empty r (λ u. refl) o
