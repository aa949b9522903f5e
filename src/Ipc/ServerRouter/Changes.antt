-- ===== src/Ipc/ServerRouter/Changes.antt =====
-- How the registrations change when the server router's maps do (src/common/ipc/server_router.cpp).
use ocvsmd.Common.{
  ℕ, ◌+◌, ◌≡◌, ◌≢◌, sym, ap, ◌∙◌, subst, some, [], arith, ◌==◌, ◌⊎◌, inl, inr, Bool-cases,
  Option-cases,
}
use ocvsmd.Common.Map.{
  lookup, insert, emplace, erase, lookup-insert, lookup-erase, lookup-emplace_self,
  lookup-emplace_ne,
}
use ocvsmd.Ipc.ClientRouter.Silence.{events_of}
use ocvsmd.Ipc.ServerRouter.{ServerRouter, MapOfGateways, with_map}
use ocvsmd.Ipc.ServerRouter.Registry.{Entry, Registered, erase-Entry, insert-Entry, Extends}

-- The registrations after one of a client's is erased, after the client is, and after a new client.
pub erased-Registered :
    (r : ServerRouter) (c t : ℕ) (m : MapOfGateways)
    → lookup c r.client_id_to_map_of_gateways ≡ some m
    → (c' t' id : ℕ) → Registered (with_map r c (erase t m)) c' t' id
    → Registered r c' t' id × (c ≡ c' → t ≢ t')
erased-Registered r c t m known c' t' id g =
    let found = sym (lookup-insert c c' (erase t m) r.client_id_to_map_of_gateways) ∙ g.known in
    elim (Bool-cases (c == c')) [
      | inl hit ↦
          let same : erase t m ≡ g.map = ground (arith, hit, found) in
          let (entry, ne) = erase-Entry t t' id m (subst (Entry t' id) (sym same) g.entry) in
          (
            record {
              map = m;
              known =
                  ap (λ k. lookup k r.client_id_to_map_of_gateways) (sym (ground (arith, hit)))
                  ∙ known;
              entry = entry;
            },
            λ e. ne,
          )
      | inr miss ↦ (
        record { map = g.map; known = ground (arith, miss, found); entry = g.entry },
        λ e. ground (arith, miss),
      )
    ]

pub forgotten-Registered :
    (r s : ServerRouter) (c : ℕ)
    → s.client_id_to_map_of_gateways ≡ erase c r.client_id_to_map_of_gateways
    → (c' t' id : ℕ) → Registered s c' t' id
    → Registered r c' t' id
forgotten-Registered r s c same c' t' id g = record {
  map = g.map;
  known =
      ground
        (arith, lookup-erase c c' r.client_id_to_map_of_gateways, ap (lookup c') same, g.known);
  entry = g.entry;
}

pub welcomed-Registered :
    (r s : ServerRouter) (c : ℕ)
    → s.client_id_to_map_of_gateways ≡ emplace c [] r.client_id_to_map_of_gateways
    → (c' t' id : ℕ) → Registered s c' t' id
    → Registered r c' t' id
unfolding Entry
welcomed-Registered r s c same c' t' id g =
    let found = sym (ap (lookup c') same) ∙ g.known in
    elim (Bool-cases (c == c')) [
      | inr miss ↦ record {
        map = g.map;
        known = sym (lookup-emplace_ne c c' [] r.client_id_to_map_of_gateways miss) ∙ found;
        entry = g.entry;
      }
      | inl hit ↦
          let eq : c ≡ c' = ground (arith, hit) in
          let here =
            sym (lookup-emplace_self c [] r.client_id_to_map_of_gateways)
            ∙ ap (λ k. lookup k (emplace c [] r.client_id_to_map_of_gateways)) eq
            ∙ found in
          elim (Option-cases (lookup c r.client_id_to_map_of_gateways)) [
            | inl gone ↦
                let nothing : g.map ≡ [] = ground (arith, gone, here) in
                absurd (subst (Entry t' id) nothing g.entry)
            | inr (m, old) ↦ record {
              map = g.map;
              known =
                  ap (λ k. lookup k r.client_id_to_map_of_gateways) (sym eq)
                  ∙ ground (arith, old, here);
              entry = g.entry;
            }
          ]
    ]

-- A new registration of a new gateway.
pub created-Extends :
    (r s : ServerRouter) (c t : ℕ) (m : MapOfGateways)
    → lookup c r.client_id_to_map_of_gateways ≡ some m
    → s.client_id_to_map_of_gateways
      ≡ insert c (insert t r.next_gateway m) r.client_id_to_map_of_gateways
    → s.next_gateway ≡ r.next_gateway + 1
    → s.events ≡ r.events
    → Extends r s
created-Extends r s c t m known maps next same = record {
  later = omega (arith, next);
  registered = λ c' t' id g. elim (split c' t' id g) [
    | inl (a, b, e) ↦ inr (omega (arith, e))
    | inr h ↦ inl h
  ];
  silent = λ id h k. ap (events_of id) same;
  valid = λ v. record {
    made = λ c' t' id g. elim (split c' t' id g) [
      | inl (a, b, e) ↦ omega (arith, e, next)
      | inr h ↦ omega (arith, v.made c' t' id h, next)
    ];
    once = λ c1 t1 c2 t2 id g h. elim (split c1 t1 id g) [
      | inl (a, b, e) ↦ elim (split c2 t2 id h) [
        | inl (a', b', e') ↦ (sym a ∙ a', sym b ∙ b')
        | inr old ↦ absurd (omega (arith, v.made c2 t2 id old, e))
      ]
      | inr old ↦ elim (split c2 t2 id h) [
        | inl (a', b', e') ↦ absurd (omega (arith, v.made c1 t1 id old, e'))
        | inr old' ↦ v.once c1 t1 c2 t2 id old old'
      ]
    ];
  };
}
  where
    split :
        (c' t' id : ℕ)
        → Registered s c' t' id
        → ((c ≡ c') × (t ≡ t') × (r.next_gateway ≡ id)) ⊎ Registered r c' t' id
    split c' t' id g =
        let found =
          sym (lookup-insert c c' (insert t r.next_gateway m) r.client_id_to_map_of_gateways)
          ∙ (sym (ap (lookup c') maps) ∙ g.known) in
        elim (Bool-cases (c == c')) [
          | inl hit ↦
              let eq : c ≡ c' = ground (arith, hit) in
              let whole : insert t r.next_gateway m ≡ g.map = ground (arith, hit, found) in
              elim (insert-Entry t r.next_gateway t' id m
                (subst (Entry t' id) (sym whole) g.entry)) [
                  | inl (a, b) ↦ inl (eq, a, b)
                  | inr old ↦ inr (record {
                    map = m;
                    known = ap (λ k. lookup k r.client_id_to_map_of_gateways) (sym eq) ∙ known;
                    entry = old;
                  })
                ]
          | inr miss ↦
              inr (record { map = g.map; known = ground (arith, miss, found); entry = g.entry })
        ]
