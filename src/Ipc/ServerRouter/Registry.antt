-- ===== src/Ipc/ServerRouter/Registry.antt =====
-- The registrations of gateways in the server router, and how its operations may change them
-- (src/common/ipc/server_router.cpp).
use ocvsmd.Common.{
  ℕ, ◌<◌, ◌≤◌, ◌≡◌, ◌≢◌, refl, sym, ap, ◌∙◌, subst, some, [], ◌∷◌, arith, ◌==◌, ◌⊎◌, inl, inr,
  Bool-cases,
}
use ocvsmd.Common.Map.{lookup, insert, erase}
use ocvsmd.Ipc.Gateway.{Event}
use ocvsmd.Ipc.ClientRouter.Silence.{events_of}
use ocvsmd.Ipc.ServerRouter.{ServerRouter, MapOfGateways}

-- A gateway stands under a tag in the map of one client.
unfoldable pub Entry : ℕ → ℕ → MapOfGateways → Type 0
Entry tag id [] = ⊥
Entry tag id ((t, i) ∷ m) = ((t ≡ tag) × (i ≡ id)) ⊎ Entry tag id m

pub record Registered (r : ServerRouter) (client_id tag id : ℕ) : Type 0 where
  pub map : MapOfGateways
  pub known : lookup client_id r.client_id_to_map_of_gateways ≡ some map
  pub entry : Entry tag id map

-- A gateway is registered once at most, and only if it was made.
pub record IsValid (r : ServerRouter) : Type 0 where
  pub made : (c t id : ℕ) → Registered r c t id → id < r.next_gateway
  pub once : (c t c' t' id : ℕ) → Registered r c t id → Registered r c' t' id → (c ≡ c') × (t ≡ t')

pub lookup-Entry : (t id : ℕ) (m : MapOfGateways) → lookup t m ≡ some id → Entry t id m
unfolding lookup Entry
lookup-Entry t id [] h = cc
lookup-Entry t id ((k, i) ∷ m) h = ground (arith, lookup-Entry t id m)

pub erase-Entry :
    (t t' id : ℕ) (m : MapOfGateways) → Entry t' id (erase t m) → Entry t' id m × (t ≢ t')
unfolding erase Entry
erase-Entry t t' id [] h = elim h [ ]
erase-Entry t t' id ((k, i) ∷ m) h = ground (arith, erase-Entry t t' id m)

pub insert-Entry :
    (t id t' j : ℕ) (m : MapOfGateways)
    → Entry t' j (insert t id m)
    → ((t ≡ t') × (id ≡ j)) ⊎ Entry t' j m
unfolding insert Entry
insert-Entry t id t' j [] h = h
insert-Entry t id t' j ((k, i) ∷ m) h = ground (arith, insert-Entry t id t' j m)

-- What happened between two states: gateways were made, each new registration is of one of them,
-- and nobody but registered and new gateways heard anything.
pub record Extends (r s : ServerRouter) : Type 0 where
  pub later : r.next_gateway ≤ s.next_gateway
  pub registered : (c t id : ℕ) → Registered s c t id → Registered r c t id ⊎ (r.next_gateway ≤ id)
  pub silent :
      (id : ℕ)
      → id < r.next_gateway
      → ((c t : ℕ) → ¬ Registered r c t id)
      → events_of id s.events ≡ events_of id r.events
  pub valid : IsValid r → IsValid s

pub Extends-refl : (r : ServerRouter) → Extends r r
Extends-refl r = record {
  later = omega arith;
  registered = λ c t id g. inl g;
  silent = λ id h k. refl;
  valid = λ v. v;
}

-- The same registrations, gateways made and calls.
abbrev pub IsLike : ServerRouter → ServerRouter → Type 0
IsLike r s =
    (s.client_id_to_map_of_gateways ≡ r.client_id_to_map_of_gateways)
    × (s.next_gateway ≡ r.next_gateway)
    × (s.events ≡ r.events)

pub Extends-trans : (r s u : ServerRouter) → Extends r s → Extends s u → Extends r u
Extends-trans r s u a b = record {
  later = omega (arith, a.later, b.later);
  registered = λ c t id g. elim (b.registered c t id g) [
    | inl h ↦ a.registered c t id h
    | inr h ↦ inr (omega (arith, a.later))
  ];
  silent = λ id h k.
      b.silent id (omega (arith, a.later))
        (λ c t g. elim (a.registered c t id g) [ inl x ↦ k c t x | inr x ↦ omega arith ])
      ∙ a.silent id h k;
  valid = λ v. b.valid (a.valid v);
}

-- Registrations that only go away.
pub shrinks-Extends :
    (r s : ServerRouter)
    → ((c t id : ℕ) → Registered s c t id → Registered r c t id)
    → s.next_gateway ≡ r.next_gateway
    → s.events ≡ r.events
    → Extends r s
shrinks-Extends r s sub next same = record {
  later = omega arith;
  registered = λ c t id g. inl (sub c t id g);
  silent = λ id h k. ap (events_of id) same;
  valid = λ v. record {
    made = λ c t id g. omega (arith, v.made c t id (sub c t id g));
    once = λ c t c' t' id g h. v.once c t c' t' id (sub c t id g) (sub c' t' id h);
  };
}

pub like-Extends : (r s : ServerRouter) → IsLike r s → Extends r s
like-Extends r s (maps, next, same) =
    shrinks-Extends r s
      (λ c t id g. record {
        map = g.map;
        known = sym (ap (lookup c) maps) ∙ g.known;
        entry = g.entry;
      })
      next same

-- A gateway that is registered at the start hears an event.
pub event-Extends :
    (r s : ServerRouter) (c t id : ℕ) (e : Event)
    → Registered r c t id
    → Extends r s
    → Extends r (record s { events = (id, e) ∷ s.events })
unfolding events_of
event-Extends r s c t id e reg x = record {
  later = x.later;
  registered =
      λ c' t' j g. x.registered c' t' j (record { map = g.map; known = g.known; entry = g.entry });
  silent = λ j h k. elim (Bool-cases (id == j)) [
    | inl hit ↦ absurd (k c t (subst (Registered r c t) (ground arith) reg))
    | inr miss ↦ rw (miss) (x.silent j h k)
  ];
  valid = λ v.
      let w = x.valid v in
      record {
        made =
            λ c' t' j g. w.made c' t' j (record { map = g.map; known = g.known; entry = g.entry });
        once = λ c1 t1 c2 t2 j g h.
            w.once c1 t1 c2 t2 j (record { map = g.map; known = g.known; entry = g.entry })
              (record { map = h.map; known = h.known; entry = h.entry });
      };
}
