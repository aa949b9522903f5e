-- ===== src/Daemon/Sessions.antt =====
-- The part that the services of src/daemon/engine/svc share: a map of state machines, one a channel, each
-- found under its id until it releases itself. Those that did are kept as a history.
use ocvsmd.Common.{
  ℕ, ◌+◌, ◌%◌, ◌≡◌, subst, Bool, true, false, some, [], ◌∷◌, arith, ◌==◌, inl, inr, if◌then◌else◌,
  Bool-cases,
}
use ocvsmd.Common.Map.{Map, lookup, insert, erase, lookup-insert, lookup-erase}
use ocvsmd.Ipc.ClientRouter.{u64_mod}

pub record Service (F : Type 0) : Type 0 where
  pub next_fsm_id : ℕ
  pub id_to_fsm : Map F
  pub ended : Map F

module _ {F : Type 0} (is_released : F → Bool) where
  -- A state machine after an operation: it is put back, or `releaseFsmBy` took it out of the map.
  unfoldable pub settle : ℕ → F → Service F → Service F
  settle id f s =
      if is_released f
      then record s { id_to_fsm = erase id s.id_to_fsm; ended = (id, f) ∷ s.ended }
      else record s { id_to_fsm = insert id f s.id_to_fsm }

  -- `operator()`: a state machine that has handled its first request.
  unfoldable pub serve : F → Service F → Service F
  unfolding settle
  serve f s = settle s.next_fsm_id f (record s { next_fsm_id = (s.next_fsm_id + 1) % u64_mod })

  -- A service whose channels begin and go on as the two relations say.
  pub data Step (Begins : F → Type 0) (Acts : F → F → Type 0) (s : Service F)
      : Service F → Type 0 where
    begins : (f : F) → Begins f → Step Begins Acts s (serve f s)
    acts :
        (id : ℕ) (f g : F)
        → lookup id s.id_to_fsm ≡ some f
        → Acts f g
        → Step Begins Acts s (settle id g s)

  pub data Reach (Begins : F → Type 0) (Acts : F → F → Type 0) : Service F → Type 0 where
    here : Reach Begins Acts (record { next_fsm_id = 0; id_to_fsm = []; ended = [] })
    next : {s t : Service F} → Reach Begins Acts s → Step Begins Acts s t → Reach Begins Acts t

  module _ (P : F → Type 0) where
    abbrev pub EachEnded : Map F → Type 0
    EachEnded [] = Unit
    EachEnded (e ∷ ended) = (P e.1 × (is_released e.1 ≡ true)) × EachEnded ended

    -- What holds of every channel, and that those in the map are just the ones not released.
    pub record IsSound (s : Service F) : Type 0 where
      pub there : (id : ℕ) (f : F) → lookup id s.id_to_fsm ≡ some f → P f × (is_released f ≡ false)
      pub gone : EachEnded s.ended

    settle-IsSound : (id : ℕ) (f : F) (s : Service F) → P f → IsSound s → IsSound (settle id f s)
    unfolding settle
    settle-IsSound id f s p h = elim (Bool-cases (is_released f)) [
      | inl over ↦ rw over (record {
        there = λ j g e. h.there j g (ground (arith, lookup-erase id j s.id_to_fsm, e));
        gone = ((p, over), h.gone);
      })
      | inr live ↦ rw live (record {
        there = λ j g e. elim (Bool-cases (id == j)) [
          | inl hit ↦
              let same : f ≡ g = ground (arith, lookup-insert id j f s.id_to_fsm, hit, e) in
              subst (λ x. P x × (is_released x ≡ false)) same (p, live)
          | inr miss ↦ h.there j g (ground (arith, lookup-insert id j f s.id_to_fsm, miss, e))
        ];
        gone = h.gone;
      })
    ]

    module _ {Begins : F → Type 0} {Acts : F → F → Type 0} (first : (f : F) → Begins f → P f)
        (keep : (f g : F) → Acts f g → P f → P g) where
      -- What begins true of a channel and is kept by all that happens on it is true of every channel
      -- of a service, whatever happens on the others.
      pub Reach-IsSound : {s : Service F} → Reach Begins Acts s → IsSound s
      unfolding serve lookup
      Reach-IsSound here = record { there = λ id f e. cc; gone = tt }
      Reach-IsSound (next {s} path (begins f b)) =
          let h = Reach-IsSound path in
          settle-IsSound s.next_fsm_id f _ (first f b) (record { there = h.there; gone = h.gone })
      Reach-IsSound (next {s} path (acts id f g e a)) =
          let h = Reach-IsSound path in settle-IsSound id g s (keep f g a (h.there id f e).0) h
