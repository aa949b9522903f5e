-- ===== src/Daemon/Relay.antt =====
-- The raw relay services (src/daemon/engine/svc/relay): a channel is a publisher, a subscriber or a
-- client of the Cyphal network. What their state machines share: a channel is completed, and then gone.
-- A state machine that was released is used no more; what works on it after that is a fault.
pub mod RawPublisher
pub mod RawSubscriber
pub mod RawRpcClient
use ocvsmd.Common.{
  ℕ, ◌≡◌, refl, ap, ◌⊎◌, inl, inr, Bool, true, false, Option, none, some, List, [], ◌∷◌, arith,
}
use ocvsmd.Error.{OptError}

-- The end of a state machine: whether it was released, and how the channel was completed.
pub record Life : Type 0 where
  pub is_released : Bool
  pub faulted : Bool
  pub completions : List OptError

abbrev pub live : Life
live = record { is_released = false; faulted = false; completions = [] }

abbrev pub close : OptError → Life → Life
close opt_error l = record l { is_released = true; completions = opt_error ∷ l.completions }

abbrev pub broken : Life → Life
broken l = record l { faulted = true }

-- Not used after its end, and completed just once, when it was released.
pub record IsSettled (l : Life) : Type 0 where
  pub fine : l.faulted ≡ false
  pub ended :
      ((l.is_released ≡ false) × (l.completions ≡ []))
      ⊎ ((l.is_released ≡ true) × (o : OptError) × (l.completions ≡ o ∷ []))

-- What an operation on a state machine that is there does to its end: nothing, or it closes it.
pub data Keeps (l : Life) : Life → Type 0 where
  same : Keeps l l
  closes : (o : OptError) → Keeps l (close o l)

pub live-IsSettled : IsSettled live
live-IsSettled = record { fine = refl; ended = inl (refl, refl) }

pub Keeps-IsSettled : {l m : Life} → Keeps l m → l.is_released ≡ false → IsSettled l → IsSettled m
Keeps-IsSettled same alive s = s
Keeps-IsSettled {l} (closes o) alive s = record {
  fine = s.fine;
  ended = inr (refl, o, once s.ended);
}
  where
    once :
        ((l.is_released ≡ false) × (l.completions ≡ []))
          ⊎ ((l.is_released ≡ true) × (p : OptError) × (l.completions ≡ p ∷ []))
        → o ∷ l.completions ≡ o ∷ []
    once (inl (open_yet, unended)) = ap (λ cs. o ∷ cs) unended
    once (inr (gone, p, ended)) = cc (alive, gone)
