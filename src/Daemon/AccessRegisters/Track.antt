-- ===== src/Daemon/AccessRegisters/Track.antt =====
-- How far each node of a channel has come (src/daemon/engine/svc/node/access_registers_service.cpp).
use ocvsmd.Common.{
  ℕ, zero, suc, ◌+◌, ◌%◌, ◌≤◌, ◌<◌, ◌≡◌, refl, sym, ◌∙◌, ap, subst, ◌⊎◌, Bool, true, false, Option,
  none, some, List, [], ◌∷◌, ◌++◌, map, arith, ◌==◌, if◌then◌else◌, length, take, drop, All,
  ==_refl, inl, inr, Bool-cases,
}
use ocvsmd.Common.Map.{Map, lookup, insert, erase, lookup-insert, lookup-erase}
use ocvsmd.Common.Map.Keys.{Others}
use ocvsmd.Error.{Error}
use ocvsmd.Daemon.AccessRegisters.{KeyValue, NodeContext, Response, index_mod}

-- What a channel was told for a node, oldest first.
unfoldable pub told : ℕ → List Response → List Response
told n [] = []
told n (r ∷ sent) = let before = told n sent in if r.node_id == n then before ++ r ∷ [] else before

pub told_self :
    (n : ℕ) (r : Response) (sent : List Response)
    → r.node_id ≡ n
    → told n (r ∷ sent) ≡ told n sent ++ r ∷ []
unfolding told
told_self n r sent e = rw e (rw (==_refl n) refl)

pub told_other :
    (n : ℕ) (r : Response) (sent : List Response)
    → (r.node_id == n) ≡ false
    → told n (r ∷ sent) ≡ told n sent
unfolding told
told_other n r sent e = rw e refl

-- The registers that responses are about.
abbrev pub keys : List Response → List (List ℕ)
keys = map (λ r. r.item.key)

keys-snoc : (t : List Response) (r : Response) → keys (t ++ r ∷ []) ≡ keys t ++ r.item.key ∷ []
keys-snoc [] r = refl
keys-snoc (s ∷ t) r = ap (λ ks. s.item.key ∷ ks) (keys-snoc t r)

pub keys-told :
    (n : ℕ) (r : Response) (sent : List Response)
    → r.node_id ≡ n
    → keys (told n (r ∷ sent)) ≡ keys (told n sent) ++ r.item.key ∷ []
keys-told n r sent e = ap keys (told_self n r sent e) ∙ keys-snoc (told n sent) r

pub keys-eq_nil : (t : List Response) → keys t ≡ [] → t ≡ []
keys-eq_nil [] e = refl
keys-eq_nil (r ∷ t) e = cc

-- A node that failed as a whole: one response, without a name, and with an error.
pub record IsFailure (t : List Response) : Type 0 where
  pub response : Response
  pub error : Error
  pub only : t ≡ response ∷ []
  pub unnamed : response.item.key ≡ []
  pub failed : response.opt_error ≡ some error

abbrev pub names : List KeyValue → List (List ℕ)
names = map (λ item. item.key)

pub length-names : (items : List KeyValue) → length (names items) ≡ length items
length-names [] = refl
length-names (item ∷ items) = ap suc (length-names items)

-- Where the registers go on with `item`, one more of them is taken.
pub drop-cons :
    (i : ℕ) (regs : List KeyValue) (item : KeyValue) (items : List KeyValue)
    → drop i regs ≡ item ∷ items
    → (i < length regs)
      × (drop (i + 1) regs ≡ items)
      × (take (i + 1) (names regs) ≡ take i (names regs) ++ item.key ∷ [])
drop-cons zero [] item items h = cc
drop-cons zero (r ∷ regs) item items h = (omega arith, cc, cc)
drop-cons (suc i) [] item items h = cc
drop-cons (suc i) (r ∷ regs) item items h =
    let (below, rest, more) = drop-cons i regs item items h in
    let e : suc i + 1 ≡ suc (i + 1) = omega arith in
    (omega arith, rw e rest, rw e (ap (λ t. r.key ∷ t) more))

pub index-fits : (i n : ℕ) → i < n → n < index_mod → (i + 1) % index_mod ≡ i + 1
index-fits i n below small = omega arith

-- The same with the index of 16 bits, where there are fewer registers than it can count.
pub drop-next :
    (i : ℕ) (regs : List KeyValue) (item : KeyValue) (items : List KeyValue)
    → length regs < index_mod
    → drop i regs ≡ item ∷ items
    → (i < length regs)
      × (take ((i + 1) % index_mod) (names regs) ≡ take i (names regs) ++ item.key ∷ [])
      × ((i + 1) % index_mod ≡ i + 1)
drop-next i regs item items small h =
    let (below, rest, more) = drop-cons i regs item items h in
    let e = index-fits i (length regs) below small in
    (below, ap (λ k. take k (names regs)) e ∙ more, e)

pub drop-nil : (i : ℕ) (regs : List KeyValue) → drop i regs ≡ [] → length regs ≤ i
drop-nil zero [] h = omega arith
drop-nil zero (r ∷ regs) h = cc
drop-nil (suc i) [] h = omega arith
drop-nil (suc i) (r ∷ regs) h = omega (arith, drop-nil i regs h)

-- A node that was not named is left alone. One that waits was told of for the registers before its
-- index; one that is done for all of them in their order, or just of its failure, if no client was made.
abbrev pub Track : List KeyValue → Bool → Option NodeContext → List Response → Type 0
Track regs false none t = t ≡ []
Track regs false (some c) t = ⊥
Track regs true none t = (keys t ≡ names regs) ⊎ IsFailure t
Track regs true (some c) t =
    (c.reg_index < length regs)
    × (keys t ≡ take c.reg_index (names regs))
    × (c.has_promise ≡ true → c.has_client ≡ true)

module _ (asked : ℕ → Bool) (regs : List KeyValue) where
  abbrev pub Each : Map NodeContext → List Response → Type 0
  Each m sent = (n : ℕ) → Track regs (asked n) (lookup n m) (told n sent)

  -- All nodes but one.
  abbrev pub EachBut : ℕ → Map NodeContext → List Response → Type 0
  EachBut k m sent = (n : ℕ) → (k == n) ≡ false → Track regs (asked n) (lookup n m) (told n sent)

  pub EachBut-send :
      (k : ℕ) (m : Map NodeContext) (r : Response) (sent : List Response)
      → r.node_id ≡ k
      → EachBut k m sent
      → EachBut k m (r ∷ sent)
  EachBut-send k m r sent e each n ne =
      subst (Track regs (asked n) (lookup n m))
        (sym (told_other n r sent (ap (λ j. j == n) e ∙ ne))) (each n ne)

  pub EachBut-insert :
      (k : ℕ) (c : NodeContext) (m : Map NodeContext) (sent : List Response)
      → EachBut k m sent
      → EachBut k (insert k c m) sent
  EachBut-insert k c m sent each n ne =
      subst (λ o. Track regs (asked n) o (told n sent)) (sym (lookup-insert k n c m ∙ rw ne refl))
        (each n ne)

  pub EachBut-erase :
      (k : ℕ) (m : Map NodeContext) (sent : List Response)
      → EachBut k m sent
      → EachBut k (erase k m) sent
  EachBut-erase k m sent each n ne =
      subst (λ o. Track regs (asked n) o (told n sent)) (sym (lookup-erase k n m ∙ rw ne refl))
        (each n ne)

  -- The node left out comes back.
  pub Each-back :
      (k : ℕ) (m : Map NodeContext) (sent : List Response)
      → Track regs (asked k) (lookup k m) (told k sent)
      → EachBut k m sent
      → Each m sent
  Each-back k m sent own each n = elim (Bool-cases (k == n)) [
    | inl hit ↦
        subst (λ j. Track regs (asked j) (lookup j m) (told j sent)) (ground (arith, hit)) own
    | inr miss ↦ each n miss
  ]

-- Nodes that wait at their first register.
abbrev pub Fresh : Map NodeContext → List ℕ → Type 0
Fresh m = All (λ n. (c : NodeContext) × (lookup n m ≡ some c) × (c.reg_index ≡ 0))

pub Fresh-insert :
    (k : ℕ) (c : NodeContext) (m : Map NodeContext) (ns : List ℕ)
    → Others k ns
    → Fresh m ns
    → Fresh (insert k c m) ns
Fresh-insert k c m [] o h = tt
Fresh-insert k c m (n ∷ ns) o h =
    let (d, found, first) = h.0 in
    ((d, lookup-insert k n c m ∙ ground (arith, o.0, found), first), Fresh-insert k c m ns o.1 h.1)

pub Fresh-erase :
    (k : ℕ) (m : Map NodeContext) (ns : List ℕ) → Others k ns → Fresh m ns → Fresh (erase k m) ns
Fresh-erase k m [] o h = tt
Fresh-erase k m (n ∷ ns) o h =
    let (d, found, first) = h.0 in
    ((d, lookup-erase k n m ∙ ground (arith, o.0, found), first), Fresh-erase k m ns o.1 h.1)
