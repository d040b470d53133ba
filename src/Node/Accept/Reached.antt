-- ===== src/Node/Accept/Reached.antt =====
-- What the pool of connections comes to (src/node/server.rs).
use dsearch.Base.{ℕ, zero, suc, ◌+◌, ◌<◌, ◌≤◌, ◌≡◌, refl, arith}
use dsearch.Node.Accept.{
  Pool, empty_pool, spawn_task, begin_handshake, Step, accepts, begins, succeeds, fails, panics,
  hangs_up, Steps, none_yet, after,
}

Step-count :
    (m : ℕ) (p q : Pool)
    → Step m p q
    → p.active_connections ≡ p.shaking + p.panicked
    → q.active_connections ≡ q.shaking + q.panicked
Step-count m p _ (accepts _ free) h = h
Step-count m p _ (begins _ n e) h = omega arith
Step-count m p _ (succeeds _ n e) h = omega arith
Step-count m p _ (fails _ n e) h = omega arith
Step-count m p _ (panics _ n e) h = omega arith
Step-count m p _ (hangs_up _ n e) h = h

Steps-count :
    (m : ℕ) (p q : Pool)
    → Steps m p q
    → p.active_connections ≡ p.shaking + p.panicked
    → q.active_connections ≡ q.shaking + q.panicked
Steps-count m p _ none_yet h = h
Steps-count m p r (after q _ steps step) h = Step-count m q r step (Steps-count m p q steps h)

-- In every state that the pool comes to from the start, the count is the number of handshakes under
-- way and of those that have panicked; the connections whose messages are handled are not in it.
pub active_connections_lem :
    (m : ℕ) (p : Pool) → Steps m empty_pool p → p.active_connections ≡ p.shaking + p.panicked
active_connections_lem m p steps = Steps-count m empty_pool p steps refl

abbrev pub talking_pool : ℕ → Pool
talking_pool n = record empty_pool { talking = n }

-- With any cap from 1 on, every number of connections whose messages are handled is reached with
-- the count at 0.
pub talking_unbounded : (m n : ℕ) → 0 < m → Steps m empty_pool (talking_pool n)
talking_unbounded m zero some_room = none_yet
talking_unbounded m (suc n) some_room =
    let p = talking_pool n in
    let q = spawn_task p in
    let r = begin_handshake 0 q in
    after r (talking_pool (suc n))
      (after q r (after p q (talking_unbounded m n some_room) (accepts p some_room))
        (begins q 0 refl))
      (succeeds r 0 refl)

Step-panicked : (m : ℕ) (p q : Pool) → Step m p q → p.panicked ≤ q.panicked
Step-panicked m p _ (accepts _ free) = omega arith
Step-panicked m p _ (begins _ n e) = omega arith
Step-panicked m p _ (succeeds _ n e) = omega arith
Step-panicked m p _ (fails _ n e) = omega arith
Step-panicked m p _ (panics _ n e) = omega arith
Step-panicked m p _ (hangs_up _ n e) = omega arith

Steps-panicked : (m : ℕ) (p q : Pool) → Steps m p q → p.panicked ≤ q.panicked
Steps-panicked m p _ none_yet = omega arith
Steps-panicked m p r (after q _ steps step) =
    omega (arith, Steps-panicked m p q steps, Step-panicked m q r step)

-- Once as many handshakes have panicked as the cap allows connections, the count stays at the cap
-- or above whatever happens after it, and no connection is accepted any more.
pub panicked_exhausts :
    (m : ℕ) (p q : Pool)
    → Steps m empty_pool p
    → m ≤ p.panicked
    → Steps m p q
    → m ≤ q.active_connections
panicked_exhausts m p q reached full steps = omega (
  arith,
  Steps-count m p q steps (active_connections_lem m p reached),
  Steps-panicked m p q steps,
)
