-- ===== src/Core/ByteBudget.antt =====
-- musefs-core/src/byte_budget.rs: the semaphore that bounds the art bytes in flight during a scan.
-- What happens under the lock is one step. A producer in `wait` is the amount that it asks for, in
-- `waiting` until it is notified, or wakes for no reason, and then in `woken` until it tests again.
pub mod Steps
use musefs.Base.{
  ℕ, zero, suc, ◌-◌, ◌≤◌, Bool, true, false, ◌||◌, leb, ◌==◌, ◌≡◌, List, [], ◌∷◌, ◌++◌,
}
use musefs.Base.Words.{u64_max, saturating_add_u64}

pub record ByteBudget : Type 0 where
  pub cap : ℕ
  pub in_flight : ℕ
  pub closed : Bool
  pub waiting : List ℕ
  pub woken : List ℕ
  -- the calls of `close` between the store of the flag, behind which the lock is free, and the
  -- notification
  pub closing : ℕ

unfoldable pub new : ℕ → ByteBudget
new cap = record { cap = cap; in_flight = 0; closed = false; waiting = []; woken = []; closing = 0 }

-- The condition under which `acquire` leaves its loop.
unfoldable pub admits : ByteBudget → ℕ → Bool
admits b n = b.closed || (b.in_flight == 0 || leb (saturating_add_u64 b.in_flight n) b.cap)

-- What `acquire` does then.
unfoldable pub acquire : ByteBudget → ℕ → ByteBudget
acquire b n = record {
  cap = b.cap;
  in_flight = saturating_add_u64 b.in_flight n;
  closed = b.closed;
  waiting = b.waiting;
  woken = b.woken;
  closing = b.closing;
}

-- What it does otherwise: `wait_recover`, which frees the lock and parks the producer.
unfoldable pub park : ByteBudget → ℕ → ByteBudget
park b n = record {
  cap = b.cap;
  in_flight = b.in_flight;
  closed = b.closed;
  waiting = n ∷ b.waiting;
  woken = b.woken;
  closing = b.closing;
}

-- Other queues: those that `wait`, and those that have woken from it.
unfoldable pub requeue : ByteBudget → List ℕ → List ℕ → ByteBudget
requeue b waiting woken = record {
  cap = b.cap;
  in_flight = b.in_flight;
  closed = b.closed;
  waiting = waiting;
  woken = woken;
  closing = b.closing;
}

-- `Condvar::notify_all`
unfoldable pub notify_all : ByteBudget → ByteBudget
unfolding requeue
notify_all b = requeue b [] (b.waiting ++ b.woken)

unfoldable pub release : ByteBudget → ℕ → ByteBudget
unfolding notify_all
release b n = notify_all (record {
  cap = b.cap;
  in_flight = b.in_flight - n;
  closed = b.closed;
  waiting = b.waiting;
  woken = b.woken;
  closing = b.closing;
})

-- The store of the flag in `close`.
unfoldable pub close : ByteBudget → ByteBudget
close b = record {
  cap = b.cap;
  in_flight = b.in_flight;
  closed = true;
  waiting = b.waiting;
  woken = b.woken;
  closing = suc b.closing;
}

-- The notification of `close`, with `left` other calls between the two.
unfoldable pub close_notify : ByteBudget → ℕ → ByteBudget
unfolding notify_all
close_notify b left = notify_all (record {
  cap = b.cap;
  in_flight = b.in_flight;
  closed = b.closed;
  waiting = b.waiting;
  woken = b.woken;
  closing = left;
})

-- A step of the threads that share the budget, with the reservations that are held: a release gives
-- back what was reserved, and an amount is a `u64`.
pub data Step : ByteBudget → List ℕ → ByteBudget → List ℕ → Type 0 where
  acquired :
      (b : ByteBudget) (held : List ℕ) (n : ℕ)
      → n ≤ u64_max
      → admits b n ≡ true
      → Step b held (acquire b n) (n ∷ held)
  parked :
      (b : ByteBudget) (held : List ℕ) (n : ℕ) → admits b n ≡ false → Step b held (park b n) held
  -- a producer that has woken goes back to the test
  woke_acquired :
      (b : ByteBudget) (held before after : List ℕ) (n : ℕ)
      → n ≤ u64_max
      → b.woken ≡ before ++ (n ∷ after)
      → admits b n ≡ true
      → Step b held (acquire (requeue b b.waiting (before ++ after)) n) (n ∷ held)
  woke_parked :
      (b : ByteBudget) (held before after : List ℕ) (n : ℕ)
      → b.woken ≡ before ++ (n ∷ after)
      → admits b n ≡ false
      → Step b held (park (requeue b b.waiting (before ++ after)) n) held
  -- a wake-up without a notification
  spurious :
      (b : ByteBudget) (held before after : List ℕ) (n : ℕ)
      → b.waiting ≡ before ++ (n ∷ after)
      → Step b held (requeue b (before ++ after) (n ∷ b.woken)) held
  released :
      (b : ByteBudget) (before after : List ℕ) (n : ℕ)
      → Step b (before ++ (n ∷ after)) (release b n) (before ++ after)
  closes : (b : ByteBudget) (held : List ℕ) → Step b held (close b) held
  close_notified :
      (b : ByteBudget) (held : List ℕ) (left : ℕ)
      → b.closing ≡ suc left
      → Step b held (close_notify b left) held

-- The states that a new budget gets to.
pub data Reaches (cap : ℕ) : ByteBudget → List ℕ → Type 0 where
  started : Reaches cap (new cap) []
  stepped :
      (b c : ByteBudget) (held later : List ℕ)
      → Reaches cap b held
      → Step b held c later
      → Reaches cap c later
