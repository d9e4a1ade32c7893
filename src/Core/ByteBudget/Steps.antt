-- ===== src/Core/ByteBudget/Steps.antt =====
-- What the steps of the byte budget keep.
use musefs.Base.{
  ℕ, ◌+◌, ◌≤◌, ◌<◌, max, ◌≡◌, refl, ap, ◌∙◌, ◌⊎◌, subst, All, inl, inr, Bool-cases, true, false,
  List, [], ◌∷◌, ◌++◌, arith,
}
use musefs.Base.Words.{saturating_add_u64, u64_max}
use musefs.Core.ByteBudget.{
  ByteBudget, new, admits, acquire, release, close, Step, park, requeue, notify_all, close_notify,
  acquired, parked, woke_acquired, woke_parked, spurious, released, closes, close_notified, Reaches,
  started, stepped,
}

abbrev pub sum : List ℕ → ℕ
sum [] = 0
sum (n ∷ ns) = n + sum ns

abbrev pub maximum : List ℕ → ℕ
maximum [] = 0
maximum (n ∷ ns) = max n (maximum ns)

sum-remove : (xs ys : List ℕ) (n : ℕ) → sum (xs ++ (n ∷ ys)) ≡ n + sum (xs ++ ys)
sum-remove [] ys n = refl
sum-remove (x ∷ xs) ys n = omega (arith, sum-remove xs ys n)

maximum-remove : (xs ys : List ℕ) (n : ℕ) → maximum (xs ++ (n ∷ ys)) ≡ max n (maximum (xs ++ ys))
maximum-remove [] ys n = refl
maximum-remove (x ∷ xs) ys n = omega (arith, maximum-remove xs ys n)

-- While the budget is not closed, it counts what is held, which is within the cap or one reservation's.
abbrev IsCounted : ℕ → ByteBudget → List ℕ → Type 0
IsCounted cap b held =
    (b.cap ≡ cap)
    × (b.closed ≡ false → (b.in_flight ≡ sum held) × (b.in_flight ≤ max cap (maximum held)))

acquire-counted :
    (cap : ℕ) (b : ByteBudget) (held : List ℕ) (n : ℕ)
    → cap < u64_max
    → n ≤ u64_max
    → admits b n ≡ true
    → b.cap ≡ cap
    → b.in_flight ≡ sum held
    → b.closed ≡ false
    → (saturating_add_u64 b.in_flight n ≡ n + sum held)
      × (saturating_add_u64 b.in_flight n ≤ max cap (max n (maximum held)))
unfolding admits
acquire-counted cap b held n small word free same counts going = ground arith

Step-IsCounted :
    (cap : ℕ) (b c : ByteBudget) (held later : List ℕ)
    → cap < u64_max
    → Step b held c later
    → IsCounted cap b held
    → IsCounted cap c later
unfolding admits acquire release close park requeue notify_all close_notify
Step-IsCounted cap b c held later small (acquired _ _ n word free) (same, counted) =
    (same, λ going. acquire-counted cap b held n small word free same (counted going).0 going)
Step-IsCounted cap b c held later small (parked _ _ n refused) known = known
Step-IsCounted cap b c held later small (woke_acquired _ _ before after n word was free)
      (same, counted) =
    (same, λ going. acquire-counted cap b held n small word free same (counted going).0 going)
Step-IsCounted cap b c held later small (woke_parked _ _ before after n was refused) known = known
Step-IsCounted cap b c held later small (spurious _ _ before after n was) known = known
Step-IsCounted cap b c held later small (close_notified _ _ left was) known = known
Step-IsCounted cap b c held later small (released _ xs ys n) (same, counted) = (
  same,
  λ going.
      let (counts, bound) = counted going in
      let total = sum-remove xs ys n in
      let largest = maximum-remove xs ys n in (omega arith, omega arith),
)
Step-IsCounted cap b c held later small (closes _ _) (same, counted) = (same, λ h. cc)

Reaches-IsCounted :
    (cap : ℕ) (b : ByteBudget) (held : List ℕ)
    → cap < u64_max
    → Reaches cap b held
    → IsCounted cap b held
unfolding new
Reaches-IsCounted cap b held small started = (refl, λ h. (refl, omega arith))
Reaches-IsCounted cap c later small (stepped b _ held _ before step) =
    Step-IsCounted cap b c held later small step (Reaches-IsCounted cap b held small before)

-- In every state that a new budget gets to and that is not closed, the bytes in flight are those of
-- the reservations held, and at most the cap or the largest one held, for a cap below the largest
-- `u64`.
pub in_flight-bound :
    (cap : ℕ) (b : ByteBudget) (held : List ℕ)
    → cap < u64_max
    → Reaches cap b held
    → b.closed ≡ false
    → (b.in_flight ≡ sum held) × (b.in_flight ≤ max cap (maximum held))
in_flight-bound cap b held small before going = (Reaches-IsCounted cap b held small before).1 going

admits-when_idle :
    (cap : ℕ) (b : ByteBudget) (held : List ℕ) (n : ℕ)
    → cap < u64_max
    → Reaches cap b held
    → (held ≡ []) ⊎ (b.closed ≡ true)
    → admits b n ≡ true
unfolding admits
admits-when_idle cap b held n small before (inr over) = rw over refl
admits-when_idle cap b held n small before (inl none_held) =
    let counts = (Reaches-IsCounted cap b held small before).1 in
    elim (Bool-cases b.closed) [
      | inl over ↦ rw over refl
      | inr going ↦
          let none_counted : b.in_flight ≡ 0 = (counts going).0 ∙ ap sum none_held in
          rw (going, none_counted) refl
    ]

-- Where no call of `close` is under way, the parked producers are refused ones.
abbrev AreRefused : ByteBudget → Type 0
AreRefused b = b.closing ≡ 0 → All (λ n. admits b n ≡ false) b.waiting

refused-acquire :
    (b : ByteBudget) (n : ℕ) (ns : List ℕ)
    → All (λ m. admits b m ≡ false) ns
    → All (λ m. admits (acquire b n) m ≡ false) ns
unfolding admits acquire
refused-acquire b n [] h = tt
refused-acquire b n (m ∷ ns) (now, h) = (ground arith, refused-acquire b n ns h)

All-remove :
    (P : ℕ → Type 0) (before after : List ℕ) (n : ℕ)
    → All P (before ++ (n ∷ after))
    → All P (before ++ after)
All-remove P [] after n h = h.1
All-remove P (m ∷ before) after n h = (h.0, All-remove P before after n h.1)

Step-AreRefused :
    (b c : ByteBudget) (held later : List ℕ) → Step b held c later → AreRefused b → AreRefused c
unfolding admits acquire release close park requeue notify_all close_notify
Step-AreRefused b c held later (acquired _ _ n word free) known =
    λ done. refused-acquire b n b.waiting (known done)
Step-AreRefused b c held later (parked _ _ n refused) known = λ done. (refused, known done)
Step-AreRefused b c held later (woke_acquired _ _ before after n word was free) known =
    λ done. refused-acquire b n b.waiting (known done)
Step-AreRefused b c held later (woke_parked _ _ before after n was refused) known =
    λ done. (refused, known done)
Step-AreRefused b c held later (spurious _ _ before after n was) known = λ done.
    All-remove (λ m. admits b m ≡ false) before after n
      (subst (All (λ m. admits b m ≡ false)) was (known done))
Step-AreRefused b c held later (released _ xs ys n) known = λ done. tt
Step-AreRefused b c held later (closes _ _) known = λ done. absurd (omega arith)
Step-AreRefused b c held later (close_notified _ _ left was) known = λ done. tt

Reaches-AreRefused : (cap : ℕ) (b : ByteBudget) (held : List ℕ) → Reaches cap b held → AreRefused b
unfolding new
Reaches-AreRefused cap b held started = λ done. tt
Reaches-AreRefused cap c later (stepped b _ held _ before step) =
    Step-AreRefused b c held later step (Reaches-AreRefused cap b held before)

-- No notification is missed: in every state that a new budget gets to in which no call of `close` is
-- between its store and its notification, the budget refuses every amount that a parked producer
-- asks for.
pub waiting-refused :
    (cap : ℕ) (b : ByteBudget) (held : List ℕ)
    → Reaches cap b held
    → b.closing ≡ 0
    → All (λ n. admits b n ≡ false) b.waiting
waiting-refused cap b held before done = Reaches-AreRefused cap b held before done

-- No producer stays parked when nothing is held or the budget is closed: in every such state that a
-- new budget gets to in which no call of `close` is between its store and its notification, no
-- producer is parked and one that has woken is admitted, whatever it asks for, for a cap below the
-- largest `u64`.
pub waiting-when_idle :
    (cap : ℕ) (b : ByteBudget) (held : List ℕ) (n : ℕ)
    → cap < u64_max
    → Reaches cap b held
    → b.closing ≡ 0
    → (held ≡ []) ⊎ (b.closed ≡ true)
    → (b.waiting ≡ []) × (admits b n ≡ true)
waiting-when_idle cap b held n small before done idle =
    let none_refused = λ (m : ℕ). admits-when_idle cap b held m small before idle in
    (none_parked b.waiting none_refused (waiting-refused cap b held before done), none_refused n)
  where
    none_parked :
        (ns : List ℕ) → ((m : ℕ) → admits b m ≡ true) → All (λ m. admits b m ≡ false) ns → ns ≡ []
    none_parked [] free refused = refl
    none_parked (m ∷ ns) free (refused, more) = cc (free m, refused)
