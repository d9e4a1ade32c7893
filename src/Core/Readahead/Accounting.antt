-- ===== src/Core/Readahead/Accounting.antt =====
-- `cached_bytes` is the sum of the windows' lengths, and the ring keeps to its size.
use musefs.Base.{
  ℕ, zero, suc, ◌+◌, ◌≤◌, ◌<◌, ◌≡◌, refl, ap, inl, inr, Bool, Bool-cases, Option, none, some,
  Option-cases, List, [], ◌∷◌, length, ltb, leb, ◌==◌, ◌||◌, ltb→lt, ltb_false→le, arith,
}
use musefs.Base.Words.{Bytes, saturating_add_u64}
use musefs.Base.Results.{Result, ok, err}
use musefs.Core.Readahead.{
  IoError, return_or, Window, ReadAhead, Search, found, missing, Search-cases, binary_search,
  replace_at, insert_at, remove_at, bytes_at, position, rposition, min_end, shortest_reach,
  evict_victim, evict_one, trim, place, insert_window, store_fill, read_miss, resize_window,
  read_into, window_containing,
}

abbrev pub bytes_total : List Window → ℕ
bytes_total [] = 0
bytes_total (w ∷ ws) = length w.bytes + bytes_total ws

pub record IsAccounted (ra : ReadAhead) : Type 0 where
  pub sums : ra.cached_bytes ≡ bytes_total ra.windows

bytes_total-replace_at :
    (ws : List Window) (i : ℕ) (v : Window)
    → i < length ws
    → bytes_total (replace_at ws i v) + bytes_at ws i ≡ bytes_total ws + length v.bytes
unfolding replace_at bytes_at
bytes_total-replace_at [] i v h = absurd (omega arith)
bytes_total-replace_at (w ∷ ws) zero v h = omega arith
bytes_total-replace_at (w ∷ ws) (suc i) v h = omega (arith, bytes_total-replace_at ws i v)

bytes_total-insert_at :
    (ws : List Window) (i : ℕ) (v : Window)
    → bytes_total (insert_at ws i v) ≡ bytes_total ws + length v.bytes
unfolding insert_at
bytes_total-insert_at ws zero v = omega arith
bytes_total-insert_at [] (suc i) v = omega arith
bytes_total-insert_at (w ∷ ws) (suc i) v = omega (arith, bytes_total-insert_at ws i v)

bytes_total-remove_at :
    (ws : List Window) (i : ℕ) → bytes_total (remove_at ws i) + bytes_at ws i ≡ bytes_total ws
unfolding remove_at bytes_at
bytes_total-remove_at [] i = omega arith
bytes_total-remove_at (w ∷ ws) zero = omega arith
bytes_total-remove_at (w ∷ ws) (suc i) = omega (arith, bytes_total-remove_at ws i)

length-remove_at :
    (ws : List Window) (i : ℕ) → i < length ws → length (remove_at ws i) + 1 ≡ length ws
unfolding remove_at
length-remove_at [] i h = absurd (omega arith)
length-remove_at (w ∷ ws) zero h = omega arith
length-remove_at (w ∷ ws) (suc i) h = omega (arith, length-remove_at ws i)

binary_search-lt :
    (start i : ℕ) (ws : List Window) → binary_search start ws ≡ found i → i < length ws
unfolding binary_search
binary_search-lt start i [] h = cc
binary_search-lt start zero (w ∷ ws) h = omega arith
binary_search-lt start (suc i) (w ∷ ws) h = elim (Search-cases (binary_search start ws)) [
  | inl (j, e) ↦ ground (arith, binary_search-lt start j ws)
  | inr (j, e) ↦ ground arith
]

position-lt :
    (p : Window → Bool) (ws : List Window) (i : ℕ) → position p ws ≡ some i → i < length ws
unfolding position
position-lt p [] i h = cc
position-lt p (w ∷ ws) i h = elim (Option-cases (position p ws)) [
  | inl e ↦ ground arith
  | inr (j, e) ↦ ground (arith, position-lt p ws j e)
]

rposition-lt :
    (p : Window → Bool) (ws : List Window) (i : ℕ) → rposition p ws ≡ some i → i < length ws
unfolding rposition
rposition-lt p [] i h = cc
rposition-lt p (w ∷ ws) i h = elim (Option-cases (rposition p ws)) [
  | inl e ↦ ground arith
  | inr (j, e) ↦ ground (arith, rposition-lt p ws j e)
]

min_end-lt : (w : Window) (ws : List Window) → (min_end w ws).0 ≤ length ws
unfolding min_end
min_end-lt w [] = omega arith
min_end-lt w (v ∷ vs) = ground (arith, min_end-lt v vs)

shortest_reach-lt : (ws : List Window) → 0 < length ws → shortest_reach ws < length ws
unfolding shortest_reach
shortest_reach-lt [] h = h
shortest_reach-lt (w ∷ ws) h = omega (arith, min_end-lt w ws)

return_or-lt :
    (o : Option ℕ) (rest n : ℕ) → ((i : ℕ) → o ≡ some i → i < n) → rest < n → return_or o rest < n
return_or-lt none rest n h k = k
return_or-lt (some i) rest n h k = h i refl

evict_victim-lt : (ra : ReadAhead) → 0 < length ra.windows → evict_victim ra < length ra.windows
unfolding evict_victim
evict_victim-lt ra h =
    return_or-lt _ _ _ (position-lt _ ra.windows)
      (return_or-lt _ _ _ (rposition-lt _ ra.windows) (shortest_reach-lt ra.windows h))

evict_one-IsAccounted : (ra : ReadAhead) → IsAccounted ra → IsAccounted (evict_one ra)
unfolding evict_one
evict_one-IsAccounted ra h = record {
  sums = omega (arith, h.sums, bytes_total-remove_at ra.windows (evict_victim ra));
}

length-evict_one :
    (ra : ReadAhead) → 0 < length ra.windows → length (evict_one ra).windows + 1 ≡ length ra.windows
unfolding evict_one
length-evict_one ra h = length-remove_at ra.windows (evict_victim ra) (evict_victim-lt ra h)

evict_one_keeps :
    (ra : ReadAhead)
    → ((evict_one ra).max_windows ≡ ra.max_windows)
      × ((evict_one ra).next_expected ≡ ra.next_expected)
unfolding evict_one
evict_one_keeps ra = (refl, refl)

trim-IsAccounted : (fuel : ℕ) (ra : ReadAhead) → IsAccounted ra → IsAccounted (trim fuel ra)
unfolding trim
trim-IsAccounted zero ra h = h
trim-IsAccounted (suc fuel) ra h = elim (Bool-cases (ltb ra.max_windows (length ra.windows))) [
  | inl more ↦ rw more (trim-IsAccounted fuel (evict_one ra) (evict_one-IsAccounted ra h))
  | inr done ↦ rw done h
]

-- Enough fuel: the loop ends by its test.
trim-fits :
    (fuel : ℕ) (ra : ReadAhead)
    → length ra.windows ≤ ra.max_windows + fuel
    → length (trim fuel ra).windows ≤ ra.max_windows
unfolding trim
trim-fits zero ra h = omega arith
trim-fits (suc fuel) ra h = elim (Bool-cases (ltb ra.max_windows (length ra.windows))) [
  | inl more ↦ rw more (
      omega (
        arith,
        trim-fits fuel (evict_one ra) (
            omega
              (arith, length-evict_one ra (omega (arith, ltb→lt _ _ more)), evict_one_keeps ra)),
        evict_one_keeps ra,
      ))
  | inr done ↦ rw done (ltb_false→le _ _ done)
]

bytes_at-le : (ws : List Window) (i : ℕ) → bytes_at ws i ≤ bytes_total ws
bytes_at-le ws i = omega (arith, bytes_total-remove_at ws i)

place-IsAccounted :
    (s : Search) (ra : ReadAhead) (w : Window)
    → binary_search w.start ra.windows ≡ s
    → IsAccounted ra
    → IsAccounted (place s ra w)
unfolding place
place-IsAccounted (found i) ra w e h = record {
  sums = omega (
    arith,
    h.sums,
    bytes_at-le ra.windows i,
    bytes_total-replace_at ra.windows i w (binary_search-lt w.start i ra.windows e),
  );
}
place-IsAccounted (missing i) ra w e h = record {
  sums = omega (arith, h.sums, bytes_total-insert_at ra.windows i w);
}

pub insert_window-IsAccounted :
    (ra : ReadAhead) (w : Window) → IsAccounted ra → IsAccounted (insert_window ra w)
unfolding insert_window
insert_window-IsAccounted ra w h =
    trim-IsAccounted _ _ (place-IsAccounted (binary_search w.start ra.windows) ra w refl h)

place_keeps :
    (s : Search) (ra : ReadAhead) (w : Window) → (place s ra w).max_windows ≡ ra.max_windows
unfolding place
place_keeps (found i) ra w = refl
place_keeps (missing i) ra w = refl

-- After a window is stored the ring holds at most `max_windows` windows: the eviction loop ends by
-- its test, with a victim inside the ring in every round.
pub length-insert_window :
    (ra : ReadAhead) (w : Window) → length (insert_window ra w).windows ≤ ra.max_windows
unfolding insert_window
length-insert_window ra w =
    let placed : ReadAhead = place (binary_search w.start ra.windows) ra w in
    let e : placed.max_windows ≡ ra.max_windows = place_keeps _ ra w in
    omega (arith, trim-fits (length placed.windows) placed (omega arith))

-- What an outcome of a read says of the totals, whether it succeeds or fails.
pub record Reports (ra : ReadAhead) (r : Result IoError (Bytes × ℕ × ℕ) × ReadAhead) : Type 0 where
  pub accounted : IsAccounted r.1
  pub totals :
      (bs : Bytes) (old after : ℕ)
      → r.0 ≡ ok (bs, old, after)
      → (old ≡ bytes_total ra.windows) × (after ≡ bytes_total r.1.windows)
  pub failed : (e : IoError) → r.0 ≡ err e → r.1.windows ≡ ra.windows

store_fill-Reports :
    (base ra : ReadAhead) (off len : ℕ) (r : Result IoError Bytes)
    → IsAccounted ra
    → ra.windows ≡ base.windows
    → ra.cached_bytes ≡ base.cached_bytes
    → Reports base (store_fill ra base.cached_bytes off len r)
unfolding store_fill
store_fill-Reports base ra off len (err e) h same count = record {
  accounted = h;
  totals = λ bs old after p. cc;
  failed = λ x p. same;
}
store_fill-Reports base ra off len (ok buf) h same count =
    let moved : ReadAhead = record ra { next_expected = off + len } in
    let stored : IsAccounted (insert_window moved (record { start = off; bytes = buf })) =
      insert_window-IsAccounted moved _ (record { sums = h.sums }) in
    record {
      accounted = stored;
      totals = λ bs old after p. ground (arith, stored.sums, h.sums, count, ap bytes_total same);
      failed = λ x p. cc;
    }

read_miss-Reports :
    (ra : ReadAhead) (off len backing_len : ℕ) (fill : ℕ → ℕ → Result IoError Bytes)
    → IsAccounted ra
    → Reports ra (read_miss ra off len backing_len fill)
unfolding read_miss resize_window
read_miss-Reports ra off len backing_len fill h =
    elim (Bool-cases (leb backing_len off || ltb backing_len (saturating_add_u64 off len))) [
      | inl past ↦ rw past (record {
        accounted = record { sums = h.sums };
        totals = λ bs old after p. cc;
        failed = λ e p. refl;
      })
      | inr inside ↦ rw inside (
          store_fill-Reports ra (resize_window ra off) off len _ (record { sums = h.sums }) refl
            refl)
    ]

-- A read keeps the account of cached bytes exact, reports the totals before and after it, and on an
-- error leaves the cached windows as they were. This holds of every read, hit or miss, and of every
-- outcome of the pread.
pub read_into-Reports :
    (ra : ReadAhead) (off len backing_len : ℕ) (fill : ℕ → ℕ → Result IoError Bytes)
    → IsAccounted ra
    → Reports ra (read_into ra off len backing_len fill)
unfolding read_into
read_into-Reports ra off len backing_len fill h = elim (Bool-cases (len == 0)) [
  | inl none_asked ↦ rw none_asked (record {
    accounted = h;
    totals = λ bs old after p. ground (arith, h.sums);
    failed = λ e p. cc;
  })
  | inr some_asked ↦ rw some_asked (elim (Option-cases (window_containing ra off len)) [
    | inl miss ↦ rw (miss, read_into) (read_miss-Reports ra off len backing_len fill h)
    | inr (w, hit) ↦ rw hit (record {
      accounted = record { sums = h.sums };
      totals = λ bs old after p. ground (arith, h.sums);
      failed = λ e p. cc;
    })
  ])
]
