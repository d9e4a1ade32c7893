-- ===== src/Core/Readahead.antt =====
-- musefs-core/src/readahead.rs: the adaptive read-ahead window of one file handle. The pread that
-- fills a window is a parameter; a read returns its outcome beside the state that it leaves.
pub mod Accounting
pub mod Coherence
use musefs.Base.{
  ℕ, zero, suc, ◌+◌, ◌-◌, ◌*◌, ◌≤◌, ◌≡◌, refl, ◌⊎◌, inl, inr, Bool, true, false, ◌&&◌, ◌||◌, Option,
  none, some, List, [], ◌∷◌, min, max, length, get_elem?, take, ltb, leb, ◌==◌, if◌then◌else◌,
}
use musefs.Base.Slices.{slice}
use musefs.Base.Words.{Bytes, u64_max, saturating_add_u64}
use musefs.Base.Results.{Result, ok, err}

abbrev pub window_floor : ℕ
window_floor = 512 * 1024

-- The kinds of `io::Error` that matter here.
pub data IoError : Type 0 where
  unexpected_eof other : IoError

pub record Window : Type 0 where
  pub start : ℕ
  pub bytes : Bytes

abbrev pub window_end : Window → ℕ
window_end w = w.start + length w.bytes

pub record ReadAhead : Type 0 where
  pub windows : List Window
  pub cached_bytes : ℕ
  pub next_expected : ℕ
  pub window : ℕ
  pub cap : ℕ
  pub max_windows : ℕ

abbrev pub new : ℕ → ReadAhead
new cap = record {
  windows = [];
  cached_bytes = 0;
  next_expected = u64_max;
  window = window_floor;
  cap = cap;
  max_windows = 1;
}

unfoldable pub set_max_windows : ReadAhead → ℕ → ReadAhead
set_max_windows ra n = record ra { max_windows = max n 1 }

unfoldable pub clear : ReadAhead → ReadAhead × ℕ
clear ra = (
  record ra {
    windows = [];
    cached_bytes = 0;
    window = min window_floor ra.cap;
    next_expected = u64_max;
  },
  ra.cached_bytes,
)

unfoldable pub set_cap : ReadAhead → ℕ → ReadAhead
set_cap ra cap = record ra { cap = cap; window = if ltb cap ra.window then cap else ra.window }

abbrev pub holds : ℕ → ℕ → Window → Bool
holds off end w = leb w.start off && leb end (window_end w)

unfoldable pub find_holding : ℕ → ℕ → List Window → Option Window
find_holding off end [] = none
find_holding off end (w ∷ ws) =
    let rest = find_holding off end ws in if holds off end w then some w else rest

unfoldable pub window_containing : ReadAhead → ℕ → ℕ → Option Window
unfolding find_holding
window_containing ra off len = find_holding off (saturating_add_u64 off len) ra.windows

unfoldable pub covers : ReadAhead → ℕ → ℕ → Bool
unfolding window_containing
covers ra off len = elim (window_containing ra off len) [ none ↦ false | some w ↦ true ]

-- `binary_search_by_key` on a list sorted by `start`: where the key stands, or belongs.
pub data Search : Type 0 where
  found missing : ℕ → Search

abbrev shift : Search → Search
shift (found i) = found (suc i)
shift (missing i) = missing (suc i)

unfoldable pub binary_search : ℕ → List Window → Search
binary_search start [] = missing 0
binary_search start (w ∷ ws) =
    let rest = shift (binary_search start ws) in
    if w.start == start then found 0 else if ltb start w.start then missing 0 else rest

pub Search-cases : (s : Search) → ((i : ℕ) × (s ≡ found i)) ⊎ ((i : ℕ) × (s ≡ missing i))
Search-cases (found i) = inl (i, refl)
Search-cases (missing i) = inr (i, refl)

unfoldable pub replace_at : List Window → ℕ → Window → List Window
replace_at [] i v = []
replace_at (w ∷ ws) zero v = v ∷ ws
replace_at (w ∷ ws) (suc i) v = w ∷ replace_at ws i v

unfoldable pub insert_at : List Window → ℕ → Window → List Window
insert_at ws zero v = v ∷ ws
insert_at [] (suc i) v = v ∷ []
insert_at (w ∷ ws) (suc i) v = w ∷ insert_at ws i v

unfoldable pub remove_at : List Window → ℕ → List Window
remove_at [] i = []
remove_at (w ∷ ws) zero = ws
remove_at (w ∷ ws) (suc i) = w ∷ remove_at ws i

-- `self.windows[i].bytes.len()`
unfoldable pub bytes_at : List Window → ℕ → ℕ
bytes_at [] i = 0
bytes_at (w ∷ ws) zero = length w.bytes
bytes_at (w ∷ ws) (suc i) = bytes_at ws i

unfoldable pub position : (Window → Bool) → List Window → Option ℕ
position p [] = none
position p (w ∷ ws) =
    let rest : Option ℕ = elim (position p ws) [ none ↦ none | some i ↦ some (suc i) ] in
    if p w then some 0 else rest

unfoldable pub rposition : (Window → Bool) → List Window → Option ℕ
rposition p [] = none
rposition p (w ∷ ws) = elim (rposition p ws) [
  | some i ↦ some (suc i)
  | none ↦ if p w then some 0 else none
]

-- The index of the first least end, beside that end.
unfoldable pub min_end : Window → List Window → ℕ × ℕ
min_end w [] = (0, window_end w)
min_end w (v ∷ vs) =
    let (i, e) = min_end v vs in if ltb e (window_end w) then (suc i, e) else (0, window_end w)

unfoldable pub shortest_reach : List Window → ℕ
unfolding min_end
shortest_reach [] = 0
shortest_reach (w ∷ ws) = (min_end w ws).0

-- An early `return i` on a found index.
abbrev pub return_or : Option ℕ → ℕ → ℕ
return_or (some i) rest = i
return_or none rest = rest

unfoldable pub evict_victim : ReadAhead → ℕ
unfolding position rposition shortest_reach
evict_victim ra = return_or (position (λ w. leb (window_end w) ra.next_expected) ra.windows) (
    return_or (rposition (λ w. ltb ra.next_expected w.start) ra.windows)
      (shortest_reach ra.windows))

unfoldable pub evict_one : ReadAhead → ReadAhead
unfolding evict_victim bytes_at remove_at
evict_one ra =
    let idx = evict_victim ra in
    record ra {
      cached_bytes = ra.cached_bytes - bytes_at ra.windows idx;
      windows = remove_at ra.windows idx;
    }

-- `while self.windows.len() > self.max_windows`: every round removes a window, so as many rounds as
-- there are windows are enough.
unfoldable pub trim : ℕ → ReadAhead → ReadAhead
unfolding evict_one
trim zero ra = ra
trim (suc fuel) ra =
    let rest = trim fuel (evict_one ra) in
    if ltb ra.max_windows (length ra.windows) then rest else ra

unfoldable pub place : Search → ReadAhead → Window → ReadAhead
unfolding bytes_at replace_at insert_at
place (found i) ra w = record ra {
  cached_bytes = ra.cached_bytes - bytes_at ra.windows i + length w.bytes;
  windows = replace_at ra.windows i w;
}
place (missing i) ra w = record ra {
  cached_bytes = ra.cached_bytes + length w.bytes;
  windows = insert_at ra.windows i w;
}

unfoldable pub insert_window : ReadAhead → Window → ReadAhead
unfolding place binary_search trim
insert_window ra w =
    let placed = place (binary_search w.start ra.windows) ra w in
    trim (length placed.windows) placed

unfoldable pub store_window : ReadAhead → ℕ → Bytes → ReadAhead × ℕ × ℕ
unfolding insert_window
store_window ra start bytes =
    let ra' = insert_window ra (record { start = start; bytes = bytes }) in
    (ra', ra.cached_bytes, ra'.cached_bytes)

-- The adaptive size: doubled on a sequential miss, back to the floor on a seek.
unfoldable pub resize_window : ReadAhead → ℕ → ReadAhead
resize_window ra off = record ra {
  window =
      if off == ra.next_expected
      then min (min (ra.window * 2) u64_max) ra.cap
      else min window_floor ra.cap;
}

-- The bytes read and the total before and after; the last part is the state left behind.
abbrev pub Outcome : Type 0
Outcome = Result IoError (Bytes × ℕ × ℕ) × ReadAhead

unfoldable pub store_fill : ReadAhead → ℕ → ℕ → ℕ → Result IoError Bytes → Outcome
unfolding insert_window
store_fill ra old off len (err e) = (err e, ra)
store_fill ra old off len (ok buf) =
    let ra' =
      insert_window (record ra { next_expected = off + len })
        (record { start = off; bytes = buf }) in
    (ok (take len buf, old, ra'.cached_bytes), ra')

-- `fill n off` is the pread of `n` bytes at `off`.
unfoldable pub read_miss : ReadAhead → ℕ → ℕ → ℕ → (ℕ → ℕ → Result IoError Bytes) → Outcome
unfolding resize_window store_fill
read_miss ra off len backing_len fill =
    let sized = resize_window ra off in
    if leb backing_len off || ltb backing_len (saturating_add_u64 off len)
    then (err unexpected_eof, sized)
    else (let want = min (min (max sized.window len) (max sized.cap len)) (backing_len - off) in
        store_fill sized ra.cached_bytes off len (fill want off))

unfoldable pub read_into : ReadAhead → ℕ → ℕ → ℕ → (ℕ → ℕ → Result IoError Bytes) → Outcome
unfolding window_containing read_miss
read_into ra off len backing_len fill =
    if len == 0
    then (ok ([], ra.cached_bytes, ra.cached_bytes), ra)
    else (elim (window_containing ra off len) [
      | some w ↦ (
        ok (slice w.bytes (off - w.start) len, ra.cached_bytes, ra.cached_bytes),
        record ra { next_expected = off + len },
      )
      | none ↦ read_miss ra off len backing_len fill
    ])
