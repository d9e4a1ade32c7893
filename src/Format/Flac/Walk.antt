-- ===== src/Format/Flac/Walk.antt =====
-- The steps of the block walker, and that a walk ends on the fuel that its readers give it.
use musefs.Base.{
  ℕ, zero, suc, ◌+◌, ◌≤◌, ◌<◌, ◌≡◌, refl, ap, ◌⊎◌, inl, inr, true, false, Bool-cases, not, Option,
  none, some, [], length, bit_and, ltb, ltb→lt, ltb_false→le, ◌==◌, arith,
}
use musefs.Base.Compare.{◌==bytes◌}
use musefs.Base.Slices.{slice}
use musefs.Base.Words.{Bytes}
use musefs.Base.Results.{ok, err, Result-cases, ok-inj}
use musefs.Format.Bytes.{byte}
use musefs.Format.Error.{FormatResult, Extent, complete, complete-inj, need_more}
use musefs.Format.Flac.{
  flac_marker, BlockHead, FlacMeta, BlockStep, ready, truncated, need_header, BlockWalker, Flow,
  continue_with, return_with, u24_be, next_block, each_block, new_bounded, new,
}
use musefs.Format.Flac.Readers.{
  fuel_for, read_metadata, parse_blocks, read_metadata_bounded, parse_step, bounded_step,
  after_loop,
}
use musefs.Format.Id3v2.{leading_tags_len}

module _ (w : BlockWalker) where
  -- The header at the walker's position, and the walkers behind the block and at the end.
  abbrev pub head_at : BlockHead
  head_at = record {
    index = w.index;
    block_type = bit_and (byte w.bytes w.pos) 0x7f;
    len = u24_be (byte w.bytes (w.pos + 1)) (byte w.bytes (w.pos + 2)) (byte w.bytes (w.pos + 3));
  }

  abbrev pub moved : BlockWalker
  moved = record {
    bytes = w.bytes;
    pos = w.pos + 4 + head_at.len;
    index = suc w.index;
    done = not (bit_and (byte w.bytes w.pos) 0x80 == 0);
  }

  abbrev pub stopped : BlockWalker
  stopped = record { bytes = w.bytes; pos = w.pos; index = w.index; done = true }

  abbrev pub Ended : Type 0
  Ended = (next_block w ≡ none) × (w.done ≡ true)

  abbrev pub Short : Type 0
  Short =
      (next_block w ≡ some (need_header (w.pos + 4), stopped))
      × (w.done ≡ false)
      × (length w.bytes < w.pos + 4)

  abbrev pub Cut : Type 0
  Cut =
      (next_block w ≡ some (truncated head_at (w.pos + 4 + head_at.len), stopped))
      × (w.done ≡ false)
      × (length w.bytes < w.pos + 4 + head_at.len)

  abbrev pub Whole : Type 0
  Whole =
      (next_block w ≡ some (ready head_at (slice w.bytes (w.pos + 4) head_at.len), moved))
      × (w.done ≡ false)
      × (w.pos + 4 + head_at.len ≤ length w.bytes)

  pub next_block-cases : (Ended ⊎ Short) ⊎ (Cut ⊎ Whole)
  unfolding next_block
  next_block-cases = elim (Bool-cases w.done) [
    | inl over ↦ inl (inl (rw (next_block, over) refl, over))
    | inr going ↦ elim (Bool-cases (ltb (length w.bytes) (w.pos + 4))) [
      | inl short ↦ inl (inr (rw (next_block, going, short) refl, going, ltb→lt _ _ short))
      | inr room ↦ elim (Bool-cases (ltb (length w.bytes) (w.pos + 4 + head_at.len))) [
        | inl cut ↦ inr (inl (rw (next_block, going, room, cut) refl, going, ltb→lt _ _ cut))
        | inr fits ↦
            inr (inr (rw (next_block, going, room, fits) refl, going, ltb_false→le _ _ fits))
      ]
    ]
  ]

-- Fuel for a walker that has not ended: a round for each byte ahead, one to stop and one to see it.
abbrev IsEnough : ℕ → BlockWalker → Type 0
IsEnough fuel w =
    (1 ≤ fuel) × (w.done ≡ false → (w.pos ≤ length w.bytes) × (length w.bytes + 2 ≤ w.pos + fuel))

pub Flow-cases :
    {S R : Type 0} (f : Flow S R)
    → ((s : S) × (f ≡ continue_with s)) ⊎ ((r : R) × (f ≡ return_with r))
Flow-cases (continue_with s) = inl (s, refl)
Flow-cases (return_with r) = inr (r, refl)

module _ {S R : Type 0} (body : S → BlockStep → Flow S R) where
  abbrev Returns : Option (Flow (BlockWalker × S) R) → Type 0
  Returns o = (out : Flow (BlockWalker × S) R) × (o ≡ some out)

  each_block-round :
      (fuel : ℕ) (w next : BlockWalker) (s : S) (step : BlockStep)
      → next_block w ≡ some (step, next)
      → ((s' : S) → Returns (each_block body fuel next s'))
      → Returns (each_block body (suc fuel) w s)
  unfolding each_block
  each_block-round fuel w next s step now later = elim (Flow-cases (body s step)) [
    | inr (r, stops) ↦ rw (each_block, now, stops) (return_with r, refl)
    | inl (s', goes) ↦ rw (each_block, now, goes) (later s')
  ]

  each_block-IsSome :
      (fuel : ℕ) (w : BlockWalker) (s : S) → IsEnough fuel w → Returns (each_block body fuel w s)
  unfolding each_block
  each_block-IsSome zero w s (some_fuel, enough) = absurd (omega arith)
  each_block-IsSome (suc fuel) w s (some_fuel, enough) = elim (next_block-cases w) [
    | inl (inl (now, over)) ↦ rw (each_block, now) (continue_with (w, s), refl)
    | inl (inr (now, going, short)) ↦
        let (inside, room) = enough going in
        each_block-round fuel w (stopped w) s _ now
          (λ s'. each_block-IsSome fuel (stopped w) s' (omega arith, λ h. cc))
    | inr (inl (now, going, cut)) ↦
        let (inside, room) = enough going in
        each_block-round fuel w (stopped w) s _ now
          (λ s'. each_block-IsSome fuel (stopped w) s' (omega arith, λ h. cc))
    | inr (inr (now, going, fits)) ↦
        let (inside, room) = enough going in
        each_block-round fuel w (moved w) s _ now
          (λ s'. each_block-IsSome fuel (moved w) s' (omega arith, λ h. (fits, omega arith)))
  ]

-- Where a walk starts: inside the bytes, before any block.
abbrev pub IsStart : Bytes → BlockWalker → Type 0
IsStart bs w = (w.bytes ≡ bs) × (4 ≤ w.pos) × (w.pos ≤ length bs) × (w.index ≡ 0) × (w.done ≡ false)

start-IsEnough : (bs : Bytes) (w : BlockWalker) → IsStart bs w → IsEnough (fuel_for bs) w
start-IsEnough bs w (same, lo, hi, front, going) =
    let len : length w.bytes ≡ length bs = ap length same in
    (omega arith, λ h. (omega arith, omega arith))

pub new_bounded-IsStart :
    (bs : Bytes) (w : BlockWalker) → new_bounded bs ≡ ok (complete w) → IsStart bs w
unfolding new_bounded
new_bounded-IsStart bs w h = elim (Result-cases (leading_tags_len bs)) [
  | inr (e, bad) ↦ cc (rw (new_bounded, bad) at h)
  | inl (need_more up_to, found) ↦ cc (rw (new_bounded, found) at h)
  | inl (complete base, found) ↦
      let h' = rw (new_bounded, found) at h in
      elim (Bool-cases (ltb (length bs) (base + 4))) [
        | inl short ↦ elim (Bool-cases (base == 0)) [
          | inl front ↦ cc (rw (short, front) at h')
          | inr behind ↦ cc (rw (short, behind) at h')
        ]
        | inr room ↦ elim (Bool-cases (slice bs base 4 ==bytes flac_marker)) [
          | inr other ↦ cc (rw (room, other) at h')
          | inl marked ↦
              let same = complete-inj (ok-inj (rw (room, marked) at h')) in
              rw (← same) (refl, omega arith, ltb_false→le _ _ room, refl, refl)
        ]
      ]
]

pub new-IsStart : (bs : Bytes) (w : BlockWalker) → new bs ≡ ok w → IsStart bs w
unfolding new
new-IsStart bs w h = elim (Result-cases (new_bounded bs)) [
  | inr (e, bad) ↦ cc (rw (new, bad) at h)
  | inl (need_more up_to, found) ↦ cc (rw (new, found) at h)
  | inl (complete v, found) ↦
      let same : v ≡ w = ok-inj (rw (new, found) at h) in
      rw (← same) (new_bounded-IsStart bs v found)
]

-- `read_metadata` returns on every input: the fuel is enough for the walk.
pub read_metadata-IsSome : (bs : Bytes) → (r : FormatResult FlacMeta) × (read_metadata bs ≡ some r)
unfolding read_metadata parse_blocks
read_metadata-IsSome bs = elim (Result-cases (new bs)) [
  | inr (e, bad) ↦ rw (parse_blocks, bad) (err e, refl)
  | inl (w, good) ↦
      let (out, walked) =
        each_block-IsSome parse_step (fuel_for bs) w []
          (start-IsEnough bs w (new-IsStart bs w good)) in
      rw (parse_blocks, good, walked) (after_loop (λ m. m) out, refl)
]

-- `read_metadata_bounded` returns on every prefix too.
pub read_metadata_bounded-IsSome :
    (prefix : Bytes)
    → (r : FormatResult (Extent FlacMeta)) × (read_metadata_bounded prefix ≡ some r)
unfolding read_metadata_bounded
read_metadata_bounded-IsSome prefix = elim (Result-cases (new_bounded prefix)) [
  | inr (e, bad) ↦ rw (read_metadata_bounded, bad) (err e, refl)
  | inl (need_more up_to, found) ↦ rw (read_metadata_bounded, found) (ok (need_more up_to), refl)
  | inl (complete w, found) ↦
      let (out, walked) =
        each_block-IsSome bounded_step (fuel_for prefix) w []
          (start-IsEnough prefix w (new_bounded-IsStart prefix w found)) in
      rw (read_metadata_bounded, found, walked) (after_loop complete out, refl)
]
