-- ===== src/Core/Readahead/Coherence.antt =====
-- What the cache returns is what the file holds.
use musefs.Base.{
  ℕ, zero, suc, ◌+◌, ◌-◌, ◌≤◌, ◌<◌, ◌≡◌, sym, ap, ◌∙◌, inl, inr, true, false, Bool-cases, none,
  some, Option-cases, List, [], ◌∷◌, All, length, drop, ltb, leb, ◌==◌, ◌||◌, arith,
}
use musefs.Base.Slices.{slice, slice-slice, length-slice, take-take}
use musefs.Base.Words.{Bytes, u64_max, saturating_add_u64}
use musefs.Base.Results.{Result, ok, err}
use musefs.Core.Readahead.{
  IoError, unexpected_eof, Window, window_end, ReadAhead, Search, found, missing, binary_search,
  replace_at, insert_at, remove_at, evict_victim, evict_one, trim, place, insert_window,
  find_holding, holds, store_fill, read_miss, resize_window, read_into, window_containing,
}

-- A window that lies in the file and holds its bytes.
abbrev pub IsCopy : Bytes → Window → Type 0
IsCopy file w = (window_end w ≤ length file) × (w.bytes ≡ slice file w.start (length w.bytes))

pub record IsCoherent (file : Bytes) (ra : ReadAhead) : Type 0 where
  pub copies : All (IsCopy file) ra.windows

module _ (file : Bytes) where
  replace_at-copies :
      (ws : List Window) (i : ℕ) (v : Window)
      → All (IsCopy file) ws
      → IsCopy file v
      → All (IsCopy file) (replace_at ws i v)
  unfolding replace_at
  replace_at-copies [] i v h c = tt
  replace_at-copies (w ∷ ws) zero v h c = (c, h.1)
  replace_at-copies (w ∷ ws) (suc i) v h c = (h.0, replace_at-copies ws i v h.1 c)

  insert_at-copies :
      (ws : List Window) (i : ℕ) (v : Window)
      → All (IsCopy file) ws
      → IsCopy file v
      → All (IsCopy file) (insert_at ws i v)
  unfolding insert_at
  insert_at-copies ws zero v h c = (c, h)
  insert_at-copies [] (suc i) v h c = (c, tt)
  insert_at-copies (w ∷ ws) (suc i) v h c = (h.0, insert_at-copies ws i v h.1 c)

  remove_at-copies :
      (ws : List Window) (i : ℕ) → All (IsCopy file) ws → All (IsCopy file) (remove_at ws i)
  unfolding remove_at
  remove_at-copies [] i h = tt
  remove_at-copies (w ∷ ws) zero h = h.1
  remove_at-copies (w ∷ ws) (suc i) h = (h.0, remove_at-copies ws i h.1)

  trim-IsCoherent :
      (fuel : ℕ) (ra : ReadAhead) → IsCoherent file ra → IsCoherent file (trim fuel ra)
  unfolding trim evict_one
  trim-IsCoherent zero ra h = h
  trim-IsCoherent (suc fuel) ra h = elim (Bool-cases (ltb ra.max_windows (length ra.windows))) [
    | inl more ↦ rw more (
        trim-IsCoherent fuel (evict_one ra)
          (record { copies = remove_at-copies ra.windows (evict_victim ra) h.copies }))
    | inr done ↦ rw done h
  ]

  place-IsCoherent :
      (s : Search) (ra : ReadAhead) (w : Window)
      → IsCoherent file ra
      → IsCopy file w
      → IsCoherent file (place s ra w)
  unfolding place
  place-IsCoherent (found i) ra w h c = record {
    copies = replace_at-copies ra.windows i w h.copies c;
  }
  place-IsCoherent (missing i) ra w h c = record {
    copies = insert_at-copies ra.windows i w h.copies c;
  }

  pub insert_window-IsCoherent :
      (ra : ReadAhead) (w : Window)
      → IsCoherent file ra
      → IsCopy file w
      → IsCoherent file (insert_window ra w)
  unfolding insert_window
  insert_window-IsCoherent ra w h c =
      trim-IsCoherent _ _ (place-IsCoherent (binary_search w.start ra.windows) ra w h c)

  find_holding-IsCopy :
      (off end : ℕ) (ws : List Window) (w : Window)
      → All (IsCopy file) ws
      → find_holding off end ws ≡ some w
      → IsCopy file w × (w.start ≤ off) × (end ≤ window_end w)
  unfolding find_holding
  find_holding-IsCopy off end [] w h e = cc
  find_holding-IsCopy off end (v ∷ vs) w h e = elim (Bool-cases (holds off end v)) [
    | inl here ↦ let same : v ≡ w = ground arith in rw (← same) (h.0, ground arith, ground arith)
    | inr there ↦ find_holding-IsCopy off end vs w h.1 (rw there at e)
  ]

  slice-IsCopy :
      (w : Window) (off len : ℕ)
      → IsCopy file w
      → w.start ≤ off
      → off + len ≤ window_end w
      → slice w.bytes (off - w.start) len ≡ slice file off len
  slice-IsCopy w off len (inside, same) lo hi =
      ap (λ t. slice t (off - w.start) len) same
      ∙ slice-slice file w.start (length w.bytes) (off - w.start) len off (omega arith)
          (omega arith)

-- A pread that reads the file: in range it returns the bytes there, and of no other length.
pub record Preads (file : Bytes) (fill : ℕ → ℕ → Result IoError Bytes) : Type 0 where
  pub in_range : (n off : ℕ) → off + n ≤ length file → fill n off ≡ ok (slice file off n)

-- What a read of `len` bytes at `off` must give.
pub record Serves (file : Bytes) (off len : ℕ) (r : Result IoError (Bytes × ℕ × ℕ) × ReadAhead)
    : Type 0 where
  pub old : ℕ
  pub after : ℕ
  pub bytes : r.0 ≡ ok (slice file off len, old, after)
  pub coherent : IsCoherent file r.1

module _ (file : Bytes) (fill : ℕ → ℕ → Result IoError Bytes) (preads : Preads file fill) where
  store_fill-Serves :
      (ra : ReadAhead) (old off len want : ℕ)
      → IsCoherent file ra
      → len ≤ want
      → off + want ≤ length file
      → Serves file off len (store_fill ra old off len (fill want off))
  unfolding store_fill
  store_fill-Serves ra old off len want h k inside =
      let copy : IsCopy file (record { start = off; bytes = slice file off want }) = (
        omega (arith, length-slice file off want inside),
        ap (slice file off) (sym (length-slice file off want inside)),
      ) in
      rw (preads.in_range want off inside) (record {
        old = old;
        after =
            (insert_window (record ra { next_expected = off + len })
              (record { start = off; bytes = slice file off want })).cached_bytes;
        bytes =
            ap
              (λ t. ok (
                t,
                old,
                (insert_window (record ra { next_expected = off + len })
                    (record { start = off; bytes = slice file off want })).cached_bytes,
              ))
              (take-take len want (drop off file) k);
        coherent = insert_window-IsCoherent file _ _ (record { copies = h.copies }) copy;
      })

  read_miss-Serves :
      (ra : ReadAhead) (off len backing_len : ℕ)
      → IsCoherent file ra
      → 0 < len
      → off + len ≤ backing_len
      → backing_len ≤ length file
      → backing_len ≤ u64_max
      → Serves file off len (read_miss ra off len backing_len fill)
  unfolding read_miss resize_window
  read_miss-Serves ra off len backing_len h pos inside whole word =
      let in_bounds : (leb backing_len off || ltb backing_len (saturating_add_u64 off len))
          ≡ false =
        ground arith in
      rw in_bounds (
        store_fill-Serves (resize_window ra off) ra.cached_bytes off len _
          (record { copies = h.copies }) (omega arith) (omega arith))

  -- A read inside the backing file returns exactly the file's bytes at its offset, whether it is
  -- served from a cached window or by a pread, and leaves a cache of which this holds again. The
  -- cache has to hold copies of the file, and the backing length to be within the file and 64 bits.
  pub read_into-Serves :
      (ra : ReadAhead) (off len backing_len : ℕ)
      → IsCoherent file ra
      → off + len ≤ backing_len
      → backing_len ≤ length file
      → backing_len ≤ u64_max
      → Serves file off len (read_into ra off len backing_len fill)
  unfolding read_into window_containing
  read_into-Serves ra off len backing_len h inside whole word = elim (Bool-cases (len == 0)) [
    | inl empty ↦
        let z : 0 ≡ len = ground arith in
        rw empty (record {
          old = ra.cached_bytes;
          after = ra.cached_bytes;
          bytes = ap (λ k. ok (slice file off k, ra.cached_bytes, ra.cached_bytes)) z;
          coherent = h;
        })
    | inr some_asked ↦ rw some_asked (elim (Option-cases (window_containing ra off len)) [
      | inl miss ↦
          rw (miss, read_into)
            (read_miss-Serves ra off len backing_len h (ground arith) inside whole word)
      | inr (w, hit) ↦
          let (copy, lo, hi) = find_holding-IsCopy file off _ ra.windows w h.copies hit in
          rw (hit, read_into)
            (record {
              old = ra.cached_bytes;
              after = ra.cached_bytes;
              bytes =
                  ap (λ t. ok (t, ra.cached_bytes, ra.cached_bytes))
                    (slice-IsCopy file w off len copy lo (omega arith));
              coherent = record { copies = h.copies };
            })
    ])
  ]

  -- A read that leaves the backing file is an end-of-file error that reads nothing, unless a cached
  -- window holds it.
  pub read_into_past_end :
      (ra : ReadAhead) (off len backing_len : ℕ)
      → 0 < len
      → backing_len < off + len
      → backing_len < u64_max
      → window_containing ra off len ≡ none
      → (read_into ra off len backing_len fill).0 ≡ err unexpected_eof
  unfolding read_into read_miss
  read_into_past_end ra off len backing_len pos past word miss =
      let beyond : (leb backing_len off || ltb backing_len (saturating_add_u64 off len)) ≡ true =
        ground arith in
      let asked : (len == 0) ≡ false = ground arith in rw asked (rw (miss, read_into) (rw beyond))
