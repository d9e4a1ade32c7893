-- ===== src/Format/Layout/Refusal.antt =====
-- Which segment a refused layout is refused for, and why.
use musefs.Base.{
  ℕ, ◌+◌, ◌<◌, ◌≡◌, refl, ap, subst, ◌⊎◌, inl, inr, true, false, arith, List, [], ◌∷◌, ◌++◌, All,
}
use native.Mathlib.Nat.{add-zero}
use musefs.Base.Words.{u64_max}
use musefs.Base.Results.{ok, err, bind-IsErr}
use musefs.Format.Error.{
  LayoutError, empty_segment, total_overflow, backing_range_overflow, ogg_art_slice_range_overflow,
  ogg_art_slice_out_of_bounds,
}
use musefs.Format.Layout.{
  Segment, inline, backing_audio, ogg_audio, ogg_art_slice, seg_len, is_audio, from_segments,
  validate_step, validate_loop, validate, validated,
}
use musefs.Format.Layout.Validity.{IsSound, total, art_output_len, validate_step-IsSound}

-- An audio run, or an art slice, whose range leaves 64 bits, and a slice that leaves its source.
abbrev pub RunOverflows : Segment → Type 0
RunOverflows (backing_audio offset len) = u64_max < offset + len
RunOverflows (ogg_audio offset len _) = u64_max < offset + len
RunOverflows _ = ⊥

abbrev pub SliceOverflows : Segment → Type 0
SliceOverflows (ogg_art_slice _ offset len base64 art_total) =
    (u64_max < offset + len.get) ⊎ ((base64 ≡ true) × (u64_max < art_output_len base64 art_total))
SliceOverflows _ = ⊥

abbrev pub SliceLeaves : Segment → Type 0
SliceLeaves (ogg_art_slice _ offset len base64 art_total) =
    art_output_len base64 art_total < offset + len.get
SliceLeaves _ = ⊥

-- The fault that each error names, of a segment behind `before` bytes.
abbrev pub Offends : LayoutError → ℕ → Segment → Type 0
Offends empty_segment before s = (seg_len s ≡ 0) × (is_audio s ≡ false)
Offends total_overflow before s = IsSound s × (u64_max < before + seg_len s)
Offends backing_range_overflow before s = RunOverflows s
Offends ogg_art_slice_range_overflow before s = SliceOverflows s
Offends ogg_art_slice_out_of_bounds before s = SliceLeaves s

validate_step-Offends :
    (acc : ℕ) (s : Segment) (e : LayoutError) → validate_step acc s ≡ err e → Offends e acc s
unfolding validate_step seg_len is_audio
validate_step-Offends acc (inline b) empty_segment h = ground arith
validate_step-Offends acc (ogg_art_slice a o l true n) empty_segment h = ground arith
validate_step-Offends acc (ogg_art_slice a o l false n) empty_segment h = ground arith
validate_step-Offends acc s e h = ground arith

-- Where a list of segments is refused: the segments before the offending one are sound.
pub record RefusedAt (acc : ℕ) (ss : List Segment) (e : LayoutError) : Type 0 where
  pub before : List Segment
  pub at : Segment
  pub after : List Segment
  pub splits : ss ≡ before ++ (at ∷ after)
  pub sound : All IsSound before
  pub offends : Offends e (acc + total before) at

RefusedAt-cons :
    (acc t : ℕ) (s : Segment) (ss : List Segment) (e : LayoutError)
    → IsSound s
    → t ≡ acc + seg_len s
    → RefusedAt t ss e
    → RefusedAt acc (s ∷ ss) e
RefusedAt-cons acc t s ss e sound eq r =
    let n : t + total r.before ≡ acc + total (s ∷ r.before) = omega arith in
    record {
      before = s ∷ r.before;
      at = r.at;
      after = r.after;
      splits = ap (◌∷◌ s) r.splits;
      sound = (sound, r.sound);
      offends = subst (λ k. Offends e k r.at) n r.offends;
    }

validate_loop-RefusedAt :
    (acc : ℕ) (ss : List Segment) (e : LayoutError)
    → validate_loop acc ss ≡ err e
    → RefusedAt acc ss e
unfolding validate_loop
validate_loop-RefusedAt acc [] e h = cc
validate_loop-RefusedAt acc (s ∷ ss) e h =
    elim (bind-IsErr (λ t. validate_loop t ss) (validate_step acc s) h) [
      | inl step ↦ record {
        before = [];
        at = s;
        after = ss;
        splits = refl;
        sound = tt;
        offends = rw add-zero (validate_step-Offends acc s e step);
      }
      | inr (t, step, rest) ↦
          let (sound, eq, fits) = validate_step-IsSound acc t s step in
          RefusedAt-cons acc t s ss e sound eq (validate_loop-RefusedAt t ss e rest)
    ]

-- A refusal names the first segment at fault: the segments before it are sound, and it is itself
-- empty metadata, has a range that leaves 64 bits or its source image, or carries the total past
-- 64 bits, as the error says.
pub validated-RefusedAt :
    (ss : List Segment) (e : LayoutError) → validated ss ≡ err e → RefusedAt 0 ss e
unfolding validated validate from_segments
validated-RefusedAt ss e h =
    elim (bind-IsErr (λ _. ok (from_segments ss)) (validate (from_segments ss)) h) [
      | inl refused ↦ validate_loop-RefusedAt 0 ss e refused
      | inr (u, accepted, never) ↦ cc
    ]
