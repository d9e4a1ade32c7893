-- ===== src/Format/Layout/Validity.antt =====
-- What `validated` accepts, and what a validated layout promises.
use musefs.Base.{
  ℕ, ◌+◌, ◌*◌, ◌/◌, ◌≤◌, ◌<◌, ◌≡◌, refl, ◌↔◌, inl, inr, Bool, true, false, arith, min, Bool-cases,
  List, [], ◌∷◌, length, All,
}
use native.Mathlib.Nat.{zero-add}
use musefs.Base.Words.{u64_max}
use musefs.Base.Results.{ok, bind-IsOk}
use musefs.Format.Layout.{
  Segment, inline, art_image, backing_audio, ogg_audio, ogg_art_slice, binary_tag, seg_len,
  is_audio, RegionLayout, from_segments, saturating_total, filter_header, validate_step,
  validate_loop, validate, validated,
}

-- The bytes of an image, or of its base64 text.
abbrev pub art_output_len : Bool → ℕ → ℕ
art_output_len true n = (n + 2) / 3 * 4
art_output_len false n = n

-- A segment that a layout may hold: metadata is not empty, and no range leaves 64 bits or its source.
abbrev pub IsSound : Segment → Type 0
IsSound (inline b) = 0 < length b
IsSound (art_image _ len) = 0 < len.get
IsSound (backing_audio offset len) = offset + len ≤ u64_max
IsSound (ogg_audio offset len _) = offset + len ≤ u64_max
IsSound (ogg_art_slice _ offset len base64 art_total) =
    (0 < len.get)
    × (offset + len.get ≤ u64_max)
    × (offset + len.get ≤ art_output_len base64 art_total)
    × ((base64 ≡ true) → art_output_len base64 art_total ≤ u64_max)
IsSound (binary_tag _ len) = 0 < len.get

-- The exact sums of lengths, with no limit on their size.
abbrev pub total : List Segment → ℕ
total [] = 0
total (s ∷ ss) = seg_len s + total ss

abbrev pub header_total : List Segment → ℕ
header_total ss = total (filter_header ss)

pub validate_step-IsSound :
    (acc t : ℕ) (s : Segment)
    → validate_step acc s ≡ ok t
    → IsSound s × (t ≡ acc + seg_len s) × (t ≤ u64_max)
unfolding validate_step seg_len is_audio
validate_step-IsSound acc t (inline b) h = ground arith
validate_step-IsSound acc t (ogg_art_slice a o l true n) h = ground arith
validate_step-IsSound acc t (ogg_art_slice a o l false n) h = ground arith
validate_step-IsSound acc t s h = ground arith

validate_step_complete :
    (acc : ℕ) (s : Segment)
    → IsSound s
    → acc + seg_len s ≤ u64_max
    → validate_step acc s ≡ ok (acc + seg_len s)
unfolding validate_step seg_len is_audio
validate_step_complete acc (inline b) h k = ground arith
validate_step_complete acc (ogg_art_slice a o l true n) h k = ground arith
validate_step_complete acc (ogg_art_slice a o l false n) h k = ground arith
validate_step_complete acc s h k = ground arith

validate_loop-IsSound :
    (acc : ℕ) (ss : List Segment)
    → acc ≤ u64_max
    → validate_loop acc ss ≡ ok tt
    → All IsSound ss × (acc + total ss ≤ u64_max)
unfolding validate_loop
validate_loop-IsSound acc [] b h = (tt, omega arith)
validate_loop-IsSound acc (s ∷ ss) b h =
    let (t, step, rest) = bind-IsOk (λ t. validate_loop t ss) (validate_step acc s) h in
    let (sound, e, fits) = validate_step-IsSound acc t s step in
    let (sounds, sum) = validate_loop-IsSound t ss fits rest in ((sound, sounds), omega arith)

validate_loop_complete :
    (acc : ℕ) (ss : List Segment)
    → All IsSound ss
    → acc + total ss ≤ u64_max
    → validate_loop acc ss ≡ ok tt
unfolding validate_loop
validate_loop_complete acc [] h k = refl
validate_loop_complete acc (s ∷ ss) h k =
    rw (validate_step_complete acc s h.0 (omega arith))
      (validate_loop_complete (acc + seg_len s) ss h.1 (omega arith))

saturating_total-exact :
    (acc : ℕ) (ss : List Segment)
    → acc + total ss ≤ u64_max
    → saturating_total acc ss ≡ acc + total ss
unfolding saturating_total
saturating_total-exact acc [] h = omega arith
saturating_total-exact acc (s ∷ ss) h =
    let e : min (acc + seg_len s) u64_max ≡ acc + seg_len s = omega arith in
    rw e (omega (arith, saturating_total-exact (acc + seg_len s) ss (omega arith)))

header_total-le : (ss : List Segment) → header_total ss ≤ total ss
unfolding filter_header
header_total-le [] = omega arith
header_total-le (s ∷ ss) = elim (Bool-cases (is_audio s)) [
  | inl e ↦ rw e (omega (arith, header_total-le ss))
  | inr e ↦ rw e (omega (arith, header_total-le ss))
]

-- The layout that a list of segments stands for, its totals exact.
abbrev pub exact_layout : List Segment → RegionLayout
exact_layout ss = record { segments = ss; total_len = total ss; header_len = header_total ss }

from_segments-exact : (ss : List Segment) → total ss ≤ u64_max → from_segments ss ≡ exact_layout ss
unfolding from_segments
from_segments-exact ss h =
    rw
      (
        saturating_total-exact 0 ss (omega arith),
        saturating_total-exact 0 (filter_header ss) (omega (arith, header_total-le ss)),
      )
      (cc (zero-add (total ss), zero-add (header_total ss)))

-- `validated` accepts exactly the lists whose segments are sound and whose lengths sum within 64
-- bits, and the layout that it returns has those segments and the exact sums for its two totals.
pub validated_iff :
    (ss : List Segment) (l : RegionLayout)
    → (validated ss ≡ ok l) ↔ (All IsSound ss × (total ss ≤ u64_max) × (l ≡ exact_layout ss))
unfolding validated validate
validated_iff ss l = (sound, complete)
  where
    sound : validated ss ≡ ok l → All IsSound ss × (total ss ≤ u64_max) × (l ≡ exact_layout ss)
    sound h =
        let (u, accepted, same) =
          bind-IsOk (λ _. ok (from_segments ss)) (validate (from_segments ss)) h in
        let (sounds, fits) = validate_loop-IsSound 0 ss (omega arith) accepted in
        let fits' : total ss ≤ u64_max = omega arith in
        (sounds, fits', cc (from_segments-exact ss fits'))

    complete : All IsSound ss × (total ss ≤ u64_max) × (l ≡ exact_layout ss) → validated ss ≡ ok l
    complete (sounds, fits, e) =
        rw (validate_loop_complete 0 ss sounds (omega arith)) (cc (from_segments-exact ss fits))
