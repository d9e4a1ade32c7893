-- ===== src/Tests/Layouts.antt =====
-- Layouts: what is accepted and refused.
use musefs.Base.{◌≤◌, ◌≡◌, refl, ◌↔◌, true, false, some, List, [], ◌∷◌, All, arith}
use musefs.Base.Int.{pos}
use musefs.Base.Slices.{slice}
use musefs.Base.Words.{u64_max}
use musefs.Base.Results.{ok, err}
use musefs.Format.Error.{ogg_art_slice_out_of_bounds}
use musefs.Format.Base64.{b64_window, encode_b64_slice}
use musefs.Format.Base64.Windows.{encode_b64_slice-b64_window}
use musefs.Format.Layout.{
  Segment, inline, backing_audio, ogg_art_slice, validated, validate_step, seg_len, is_audio,
  filter_header,
}
use musefs.Format.Layout.Validity.{IsSound, total, exact_layout, validated_iff}
use musefs.Format.Layout.Refusal.{RefusedAt, validated-RefusedAt}
use musefs.Tests.Fixtures.{base64, encode}

abbrev good : List Segment
good =
    inline (1 ∷ 2 ∷ [])
    ∷ ogg_art_slice (pos 1) 2 (record { get = 4 }) true 4
    ∷ backing_audio 5 7
    ∷ []

-- The tests of layout.rs on a slice past its source.
abbrev past_source : List Segment
past_source =
    inline (1 ∷ [])
    ∷ ogg_art_slice (pos 1) 5 (record { get = 10 }) false 12
    ∷ backing_audio 0 1
    ∷ []

past_source_refused : validated past_source ≡ err ogg_art_slice_out_of_bounds
unfolding validated validate_step seg_len is_audio filter_header
past_source_refused = refl

good_accepted : validated good ≡ ok (exact_layout good)
unfolding validated validate_step seg_len is_audio filter_header
good_accepted = refl

validated_iff_example :
    (validated good ≡ ok (exact_layout good))
    ↔ (All IsSound good × (total good ≤ u64_max) × (exact_layout good ≡ exact_layout good))
validated_iff_example = validated_iff good (exact_layout good)

validated-RefusedAt_example : RefusedAt 0 past_source ogg_art_slice_out_of_bounds
validated-RefusedAt_example =
    validated-RefusedAt past_source ogg_art_slice_out_of_bounds past_source_refused

encode_b64_slice-b64_window_example :
    encode_b64_slice encode
      (slice (1 ∷ 2 ∷ 3 ∷ 4 ∷ []) (b64_window 3 4 4).in_start (b64_window 3 4 4).in_len)
      (b64_window 3 4 4).skip
      4
    ≡ some (slice (encode (1 ∷ 2 ∷ 3 ∷ 4 ∷ [])) 3 4)
encode_b64_slice-b64_window_example =
    encode_b64_slice-b64_window base64 (1 ∷ 2 ∷ 3 ∷ 4 ∷ []) 3 4 (omega arith) (omega arith)
      (omega arith)
