-- ===== src/Tests/Reads.antt =====
-- Reads of a file of four segments.
use musefs.Base.{◌⊎◌, ◌+◌, ◌≤◌, ◌≡◌, refl, true, false, List, [], ◌∷◌, ◌++◌, All, arith}
use musefs.Base.Int.{pos}
use musefs.Base.Slices.{slice}
use musefs.Base.Words.{u64_max}
use musefs.Core.Freshness.{same_stamp}
use musefs.Base.Results.{ok}
use musefs.Format.Layout.{
  Segment, inline, backing_audio, ogg_art_slice, binary_tag, any_segment, is_audio, seg_len,
  validate, validate_step, check_range, check_art_slice, b64_len_checked, is_db_rowid,
  streams_db_rowid,
}
use musefs.Format.Layout.Validity.{total, exact_layout}
use musefs.Core.Reader.{
  ResolvedFile, Environment, Track, from_track, finish_build, needs_file, read_segments_into,
  read_at_into,
}
use musefs.Core.Reader.Rendering.{IsAvailable, render}
use musefs.Core.Reader.Splice.{Returns, both, read_segments_into-Returns}
use musefs.Core.Reader.Audio.{read_segments_into_audio}
use musefs.Core.Reader.Guards.{IsFresh, read_at_into-IsFresh, read_at_into-Returns}
use musefs.Tests.Fixtures.{contents, sources, Always, provides, base64}

abbrev header : List Segment
header =
    inline (1 ∷ 2 ∷ [])
    ∷ ogg_art_slice (pos 1) 2 (record { get = 4 }) true 4
    ∷ binary_tag (pos 3) (record { get = 3 })
    ∷ []

abbrev segments : List Segment
segments = header ++ (backing_audio 5 7 ∷ [])

abbrev track : Track
track = record {
  id = pos 1;
  backing_path = [];
  backing_size = 12;
  backing_mtime_ns = pos 0;
  backing_ctime_ns = pos 0;
  content_version = pos 4;
}

abbrev resolved : ResolvedFile
resolved = record {
  layout = exact_layout segments;
  total_len = 16;
  track_id = pos 1;
  content_version = pos 4;
  backing_path = [];
  stamp = record { size = 12; mtime_ns = pos 0; ctime_ns = pos 0 };
  streams_db_rowid = true;
}

abbrev environment : Environment
environment = record {
  open_stamp = ok (record { size = 12; mtime_ns = pos 0; ctime_ns = pos 0 });
  begin_read = ok tt;
  track_content_version = λ _. ok (pos 4);
}

available : All (IsAvailable base64 contents) segments
available = (
  tt,
  (
    (1 ∷ 2 ∷ 3 ∷ 4 ∷ [], refl, refl, omega arith, omega arith),
    ((7 ∷ 8 ∷ 9 ∷ [], refl, omega arith), (omega arith, tt)),
  ),
)

fresh : IsFresh environment resolved
fresh = record { stamp = λ _. refl; version = λ _. refl }

total_segments : 16 ≡ total segments
unfolding seg_len
total_segments = refl

total_small : total segments ≤ u64_max
unfolding seg_len
total_small = omega arith

read_segments_into-Returns_example :
    Returns Always
      (read_segments_into sources both resolved 1 12 tt)
      (slice (render base64 contents segments) 1 12)
read_segments_into-Returns_example =
    read_segments_into-Returns sources contents Always provides resolved 1 12 tt available
      total_segments total_small tt

read_segments_into_audio_example :
    Returns Always
      (read_segments_into sources both resolved (total header + 2) 3 tt)
      (slice contents.file (5 + 2) 3)
read_segments_into_audio_example =
    read_segments_into_audio sources contents Always provides resolved header 5 7 2 3 tt refl
      available total_segments total_small (omega arith) tt

read_at_into-Returns_example :
    Returns Always
      (read_at_into environment sources resolved 8 20 tt)
      (slice (render base64 contents segments) 8 20)
read_at_into-Returns_example =
    read_at_into-Returns environment sources contents Always provides resolved 8 20 tt available
      total_segments total_small tt fresh refl

one_byte : (read_at_into environment sources resolved 1 1 tt).0 ≡ ok (2 ∷ [])
unfolding read_at_into seg_len any_segment is_audio same_stamp
one_byte = refl

built : finish_build track (exact_layout segments) 16 ≡ ok resolved
unfolding finish_build validate validate_step check_range check_art_slice b64_len_checked seg_len
    is_audio from_track any_segment is_db_rowid
built = refl

read_at_into-IsFresh_example :
    ((needs_file (exact_layout segments) ≡ false)
      ⊎ (environment.open_stamp ≡ ok (from_track track)))
    × ((streams_db_rowid (exact_layout segments) ≡ false)
        ⊎ (environment.track_content_version (pos 1) ≡ ok (pos 4)))
read_at_into-IsFresh_example =
    read_at_into-IsFresh environment sources track (exact_layout segments) 16 resolved built 1 1 tt
      2 [] one_byte
