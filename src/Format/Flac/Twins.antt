-- ===== src/Format/Flac/Twins.antt =====
-- The unbounded reader of FLAC metadata and its bounded twin, and where the audio lies.
use mathlib.Core.Option.{map}
use musefs.Base.{
  ℕ, zero, suc, ◌+◌, ◌≤◌, ◌<◌, ◌≡◌, refl, ap, inl, inr, Bool, true, false, Bool-cases, Option, none,
  some, List, [], Option-cases, some-inj, length, take, leb, ltb, ltb→lt, leb→le, ◌⊎◌, ◌==◌, arith,
}
use musefs.Base.Compare.{ascii, ◌==bytes◌, ==bytes_iff}
use musefs.Base.Slices.{slice}
use musefs.Base.Words.{Bytes, u64_max}
use musefs.Base.Results.{ok, err, Result-cases, ok-inj}
use musefs.Format.Error.{FormatResult, Extent, complete, need_more}
use musefs.Format.Flac.{
  MetadataBlock, FlacMeta, FlacScan, BlockWalker, each_block, new_bounded, new, flac_marker,
}
use musefs.Format.Flac.Readers.{
  fuel_for, read_metadata, parse_blocks, read_metadata_bounded, parse_step, bounded_step,
  keep_block, check_streaminfo_position, after_loop, audio_end, has_leading_id3, last_chunk,
  scan_of, sub_u64, locate_audio,
}
use musefs.Format.Id3v2.{leading_tags_len}
use musefs.Format.Id3v2.Extents.{leading_tags_len-Reports}
use musefs.Format.Flac.Walk.{
  next_block-cases, head_at, moved, new_bounded-IsStart, read_metadata_bounded-IsSome,
}

abbrev whole_result : ℕ → BlockWalker → List MetadataBlock → Option (FormatResult FlacMeta)
whole_result fuel w kept = map (after_loop (λ m. m)) (each_block parse_step fuel w kept)

abbrev bounded_result :
    ℕ → BlockWalker → List MetadataBlock → Option (FormatResult (Extent FlacMeta))
bounded_result fuel w kept = map (after_loop complete) (each_block bounded_step fuel w kept)

-- What a bounded outcome says of the unbounded one on the same bytes.
abbrev pub Agrees :
    Bytes → Option (FormatResult FlacMeta) → Option (FormatResult (Extent FlacMeta)) → Type 0
Agrees bs whole none = whole ≡ none
Agrees bs whole (some (err e)) = (f : _) × (whole ≡ some (err f))
Agrees bs whole (some (ok (complete m))) =
    (whole ≡ some (ok m)) × (4 ≤ m.audio_offset) × (m.audio_offset ≤ length bs)
Agrees bs whole (some (ok (need_more up_to))) =
    ((f : _) × (whole ≡ some (err f))) × (length bs < up_to)

abbrev Stays : Bytes → BlockWalker → Type 0
Stays bs w = (w.bytes ≡ bs) × (4 ≤ w.pos) × (w.pos ≤ length bs)

each_block-Agrees :
    (bs : Bytes) (fuel : ℕ) (w : BlockWalker) (kept : List MetadataBlock)
    → Stays bs w
    → Agrees bs (whole_result fuel w kept) (bounded_result fuel w kept)
unfolding each_block parse_step bounded_step keep_block after_loop
each_block-Agrees bs zero w kept (same, lo, hi) = refl
each_block-Agrees bs (suc fuel) w kept (same, lo, hi) =
    let len : length w.bytes ≡ length bs = ap length same in
    elim (next_block-cases w) [
      | inl (inl (now, over)) ↦ rw (each_block, now) (refl, lo, hi)
      | inl (inr (now, going, short)) ↦ rw (each_block, now) ((_, refl), omega arith)
      | inr (inl (now, going, cut)) ↦
          elim (Result-cases
            (check_streaminfo_position w.index (head_at w).block_type (head_at w).len)) [
              | inl (done, sound) ↦ rw (each_block, now, sound) ((_, refl), omega arith)
              | inr (e, bad) ↦ rw (each_block, now, bad) (_, refl)
            ]
      | inr (inr (now, going, fits)) ↦
          elim (Result-cases
            (check_streaminfo_position w.index (head_at w).block_type (head_at w).len)) [
              | inl (done, sound) ↦
                  rw (each_block, now, sound)
                    (each_block-Agrees bs fuel (moved w) _ (same, omega arith, omega arith))
              | inr (e, bad) ↦ rw (each_block, now, bad) (_, refl)
            ]
    ]

new_bounded-need_more :
    (bs : Bytes) (up_to : ℕ) → new_bounded bs ≡ ok (need_more up_to) → length bs < up_to
unfolding new_bounded
new_bounded-need_more bs up_to h = elim (Result-cases (leading_tags_len bs)) [
  | inr (e, bad) ↦ cc (rw (new_bounded, bad) at h)
  | inl (need_more n, found) ↦
      let same : need_more n ≡ need_more up_to = ok-inj (rw (new_bounded, found) at h) in
      let same_end : n ≡ up_to = cc in
      rw (← same_end) (leading_tags_len-Reports bs (need_more n) found)
  | inl (complete base, found) ↦
      let h' = rw (new_bounded, found) at h in
      elim (Bool-cases (ltb (length bs) (base + 4))) [
        | inr room ↦ elim (Bool-cases (slice bs base 4 ==bytes flac_marker)) [
          | inr other ↦ cc (rw (room, other) at h')
          | inl marked ↦ cc (rw (room, marked) at h')
        ]
        | inl short ↦ elim (Bool-cases (base == 0)) [
          | inl front ↦ cc (rw (short, front) at h')
          | inr behind ↦
              let same : need_more (base + 4) ≡ need_more up_to =
                ok-inj (rw (short, behind) at h') in
              let same_end : base + 4 ≡ up_to = cc in rw (← same_end) (ltb→lt _ _ short)
        ]
      ]
]

-- The bounded reader on a prefix gives what `read_metadata` gives on the same bytes where it is
-- complete, with the audio offset inside them; where it asks for more, that is beyond the prefix and
-- `read_metadata` refuses; and it refuses only what `read_metadata` refuses.
pub read_metadata_bounded-Agrees :
    (prefix : Bytes) → Agrees prefix (read_metadata prefix) (read_metadata_bounded prefix)
unfolding read_metadata read_metadata_bounded parse_blocks new
read_metadata_bounded-Agrees prefix = elim (Result-cases (new_bounded prefix)) [
  | inr (e, bad) ↦ rw (read_metadata_bounded, parse_blocks, new, bad) (_, refl)
  | inl (need_more up_to, found) ↦
      rw (read_metadata_bounded, parse_blocks, new, found)
        ((_, refl), new_bounded-need_more prefix up_to found)
  | inl (complete w, found) ↦
      let (same, lo, hi, first, going) = new_bounded-IsStart prefix w found in
      rw (read_metadata_bounded, parse_blocks, new, found)
        (each_block-Agrees prefix (fuel_for prefix) w [] (same, lo, hi))
]

Agrees-audio_offset :
    (bs : Bytes) (m : FlacMeta) (r : FormatResult (Extent FlacMeta))
    → Agrees bs (some (ok m)) (some r)
    → (4 ≤ m.audio_offset) × (m.audio_offset ≤ length bs)
Agrees-audio_offset bs m (err e) (f, same) = absurd (cc)
Agrees-audio_offset bs m (ok (need_more n)) ((f, same), beyond) = absurd (cc)
Agrees-audio_offset bs m (ok (complete k)) (same, lo, hi) =
    let offs : k.audio_offset ≡ m.audio_offset = cc in (omega arith, omega arith)

-- Where the audio ends, on the facts that `audio_end` looks at: at the end of the file, or before an
-- ID3v1 tag of 128 bytes.
abbrev pub EndsBefore : ℕ → ℕ → Bool → Option Bytes → ℕ → Type 0
EndsBefore file_len off has_id3 tail end =
    (end ≡ file_len)
    ⊎ ((has_id3 ≡ true)
        × ((last : Bytes) × (tail ≡ some last) × (take 3 last ≡ ascii "TAG"))
        × (end + 128 ≡ file_len))

audio_end-inside :
    (file_len off : ℕ) (has_id3 : Bool) (tail : Option Bytes)
    → off ≤ file_len
    → (off ≤ audio_end file_len off has_id3 tail)
      × (audio_end file_len off has_id3 tail ≤ file_len)
      × EndsBefore file_len off has_id3 tail (audio_end file_len off has_id3 tail)
unfolding audio_end
audio_end-inside file_len off has_id3 none le = (le, omega arith, inl refl)
audio_end-inside file_len off false (some tail) le = (le, omega arith, inl refl)
audio_end-inside file_len off true (some tail) le = elim (Bool-cases (leb (off + 128) file_len)) [
  | inr near ↦ rw near (le, omega arith, inl refl)
  | inl far ↦ elim (Bool-cases (take 3 tail ==bytes ascii "TAG")) [
    | inl tagged ↦
        let room : off + 128 ≤ file_len = leb→le _ _ far in
        rw (far, tagged)
          (
            omega arith,
            omega arith,
            inr (
              refl,
              (tail, refl, (==bytes_iff (take 3 tail) (ascii "TAG")).0 tagged),
              omega arith,
            ),
          )
    | inr plain ↦ rw (far, plain) (le, omega arith, inl refl)
  ]
]

sub_u64-exact : (a b : ℕ) → b ≤ a → a ≤ u64_max → b + sub_u64 a b ≡ a
unfolding sub_u64
sub_u64-exact a b le small = omega arith

-- The audio of a located file, of a length that 64 bits hold, starts behind the marker and ends inside
-- the file: where the file ends, or, if an ID3v2 tag leads the file and "TAG" starts its last 128
-- bytes, possibly 128 bytes before that.
pub locate_audio-inside :
    (bs : Bytes) (scan : FlacScan)
    → length bs ≤ u64_max
    → locate_audio bs ≡ some (ok scan)
    → (4 ≤ scan.audio_offset)
      × (scan.audio_offset + scan.audio_length ≤ length bs)
      × EndsBefore
          (length bs)
          scan.audio_offset
          (has_leading_id3 bs)
          (last_chunk bs)
          (scan.audio_offset + scan.audio_length)
unfolding locate_audio scan_of read_metadata
locate_audio-inside bs scan small h = elim (Option-cases (parse_blocks bs)) [
  | inl stuck ↦ cc (rw (locate_audio, stuck) at h)
  | inr (err e, bad) ↦ cc (rw (locate_audio, bad) at h)
  | inr (ok m, found) ↦
      let (r, bounded) = read_metadata_bounded-IsSome bs in
      let agrees = read_metadata_bounded-Agrees bs in
      let (lo, hi) = Agrees-audio_offset bs m r (rw (← found, ← bounded) agrees) in
      let (le, inside, ends) =
        audio_end-inside (length bs) m.audio_offset (has_leading_id3 bs) (last_chunk bs) hi in
      let h' = some-inj (rw (locate_audio, found) at h) in
      let same = ok-inj h' in
      let exact = sub_u64-exact _ m.audio_offset le (omega arith) in
      rw (← same) (rw exact (lo, inside, ends))
]
