-- ===== src/Tests/Flac.antt =====
-- FLAC files, leading ID3v2 tags and the tag vocabulary.
use musefs.Base.{
  ◌+◌, ◌≤◌, ◌≡◌, refl, false, some, List, [], ◌∷◌, ◌++◌, length, replicate, drop, arith,
}
use musefs.Base.Compare.{ascii, ◌==bytes◌}
use musefs.Base.Words.{Bytes}
use musefs.Base.Results.{ok}
use musefs.Format.Error.{FormatResult, Extent, complete}
use musefs.Format.Flac.{
  MetadataBlock, FlacMeta, FlacScan, flac_marker, u24_be, next_block, new_bounded, new, each_block,
}
use musefs.Format.Flac.Readers.{
  check_streaminfo_position, is_preserved, keep_block, parse_step, after_loop, parse_blocks,
  read_metadata, read_metadata_bounded, has_leading_id3, audio_end, last_chunk, scan_of, sub_u64,
  locate_audio,
}
use musefs.Format.Flac.RoundTrip.{read_metadata_bounded-stream}
use musefs.Format.Flac.Stream.{stream}
use musefs.Format.Flac.Twins.{Agrees, EndsBefore, read_metadata_bounded-Agrees, locate_audio-inside}
use musefs.Format.Flac.Walk.{read_metadata_bounded-IsSome}
use musefs.Format.Id3v2.{
  starts_with_tag, any_high_bit, synchsafe_decode, body_end, has_footer, total_len,
  leading_tags_loop, leading_tags_len,
}
use musefs.Format.Id3v2.Extents.{leading_tags_len-Reports}
use musefs.Format.Tagmap.{
  Entry, find_key, vocab, find_map, to_ascii_lowercase, key_to_vorbis, vorbis_to_key, key_to_id3,
  key_to_mp4, id3_text, mp4_text,
}
use musefs.Format.Tagmap.Names.{Id3Back, Mp4Back, key_to_slots-back}

abbrev blocks : List MetadataBlock
blocks =
    record { block_type = 0; body = replicate 34 7 }
    ∷ record { block_type = 4; body = 1 ∷ 2 ∷ 3 ∷ [] }
    ∷ record { block_type = 3; body = 9 ∷ [] }
    ∷ []

abbrev audio : Bytes
audio = 0xff ∷ 0xf8 ∷ 5 ∷ []

abbrev file : Bytes
file = flac_marker ++ (stream blocks ++ audio)

abbrev scanned : FlacScan
scanned = record {
  audio_offset = 54;
  audio_length = 3;
  preserved =
      record { block_type = 0; body = replicate 34 7 }
      ∷ record { block_type = 3; body = 9 ∷ [] }
      ∷ [];
}

file_located : locate_audio file ≡ some (ok scanned)
unfolding locate_audio parse_blocks new new_bounded leading_tags_len leading_tags_loop
    starts_with_tag ◌==bytes◌ each_block next_block u24_be parse_step keep_block
    check_streaminfo_position is_preserved after_loop has_leading_id3 audio_end last_chunk scan_of
    sub_u64
file_located = refl

read_metadata_bounded-stream_example :
    read_metadata_bounded file
    ≡ some (ok (complete (record { audio_offset = 54; preserved = scanned.preserved })))
unfolding is_preserved
read_metadata_bounded-stream_example =
    read_metadata_bounded-stream blocks audio
      ((omega arith, omega arith), ((omega arith, omega arith), ((omega arith, omega arith), tt)))
      (refl, refl, (omega arith, (omega arith, tt)))

read_metadata_bounded-Agrees_example : Agrees file (read_metadata file) (read_metadata_bounded file)
read_metadata_bounded-Agrees_example = read_metadata_bounded-Agrees file

read_metadata_bounded-IsSome_example :
    (r : FormatResult (Extent FlacMeta)) × (read_metadata_bounded file ≡ some r)
read_metadata_bounded-IsSome_example = read_metadata_bounded-IsSome file

locate_audio-inside_example :
    (4 ≤ 54)
    × (54 + 3 ≤ length file)
    × EndsBefore (length file) 54 (has_leading_id3 file) (last_chunk file) (54 + 3)
locate_audio-inside_example = locate_audio-inside file scanned (omega arith) file_located

-- A tag of five bytes behind its header, and a FLAC file behind it.
abbrev tagged : Bytes
tagged = ascii "ID3" ++ (4 ∷ 0 ∷ 0 ∷ 0 ∷ 0 ∷ 0 ∷ 5 ∷ 1 ∷ 2 ∷ 3 ∷ 4 ∷ 5 ∷ (flac_marker ++ []))

tagged_ends : leading_tags_len tagged ≡ ok (complete 15)
unfolding leading_tags_len leading_tags_loop starts_with_tag ◌==bytes◌ total_len body_end
    any_high_bit synchsafe_decode has_footer
tagged_ends = refl

leading_tags_len-Reports_example :
    (0 ≤ 15) × (15 ≤ length tagged) × (starts_with_tag (drop 15 tagged) ≡ false)
leading_tags_len-Reports_example = leading_tags_len-Reports tagged (complete 15) tagged_ends

abbrev album_entry : Entry
album_entry = record {
  key = ascii "album";
  id3 = id3_text (ascii "TALB");
  mp4 = mp4_text (0xa9 ∷ ascii "alb");
  vorbis = ascii "ALBUM";
}

album_found : find_key (ascii "Album") ≡ some album_entry
unfolding find_key find_map vocab to_ascii_lowercase ◌==bytes◌
album_found = refl

key_to_slots-back_example :
    ((key_to_vorbis (ascii "Album") ≡ some (ascii "ALBUM"))
      × (vorbis_to_key (ascii "ALBUM") ≡ some (ascii "album")))
    × ((key_to_id3 (ascii "Album") ≡ some album_entry.id3)
        × Id3Back album_entry.id3 (ascii "album"))
    × ((key_to_mp4 (ascii "Album") ≡ some album_entry.mp4)
        × Mp4Back album_entry.mp4 (ascii "album"))
unfolding to_ascii_lowercase
key_to_slots-back_example = key_to_slots-back (ascii "Album") album_entry album_found
