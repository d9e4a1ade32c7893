-- ===== src/Format/Tagmap.antt =====
-- musefs-format/src/tagmap.rs: the vocabulary of canonical keys and their names in each container.
-- Keys and names are compared as bytes; the vocabulary is a list searched from the front.
pub mod Names
use musefs.Base.{
  ℕ, ◌+◌, ◌-◌, Bool, true, false, ◌&&◌, Option, none, some, List, [], ◌∷◌, map, ltb, leb,
  if◌then◌else◌,
}
use musefs.Base.Compare.{ascii, ◌==bytes◌}
use musefs.Base.Words.{Byte, Bytes}

pub data Id3Slot : Type 0 where
  id3_text : Bytes → Id3Slot
  id3_txxx : Bytes → Id3Slot
  id3_comment : Id3Slot
  id3_lyrics : Id3Slot

pub data Mp4Slot : Type 0 where
  mp4_text : Bytes → Mp4Slot
  mp4_number : Bytes → ℕ → Mp4Slot
  mp4_integer : Bytes → ℕ → Mp4Slot
  mp4_freeform : Bytes → Bytes → Mp4Slot

pub record Entry : Type 0 where
  pub key : Bytes
  pub id3 : Id3Slot
  pub mp4 : Mp4Slot
  pub vorbis : Bytes

abbrev entry : Bytes → Id3Slot → Mp4Slot → Bytes → Entry
entry k i m v = record { key = k; id3 = i; mp4 = m; vorbis = v }

unfoldable pub vocab : List Entry
vocab =
    entry (ascii "title") (id3_text (ascii "TIT2")) (mp4_text (0xa9 ∷ ascii "nam")) (ascii "TITLE")
    ∷ entry (ascii "artist") (id3_text (ascii "TPE1")) (mp4_text (0xa9 ∷ ascii "ART"))
        (ascii "ARTIST")
    ∷ entry (ascii "album") (id3_text (ascii "TALB")) (mp4_text (0xa9 ∷ ascii "alb"))
        (ascii "ALBUM")
    ∷ entry (ascii "albumartist") (id3_text (ascii "TPE2")) (mp4_text (ascii "aART"))
        (ascii "ALBUMARTIST")
    ∷ entry (ascii "genre") (id3_text (ascii "TCON")) (mp4_text (0xa9 ∷ ascii "gen"))
        (ascii "GENRE")
    ∷ entry (ascii "date") (id3_text (ascii "TDRC")) (mp4_text (0xa9 ∷ ascii "day")) (ascii "DATE")
    ∷ entry (ascii "composer") (id3_text (ascii "TCOM")) (mp4_text (0xa9 ∷ ascii "wrt"))
        (ascii "COMPOSER")
    ∷ entry (ascii "grouping") (id3_text (ascii "TIT1")) (mp4_text (0xa9 ∷ ascii "grp"))
        (ascii "GROUPING")
    ∷ entry (ascii "tracknumber") (id3_text (ascii "TRCK")) (mp4_number (ascii "trkn") 8)
        (ascii "TRACKNUMBER")
    ∷ entry (ascii "discnumber") (id3_text (ascii "TPOS")) (mp4_number (ascii "disk") 6)
        (ascii "DISCNUMBER")
    ∷ entry (ascii "comment") (id3_comment) (mp4_text (0xa9 ∷ ascii "cmt")) (ascii "COMMENT")
    ∷ entry (ascii "lyrics") (id3_lyrics) (mp4_text (0xa9 ∷ ascii "lyr")) (ascii "LYRICS")
    ∷ entry (ascii "copyright") (id3_text (ascii "TCOP"))
        (mp4_freeform (ascii "com.apple.iTunes") (ascii "COPYRIGHT")) (ascii "COPYRIGHT")
    ∷ entry (ascii "isrc") (id3_text (ascii "TSRC"))
        (mp4_freeform (ascii "com.apple.iTunes") (ascii "ISRC")) (ascii "ISRC")
    ∷ entry (ascii "lyricist") (id3_text (ascii "TEXT"))
        (mp4_freeform (ascii "com.apple.iTunes") (ascii "LYRICIST")) (ascii "LYRICIST")
    ∷ entry (ascii "conductor") (id3_text (ascii "TPE3"))
        (mp4_freeform (ascii "com.apple.iTunes") (ascii "CONDUCTOR")) (ascii "CONDUCTOR")
    ∷ entry (ascii "replaygain_track_gain") (id3_txxx (ascii "REPLAYGAIN_TRACK_GAIN"))
        (mp4_freeform (ascii "com.apple.iTunes") (ascii "replaygain_track_gain"))
        (ascii "REPLAYGAIN_TRACK_GAIN")
    ∷ entry (ascii "replaygain_album_gain") (id3_txxx (ascii "REPLAYGAIN_ALBUM_GAIN"))
        (mp4_freeform (ascii "com.apple.iTunes") (ascii "replaygain_album_gain"))
        (ascii "REPLAYGAIN_ALBUM_GAIN")
    ∷ entry (ascii "replaygain_track_peak") (id3_txxx (ascii "REPLAYGAIN_TRACK_PEAK"))
        (mp4_freeform (ascii "com.apple.iTunes") (ascii "replaygain_track_peak"))
        (ascii "REPLAYGAIN_TRACK_PEAK")
    ∷ entry (ascii "replaygain_album_peak") (id3_txxx (ascii "REPLAYGAIN_ALBUM_PEAK"))
        (mp4_freeform (ascii "com.apple.iTunes") (ascii "replaygain_album_peak"))
        (ascii "REPLAYGAIN_ALBUM_PEAK")
    ∷ entry (ascii "musicbrainz_albumid") (id3_txxx (ascii "MusicBrainz Album Id"))
        (mp4_freeform (ascii "com.apple.iTunes") (ascii "MusicBrainz Album Id"))
        (ascii "MUSICBRAINZ_ALBUMID")
    ∷ entry (ascii "musicbrainz_artistid") (id3_txxx (ascii "MusicBrainz Artist Id"))
        (mp4_freeform (ascii "com.apple.iTunes") (ascii "MusicBrainz Artist Id"))
        (ascii "MUSICBRAINZ_ARTISTID")
    ∷ entry (ascii "bpm") (id3_text (ascii "TBPM")) (mp4_integer (ascii "tmpo") 2) (ascii "BPM")
    ∷ entry (ascii "compilation") (id3_text (ascii "TCMP")) (mp4_integer (ascii "cpil") 1)
        (ascii "COMPILATION")
    ∷ entry (ascii "gapless") (id3_txxx (ascii "GAPLESS")) (mp4_integer (ascii "pgap") 1)
        (ascii "GAPLESS")
    ∷ []

unfoldable pub to_ascii_lowercase : Bytes → Bytes
to_ascii_lowercase bs = map (λ b. if leb 0x41 b && leb b 0x5a then b + 32 else b) bs

unfoldable pub to_ascii_uppercase : Bytes → Bytes
to_ascii_uppercase bs = map (λ b. if leb 0x61 b && leb b 0x7a then b - 32 else b) bs

unfoldable pub eq_ignore_ascii_case : Bytes → Bytes → Bool
unfolding to_ascii_lowercase
eq_ignore_ascii_case a b = to_ascii_lowercase a ==bytes to_ascii_lowercase b

-- `iter().find_map`
unfoldable pub find_map {ℓ} : {A : Type 0} {B : Type ℓ} → (A → Option B) → List A → Option B
find_map f [] = none
find_map f (x ∷ xs) = elim (f x) [ some y ↦ some y | none ↦ find_map f xs ]

abbrev when : Bool → Bytes → Option Bytes
when test key = if test then some key else none

-- `VOCAB.iter().find(|e| e.key == k)`
unfoldable pub find_key : Bytes → Option Entry
find_key key =
    let k = to_ascii_lowercase key in find_map (λ e. if e.key ==bytes k then some e else none) vocab

unfoldable pub id3_text_to_key : Bytes → Option Bytes
id3_text_to_key frame_id =
    find_map (λ e. elim e.id3 [ id3_text id ↦ when (id ==bytes frame_id) e.key | _ ↦ none ]) vocab

unfoldable pub id3_txxx_to_key : Bytes → Option Bytes
id3_txxx_to_key description =
    find_map
      (λ e. elim e.id3 [ id3_txxx d ↦ when (eq_ignore_ascii_case d description) e.key | _ ↦ none ])
      vocab

unfoldable pub key_to_id3 : Bytes → Option Id3Slot
key_to_id3 key = elim (find_key key) [ some e ↦ some e.id3 | none ↦ none ]

unfoldable pub mp4_atom_to_key : Bytes → Option Bytes
mp4_atom_to_key atom =
    find_map (λ e. elim e.mp4 [ mp4_text a ↦ when (a ==bytes atom) e.key | _ ↦ none ]) vocab

unfoldable pub mp4_integer_atom_to_key : Bytes → Option Bytes
mp4_integer_atom_to_key atom =
    find_map (λ e. elim e.mp4 [ mp4_integer a width ↦ when (a ==bytes atom) e.key | _ ↦ none ])
      vocab

unfoldable pub mp4_freeform_to_key : Bytes → Bytes → Option Bytes
mp4_freeform_to_key mean name =
    find_map
      (λ e. elim e.mp4 [
        | mp4_freeform m n ↦ when (eq_ignore_ascii_case m mean && eq_ignore_ascii_case n name) e.key
        | _ ↦ none
      ])
      vocab

unfoldable pub key_to_mp4 : Bytes → Option Mp4Slot
key_to_mp4 key = elim (find_key key) [ some e ↦ some e.mp4 | none ↦ none ]

unfoldable pub vorbis_to_key : Bytes → Option Bytes
vorbis_to_key field = find_map (λ e. when (eq_ignore_ascii_case e.vorbis field) e.key) vocab

unfoldable pub key_to_vorbis : Bytes → Option Bytes
key_to_vorbis key = elim (find_key key) [ some e ↦ some e.vorbis | none ↦ none ]
