-- ===== src/Format/Tagmap/Names.antt =====
-- The names of the vocabulary, in every container, are read back as the key they stand for.
use musefs.Base.{
  ◌≡◌, refl, inl, inr, Bool, true, Bool-cases, none, some, some-inj, List, [], ◌∷◌, All,
  if◌then◌else◌,
}
use musefs.Base.Compare.{◌==bytes◌, ==bytes_iff}
use musefs.Base.Words.{Bytes}
use musefs.Format.Tagmap.{
  Id3Slot, id3_text, id3_txxx, id3_comment, id3_lyrics, Mp4Slot, mp4_text, mp4_number, mp4_integer,
  mp4_freeform, Entry, vocab, to_ascii_lowercase, eq_ignore_ascii_case, find_map, find_key,
  id3_text_to_key, id3_txxx_to_key, key_to_id3, mp4_atom_to_key, mp4_integer_atom_to_key,
  mp4_freeform_to_key, key_to_mp4, vorbis_to_key, key_to_vorbis,
}

-- A slot of an ID3v2 tag that a scan looks up gives the key; comment and lyrics have frames of
-- their own.
abbrev pub Id3Back : Id3Slot → Bytes → Type 0
Id3Back (id3_text id) key = id3_text_to_key id ≡ some key
Id3Back (id3_txxx description) key = id3_txxx_to_key description ≡ some key
Id3Back id3_comment key = Unit
Id3Back id3_lyrics key = Unit

-- The same for MP4, where a scan reads the number atoms by place.
abbrev pub Mp4Back : Mp4Slot → Bytes → Type 0
Mp4Back (mp4_text atom) key = mp4_atom_to_key atom ≡ some key
Mp4Back (mp4_integer atom width) key = mp4_integer_atom_to_key atom ≡ some key
Mp4Back (mp4_freeform mean name) key = mp4_freeform_to_key mean name ≡ some key
Mp4Back (mp4_number atom width) key = Unit

abbrev IsReadBack : Entry → Type 0
IsReadBack e = (vorbis_to_key e.vorbis ≡ some e.key) × Id3Back e.id3 e.key × Mp4Back e.mp4 e.key

vocab-IsReadBack : All IsReadBack vocab
unfolding vocab vorbis_to_key id3_text_to_key id3_txxx_to_key mp4_atom_to_key
    mp4_integer_atom_to_key mp4_freeform_to_key find_map eq_ignore_ascii_case to_ascii_lowercase
    ◌==bytes◌
vocab-IsReadBack = (
  (refl, refl, refl),
  (
    (refl, refl, refl),
    (
      (refl, refl, refl),
      (
        (refl, refl, refl),
        (
          (refl, refl, refl),
          (
            (refl, refl, refl),
            (
              (refl, refl, refl),
              (
                (refl, refl, refl),
                (
                  (refl, refl, tt),
                  (
                    (refl, refl, tt),
                    (
                      (refl, tt, refl),
                      (
                        (refl, tt, refl),
                        (
                          (refl, refl, refl),
                          (
                            (refl, refl, refl),
                            (
                              (refl, refl, refl),
                              (
                                (refl, refl, refl),
                                (
                                  (refl, refl, refl),
                                  (
                                    (refl, refl, refl),
                                    (
                                      (refl, refl, refl),
                                      (
                                        (refl, refl, refl),
                                        (
                                          (refl, refl, refl),
                                          (
                                            (refl, refl, refl),
                                            (
                                              (refl, refl, refl),
                                              ((refl, refl, refl), ((refl, refl, refl), tt)),
                                            ),
                                          ),
                                        ),
                                      ),
                                    ),
                                  ),
                                ),
                              ),
                            ),
                          ),
                        ),
                      ),
                    ),
                  ),
                ),
              ),
            ),
          ),
        ),
      ),
    ),
  ),
)

pub find_map-All :
    (P : Entry → Type 0) (test : Entry → Bool) (es : List Entry) (e : Entry)
    → All P es
    → find_map (λ x. if test x then some x else none) es ≡ some e
    → P e × (test e ≡ true)
unfolding find_map
find_map-All P test [] e h found = cc
find_map-All P test (x ∷ es) e h found = elim (Bool-cases (test x)) [
  | inl here ↦ let same : x ≡ e = some-inj (rw (find_map, here) at found) in rw (← same) (h.0, here)
  | inr there ↦ find_map-All P test es e h.1 (rw (find_map, there) at found)
]

-- A key of the vocabulary, in any case, has in each container a name, and what a scan makes of
-- that name is the key in lower case: the Vorbis field, the ID3v2 text or TXXX frame, and the MP4
-- text, integer or freeform atom.
pub key_to_slots-back :
    (key : Bytes) (e : Entry)
    → find_key key ≡ some e
    → ((key_to_vorbis key ≡ some e.vorbis)
        × (vorbis_to_key e.vorbis ≡ some (to_ascii_lowercase key)))
      × ((key_to_id3 key ≡ some e.id3) × Id3Back e.id3 (to_ascii_lowercase key))
      × ((key_to_mp4 key ≡ some e.mp4) × Mp4Back e.mp4 (to_ascii_lowercase key))
unfolding find_key key_to_vorbis key_to_id3 key_to_mp4
key_to_slots-back key e found =
    let (back, tested) =
      find_map-All IsReadBack (λ x. x.key ==bytes to_ascii_lowercase key) vocab e vocab-IsReadBack
        found in
    let same : e.key ≡ to_ascii_lowercase key =
      (==bytes_iff e.key (to_ascii_lowercase key)).0 tested in
    rw (← same) (
      (rw (key_to_vorbis, found) refl, back.0),
      (rw (key_to_id3, found) refl, back.1),
      (rw (key_to_mp4, found) refl, back.2),
    )
