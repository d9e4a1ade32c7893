-- ===== src/Tests/Comments.antt =====
-- VorbisComment bodies and UTF-8.
use musefs.Base.{◌≡◌, refl, true, false, List, [], ◌∷◌, ◌++◌, map, All}
use musefs.Base.Compare.{ascii, ◌==bytes◌}
use musefs.Base.Utf8.{is_utf8, utf8_from, lead}
use musefs.Base.Words.{Bytes}
use musefs.Base.Results.{ok}
use musefs.Format.Input.{TagInput}
use musefs.Format.Tagmap.{
  find_key, find_map, key_to_vorbis, vocab, to_ascii_lowercase, to_ascii_uppercase,
}
use musefs.Format.VorbisComment.{
  all_legal, is_valid_key, valid_tags, comment_of, push_text, push_comments, build, parse,
}
use musefs.Format.VorbisComment.RoundTrip.{pair_of, parse-build}

-- A two-byte, a three-byte and a four-byte sequence, an overlong one and a surrogate.
utf8_accepts : is_utf8 (0xc3 ∷ 0xa9 ∷ 0xe2 ∷ 0x82 ∷ 0xac ∷ 0xf0 ∷ 0x9f ∷ 0x8e ∷ 0xb5 ∷ []) ≡ true
unfolding is_utf8 utf8_from lead
utf8_accepts = refl

utf8_refuses_overlong : is_utf8 (0xc0 ∷ 0xaf ∷ []) ≡ false
unfolding is_utf8 utf8_from lead
utf8_refuses_overlong = refl

utf8_refuses_surrogate : is_utf8 (0xed ∷ 0xa0 ∷ 0x80 ∷ []) ≡ false
unfolding is_utf8 utf8_from lead
utf8_refuses_surrogate = refl

abbrev tags : List TagInput
tags =
    record { key = ascii "artist"; value = 0xc3 ∷ 0xa9 ∷ [] }
    ∷ record { key = ascii "a=b"; value = ascii "c" }
    ∷ record { key = ascii "mood"; value = ascii "a=b" }
    ∷ []

abbrev body : Bytes
body =
    (6 ∷ 0 ∷ 0 ∷ 0 ∷ ascii "musefs")
    ++ ((2 ∷ 0 ∷ 0 ∷ 0 ∷ [])
        ++ ((9 ∷ 0 ∷ 0 ∷ 0 ∷ (ascii "ARTIST=" ++ (0xc3 ∷ 0xa9 ∷ [])))
            ++ (8 ∷ 0 ∷ 0 ∷ 0 ∷ ascii "MOOD=a=b")))

tags_built : build tags ≡ ok body
unfolding build push_text push_comments comment_of valid_tags is_valid_key all_legal key_to_vorbis
    find_key find_map vocab to_ascii_lowercase to_ascii_uppercase ◌==bytes◌
tags_built = refl

tags_utf8 : All (λ t. is_utf8 t.value ≡ true) tags
unfolding is_utf8 utf8_from lead
tags_utf8 = (refl, (refl, (refl, tt)))

parse-build_example : parse body ≡ ok (map pair_of (valid_tags tags))
parse-build_example = parse-build tags body tags_utf8 tags_built
