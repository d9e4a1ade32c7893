-- ===== src/Format/Id3v2.antt =====
-- musefs-format/src/id3v2.rs: where the ID3v2 tags at the front of a file end. An index
-- stands behind the length test of the source.
pub mod Extents
use musefs.Base.{
  ℕ, zero, suc, ◌+◌, ◌*◌, ◌%◌, Bool, true, false, not, ◌&&◌, ◌||◌, Option, none, some, List, [],
  ◌∷◌, length, take, drop, get_or, bit_and, ltb, leb, ◌==◌, if◌then◌else◌,
}
use musefs.Base.Compare.{ascii, ◌==bytes◌}
use musefs.Base.Slices.{slice}
use musefs.Base.Words.{Bytes}
use musefs.Base.Results.{ok, err, ◌>>=◌}
use musefs.Format.Error.{FormatResult, malformed, Extent, complete, need_more}

abbrev pub header_len : ℕ
header_len = 10

abbrev pub footer_len : ℕ
footer_len = 10

abbrev pub max_leading_tags : ℕ
max_leading_tags = 64

abbrev byte : Bytes → ℕ → ℕ
byte bs i = get_or bs i 0

-- The four groups of seven bits do not overlap, so that `|` is a sum.
unfoldable pub synchsafe_decode : Bytes → ℕ
synchsafe_decode b =
    bit_and (byte b 0) 0x7f * 2097152
    + bit_and (byte b 1) 0x7f * 16384
    + bit_and (byte b 2) 0x7f * 128
    + bit_and (byte b 3) 0x7f

unfoldable pub starts_with_tag : Bytes → Bool
starts_with_tag bs = leb 3 (length bs) && take 3 bs ==bytes ascii "ID3"

-- `.iter().any(|&b| b & 0x80 != 0)`
unfoldable pub any_high_bit : Bytes → Bool
any_high_bit [] = false
any_high_bit (b ∷ bs) = not (bit_and b 0x80 == 0) || any_high_bit bs

unfoldable pub body_end : Bytes → FormatResult (Option ℕ)
unfolding synchsafe_decode any_high_bit
body_end bs =
    if ltb (length bs) header_len || not (take 3 bs ==bytes ascii "ID3")
    then ok none
    else if byte bs 3 == 0xff || byte bs 4 == 0xff
    then err malformed
    else if any_high_bit (slice bs 6 4)
    then err malformed
    else ok (some (header_len + synchsafe_decode (slice bs 6 4)))

unfoldable pub frames_are_parseable : Bytes → Bool
frames_are_parseable bs = leb header_len (length bs) && leb 2 (byte bs 3) && leb (byte bs 3) 4

unfoldable pub has_footer : Bytes → Bool
has_footer bs = byte bs 3 == 4 && not (bit_and (byte bs 5) 0x10 == 0)

unfoldable pub total_len : Bytes → FormatResult (Option ℕ)
unfolding has_footer
total_len bs = do
  found ← body_end bs
  elim found [
    | none ↦ ok none
    | some end ↦ ok (some (if has_footer bs then end + footer_len else end))
  ]

-- The loop `for _ in 0..MAX_LEADING_TAGS`, on the rounds left.
unfoldable pub leading_tags_loop : ℕ → Bytes → ℕ → FormatResult (Extent ℕ)
leading_tags_loop zero bs off = err malformed
leading_tags_loop (suc rounds) bs off =
    let rest = drop off bs in
    elim (starts_with_tag rest) [
      | false ↦ ok (complete off)
      | true ↦ elim (ltb (length rest) header_len) [
        | true ↦ ok (need_more (off + header_len))
        | false ↦ elim (total_len rest) [
          | err e ↦ err e
          | ok none ↦ ok (complete off)
          | ok (some len) ↦ elim (ltb (length bs) (off + len)) [
            | true ↦ ok (need_more (off + len))
            | false ↦ leading_tags_loop rounds bs (off + len)
          ]
        ]
      ]
    ]

unfoldable pub leading_tags_len : Bytes → FormatResult (Extent ℕ)
leading_tags_len bs = leading_tags_loop max_leading_tags bs 0
