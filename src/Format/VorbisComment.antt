-- ===== src/Format/VorbisComment.antt =====
-- musefs-format/src/vorbiscomment.rs: the body of a VorbisComment, built from tags and
-- parsed.
pub mod Fields
pub mod RoundTrip
use musefs.Base.{
  ℕ, zero, suc, ◌+◌, ltb, Option, Bool, true, not, ◌&&◌, none, some, List, [], ◌∷◌, ◌++◌, length,
  leb, ◌==◌, if◌then◌else◌,
}
use musefs.Base.Compare.{ascii, ◌==bytes◌}
use musefs.Base.Words.{Bytes, try_u32, to_le_bytes}
use musefs.Base.Slices.{slice}
use musefs.Base.Utf8.{is_utf8}
use musefs.Base.Results.{ok, ok_or, guard, ◌>>=◌, ◌>>◌}
use musefs.Format.Bytes.{read_u32_le}
use musefs.Format.Error.{FormatResult, malformed, too_large}
use musefs.Format.Input.{TagInput}
use musefs.Format.Tagmap.{key_to_vorbis, vorbis_to_key, to_ascii_uppercase}

abbrev pub vendor : Bytes
vendor = ascii "musefs"

unfoldable pub all_legal : Bytes → Bool
all_legal [] = true
all_legal (b ∷ bs) = (leb 0x20 b && leb b 0x7d && not (b == 0x3d)) && all_legal bs

unfoldable pub is_valid_key : Bytes → Bool
is_valid_key key = not (key ==bytes []) && all_legal key

-- `tags.iter().filter(|t| is_valid_key(&t.key))`
unfoldable pub valid_tags : List TagInput → List TagInput
valid_tags [] = []
valid_tags (t ∷ ts) = let rest = valid_tags ts in if is_valid_key t.key then t ∷ rest else rest

unfoldable pub comment_of : TagInput → Bytes
comment_of t =
    elim (key_to_vorbis t.key) [ some field ↦ field | none ↦ to_ascii_uppercase t.key ]
    ++ (ascii "=" ++ t.value)

-- A length of four bytes and the bytes behind it, as `build` writes each text.
unfoldable pub push_text : Bytes → Bytes → FormatResult Bytes
push_text out text = do
  len ← ok_or (try_u32 (length text)) too_large
  ok (out ++ (to_le_bytes 4 len ++ text))

unfoldable pub push_comments : Bytes → List TagInput → FormatResult Bytes
push_comments out [] = ok out
push_comments out (t ∷ ts) = do next ← push_text out (comment_of t); push_comments next ts

unfoldable pub build : List TagInput → FormatResult Bytes
build tags = do
  out ← push_text [] vendor
  let valid = valid_tags tags
  count ← ok_or (try_u32 (length valid)) too_large
  push_comments (out ++ to_le_bytes 4 count) valid

-- `split_once('=')`
unfoldable pub split_once : Bytes → Option (Bytes × Bytes)
split_once [] = none
split_once (b ∷ bs) =
    let rest = split_once bs in
    if b == 0x3d
    then some ([], bs)
    else elim rest [ some (field, value) ↦ some (b ∷ field, value) | none ↦ none ]

-- `vorbis_to_key(field).map_or_else(|| field.to_string(), str::to_string)`
unfoldable pub canonical_key : Bytes → Bytes
canonical_key field = elim (vorbis_to_key field) [ some key ↦ key | none ↦ field ]

-- What a comment adds to the tags.
unfoldable pub entry_of : Bytes → List (Bytes × Bytes)
entry_of comment = elim (split_once comment) [
  | none ↦ []
  | some (field, value) ↦ if field ==bytes [] then [] else (canonical_key field, value) ∷ []
]

-- A round of the loop of `parse`: what the comment at `pos` adds, and where the next one starts.
unfoldable pub read_comment : Bytes → ℕ → FormatResult (List (Bytes × Bytes) × ℕ)
read_comment body pos = do
  clen ← read_u32_le body pos
  guard (not (ltb (length body) (pos + 4 + clen))) malformed
  let comment = slice body (pos + 4) clen
  guard (is_utf8 comment) malformed
  ok (entry_of comment, pos + 4 + clen)

unfoldable pub parse_comments :
    ℕ → Bytes → ℕ → List (Bytes × Bytes) → FormatResult (List (Bytes × Bytes))
parse_comments zero body pos out = ok out
parse_comments (suc count) body pos out = do
  (entries, next) ← read_comment body pos
  parse_comments count body next (out ++ entries)

unfoldable pub parse : Bytes → FormatResult (List (Bytes × Bytes))
parse body = do
  vendor_len ← read_u32_le body 0
  count ← read_u32_le body (4 + vendor_len)
  parse_comments count body (4 + vendor_len + 4) []
