-- ===== src/Format/VorbisComment/Fields.antt =====
-- The field names that `build` writes: legal, and found again in front of the `=`.
use musefs.Base.{
  ℕ, ◌-◌, ◌<◌, ◌≡◌, refl, ap, ◌∙◌, inl, inr, Bool, true, false, not, ◌&&◌, Option-cases, none, some,
  [], ◌∷◌, ◌++◌, All, leb, ◌==◌, if◌then◌else◌, arith,
}
use musefs.Base.Check.{every, every-All}
use musefs.Base.Compare.{ascii, ◌==bytes◌}
use musefs.Base.Utf8.{is_utf8, is_utf8-ascii_append}
use musefs.Base.Words.{Bytes}
use musefs.Format.Input.{TagInput}
use musefs.Format.Tagmap.{vocab, find_key, key_to_vorbis, to_ascii_lowercase, to_ascii_uppercase}
use musefs.Format.Tagmap.Names.{find_map-All}
use musefs.Format.VorbisComment.{
  all_legal, is_valid_key, comment_of, split_once, canonical_key, entry_of,
}

-- The field name of a tag.
abbrev pub field_of : TagInput → Bytes
field_of t = elim (key_to_vorbis t.key) [ some field ↦ field | none ↦ to_ascii_uppercase t.key ]

vocab-legal : every (λ e. is_valid_key e.vorbis) vocab ≡ true
unfolding every vocab is_valid_key all_legal ◌==bytes◌
vocab-legal = refl

-- One letter of a legal name.
abbrev is_legal : ℕ → Bool
is_legal b = leb 0x20 b && leb b 0x7d && not (b == 0x3d)

is_legal-bounds : (b : ℕ) → is_legal b ≡ true → (b < 128) × ((b == 0x3d) ≡ false)
is_legal-bounds b h = ground arith

abbrev upper : ℕ → ℕ
upper b = if leb 0x61 b && leb b 0x7a then b - 32 else b

is_legal-upper : (b : ℕ) → is_legal b ≡ true → is_legal (upper b) ≡ true
is_legal-upper b h = ground arith

conjuncts : (a b : Bool) → (a && b) ≡ true → (a ≡ true) × (b ≡ true)
conjuncts true b h = (refl, h)
conjuncts false b h = cc

refuted : (b : Bool) → not b ≡ true → b ≡ false
refuted true h = cc
refuted false h = refl

all_legal-upper : (key : Bytes) → all_legal key ≡ true → all_legal (to_ascii_uppercase key) ≡ true
unfolding all_legal to_ascii_uppercase
all_legal-upper [] h = refl
all_legal-upper (b ∷ bs) h =
    let (here, rest) = conjuncts (is_legal b) (all_legal bs) h in
    let here' = is_legal-upper b here in
    ap (λ t. t && all_legal (to_ascii_uppercase bs)) here' ∙ all_legal-upper bs rest

is_valid_key-upper :
    (key : Bytes) → is_valid_key key ≡ true → is_valid_key (to_ascii_uppercase key) ≡ true
unfolding is_valid_key to_ascii_uppercase ◌==bytes◌
is_valid_key-upper [] h = cc
is_valid_key-upper (b ∷ bs) h = all_legal-upper (b ∷ bs) h

pub field_of-valid : (t : TagInput) → is_valid_key t.key ≡ true → is_valid_key (field_of t) ≡ true
unfolding key_to_vorbis find_key
field_of-valid t h = elim (Option-cases (find_key t.key)) [
  | inl unknown ↦ rw (field_of, key_to_vorbis, unknown) (is_valid_key-upper t.key h)
  | inr (e, found) ↦
      rw (field_of, key_to_vorbis, found)
        (find_map-All (λ x. is_valid_key x.vorbis ≡ true)
          (λ x. x.key ==bytes to_ascii_lowercase t.key) vocab e
          (every-All (λ x. is_valid_key x.vorbis ≡ true) (λ x. is_valid_key x.vorbis) vocab
            (λ x legal. legal) vocab-legal)
          found).0
]

all_legal-ascii : (bs : Bytes) → all_legal bs ≡ true → All (λ b. b < 128) bs
unfolding all_legal
all_legal-ascii [] h = tt
all_legal-ascii (b ∷ bs) h =
    let (here, rest) = conjuncts (is_legal b) (all_legal bs) h in
    ((is_legal-bounds b here).0, all_legal-ascii bs rest)

split_once-legal :
    (field value : Bytes)
    → all_legal field ≡ true
    → split_once (field ++ (ascii "=" ++ value)) ≡ some (field, value)
unfolding all_legal split_once
split_once-legal [] value h = refl
split_once-legal (b ∷ field) value h =
    let (here, rest) = conjuncts (is_legal b) (all_legal field) h in
    let (low, other) = is_legal-bounds b here in
    let behind = split_once-legal field value rest in rw (split_once, other, behind) refl

module _ (t : TagInput) (valid : is_valid_key t.key ≡ true) where
  field-parts : (not (field_of t ==bytes []) ≡ true) × (all_legal (field_of t) ≡ true)
  unfolding is_valid_key
  field-parts = conjuncts _ _ (field_of-valid t valid)

  -- What is parsed of the comment of a tag with a valid key.
  pub entry_of-comment_of : entry_of (comment_of t) ≡ (canonical_key (field_of t), t.value) ∷ []
  unfolding entry_of comment_of
  entry_of-comment_of =
      let split = split_once-legal (field_of t) t.value field-parts.1 in
      let named : (field_of t ==bytes []) ≡ false = refuted _ field-parts.0 in
      rw (entry_of, comment_of, split, named) refl

  pub is_utf8-comment_of : is_utf8 (comment_of t) ≡ is_utf8 t.value
  unfolding comment_of
  is_utf8-comment_of =
      is_utf8-ascii_append (field_of t) (ascii "=" ++ t.value)
        (all_legal-ascii (field_of t) field-parts.1)
      ∙ is_utf8-ascii_append (ascii "=") t.value (omega arith, tt)
