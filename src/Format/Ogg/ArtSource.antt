-- ===== src/Format/Ogg/ArtSource.antt =====
-- musefs-format/src/ogg/art_source.rs: where synthesis reads raw art bytes, and the source in memory.
use musefs.Base.{
  ℕ, ◌+◌, ◌≤◌, ◌≡◌, refl, ◌&&◌, true, Option, none, some, List, [], ◌∷◌, length, leb, All,
  Option-cases, some-inj, subst, ◌∙◌, inl, inr, Bool-cases, arith, if◌then◌else◌,
}
use musefs.Base.Int.{ℤ, ◌==ℤ◌}
use musefs.Base.Slices.{slice}
use musefs.Base.Words.{Bytes, u64_max}
use musefs.Base.Results.{ok, ok_or, guard, ◌>>=◌, ◌>>◌}
use musefs.Format.Error.{FormatResult, art_read}

-- `read_window` takes the row, the offset and the length of the buffer. Beside it stands the encoder
-- of the base64 crate.
pub record ArtSource : Type 0 where
  pub encode : Bytes → Bytes
  pub read_window : ℤ → ℕ → ℕ → FormatResult Bytes

-- The map of `MapArtSource`, collected from pairs: a later pair of an id wins.
unfoldable pub get : List (ℤ × Bytes) → ℤ → Option Bytes
get [] id = none
get ((k, img) ∷ images) id = elim (get images id) [
  | some later ↦ some later
  | none ↦ if k ==ℤ id then some img else none
]

-- `MapArtSource::read_window` on a 64-bit target.
unfoldable pub read_window : List (ℤ × Bytes) → ℤ → ℕ → ℕ → FormatResult Bytes
read_window images art_id offset n = do
  img ← ok_or (get images art_id) (art_read art_id)
  guard (leb offset (length img)) (art_read art_id)
  guard (leb (offset + n) u64_max && leb (offset + n) (length img)) (art_read art_id)
  ok (slice img offset n)

pub read_window-slice :
    (images : List (ℤ × Bytes)) (id : ℤ) (img : Bytes) (offset n : ℕ)
    → get images id ≡ some img
    → offset + n ≤ length img
    → length img ≤ u64_max
    → read_window images id offset n ≡ ok (slice img offset n)
unfolding read_window
read_window-slice images id img offset n found fits word =
    let starts : leb offset (length img) ≡ true = ground arith in
    let small : leb (offset + n) u64_max ≡ true = ground arith in
    let ends : leb (offset + n) (length img) ≡ true = ground arith in
    rw (read_window, found, starts, small, ends) refl

-- The images that fit in memory.
abbrev pub AllSmall : List (ℤ × Bytes) → Type 0
AllSmall = All (λ entry. length entry.1 ≤ u64_max)

pub get-AllSmall :
    (images : List (ℤ × Bytes)) (id : ℤ) (img : Bytes)
    → AllSmall images
    → get images id ≡ some img
    → length img ≤ u64_max
unfolding get
get-AllSmall [] id img small found = cc
get-AllSmall ((k, bytes) ∷ images) id img small found = elim (Option-cases (get images id)) [
  | inr (later, is) ↦
      let same : get images id ≡ some img = is ∙ rw (get, is) at found in
      get-AllSmall images id img small.1 same
  | inl no_later ↦ elim (Bool-cases (k ==ℤ id)) [
    | inl here ↦
        let same : some bytes ≡ some img = rw (get, no_later, here) at found in
        subst (λ b. length b ≤ u64_max) (some-inj same) small.0
    | inr other ↦ let none_is : none ≡ some img = rw (get, no_later, other) at found in cc
  ]
]

abbrev pub map_source : (Bytes → Bytes) → List (ℤ × Bytes) → ArtSource
map_source encode images = record { encode = encode; read_window = read_window images }
