-- ===== src/Core/Reader/FlacKinds.antt =====
-- The types of the blocks that stand behind the structural ones in a synthesized FLAC file, and which
-- of them a scan keeps.
use musefs.Base.{
  ℕ, suc, ◌≤◌, ◌≡◌, refl, ap, ◌⊎◌, inl, inr, Bool, Bool-cases, true, false, some, List, [], ◌∷◌,
  ◌++◌, length, All, All-append, arith,
}
use musefs.Base.Compare.{ascii, ◌==bytes◌}
use musefs.Base.Words.{Bytes}
use musefs.Base.Results.{Result, ok, err, guard, map_err}
use musefs.Format.Flac.{MetadataBlock, block_picture, block_application, block_cuesheet}
use musefs.Format.Flac.Readers.{is_preserved}
use musefs.Format.Flac.RoundTrip.{preserved_of, IsSequence}
use musefs.Format.Flac.Stream.{stream, IsBlock}
use musefs.Format.Flac.Synthesis.{max_block_body, binary_block_type}
use musefs.Core.Reader.FlacFront.{stream_from, stream_from-stream}

pub guard-IsOk : {E : Type 0} (test : Bool) (e : E) (u : Unit) → guard test e ≡ ok u → test ≡ true
guard-IsOk true e u h = refl
guard-IsOk false e u h = cc

pub map_err-IsOk :
    {E F A : Type 0} (f : E → F) (r : Result E A) (a : A) → map_err f r ≡ ok a → r ≡ ok a
map_err-IsOk f (ok b) a h = cc
map_err-IsOk f (err e) a h = cc

abbrev pub IsTyped : MetadataBlock → Type 0
IsTyped k = (1 ≤ k.block_type) × (k.block_type ≤ 6)

pub preserved_of-append :
    (xs ys : List MetadataBlock) → preserved_of (xs ++ ys) ≡ preserved_of xs ++ preserved_of ys
preserved_of-append [] ys = refl
preserved_of-append (x ∷ xs) ys = elim (Bool-cases (is_preserved x.block_type)) [
  | inl keeps ↦ rw keeps (ap (λ t. x ∷ t) (preserved_of-append xs ys))
  | inr drops ↦ rw drops (preserved_of-append xs ys)
]

pub binary_block_type-cases :
    (key : Bytes) (t : ℕ)
    → binary_block_type key ≡ some t
    → (t ≡ block_application) ⊎ (t ≡ block_cuesheet)
unfolding binary_block_type
binary_block_type-cases key t h = elim (Bool-cases (key ==bytes ascii "APPLICATION")) [
  | inl app ↦ inl (cc (rw (binary_block_type, app) at h))
  | inr other ↦ elim (Bool-cases (key ==bytes ascii "CUESHEET")) [
    | inl cue ↦ inr (cc (rw (binary_block_type, other, cue) at h))
    | inr unknown ↦ absurd (cc (rw (binary_block_type, other, unknown) at h))
  ]
]

pub IsSequence-append :
    (xs ys : List MetadataBlock) → IsSequence xs → All IsTyped ys → IsSequence (xs ++ ys)
IsSequence-append [] ys h typed = absurd h
IsSequence-append (x ∷ xs) ys (first, size, later) typed =
    (first, size, All-append (λ k. 1 ≤ k.block_type) xs ys later (later_of ys typed))
  where
    later_of : (zs : List MetadataBlock) → All IsTyped zs → All (λ k. 1 ≤ k.block_type) zs
    later_of [] h = tt
    later_of (z ∷ zs) h = (h.0.0, later_of zs h.1)

pub All-IsBlock :
    (ks : List MetadataBlock)
    → All (λ k. k.block_type ≤ 6) ks
    → All (λ k. length k.body ≤ max_block_body) ks
    → All IsBlock ks
All-IsBlock [] types sizes = tt
All-IsBlock (k ∷ ks) types sizes = ((types.0, sizes.0), All-IsBlock ks types.1 sizes.1)

pub typed-le : (ks : List MetadataBlock) → All IsTyped ks → All (λ k. k.block_type ≤ 6) ks
typed-le [] h = tt
typed-le (k ∷ ks) h = (h.0.1, typed-le ks h.1)

pub pictures-IsTyped :
    (ks : List MetadataBlock) → All (λ k. k.block_type ≡ block_picture) ks → All IsTyped ks
pictures-IsTyped [] h = tt
pictures-IsTyped (k ∷ ks) h = ((omega (arith, h.0), omega (arith, h.0)), pictures-IsTyped ks h.1)

pub preserved_of-pictures :
    (ks : List MetadataBlock) → All (λ k. k.block_type ≡ block_picture) ks → preserved_of ks ≡ []
unfolding is_preserved
preserved_of-pictures [] h = refl
preserved_of-pictures (k ∷ ks) h = rw h.0 (preserved_of-pictures ks h.1)

pub stream_from-whole :
    (last_index : ℕ) (ks : List MetadataBlock)
    → length ks ≡ suc last_index
    → stream_from last_index 0 ks ≡ stream ks
stream_from-whole last_index [] h = absurd (omega arith)
stream_from-whole last_index (k ∷ ks) h = stream_from-stream last_index 0 k ks (omega arith)

pub length-zero : (xs : Bytes) → length xs ≡ 0 → xs ≡ []
length-zero [] h = refl
length-zero (x ∷ xs) h = absurd (omega arith)
