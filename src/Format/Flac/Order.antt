-- ===== src/Format/Flac/Order.antt =====
-- The order of the structural blocks in a synthesized file: the one STREAMINFO comes first.
use musefs.Base.{
  ◌≤◌, ◌≡◌, refl, sym, ap, subst, ◌∙◌, inl, inr, Bool-cases, true, false, List, [], ◌∷◌, length,
  All, ltb, ◌==◌, arith,
}
use musefs.Format.Flac.{MetadataBlock, block_streaminfo, streaminfo_body_len}
use musefs.Format.Flac.RoundTrip.{IsSequence}
use musefs.Format.Flac.Synthesis.{streaminfo_of, has_one_streaminfo, insert_by_type, sort_by_type}

abbrev IsLater : MetadataBlock → Type 0
IsLater b = 1 ≤ b.block_type

-- Inserting keeps what holds of every block.
pub insert_by_type-All :
    (P : MetadataBlock → Type 0) (b : MetadataBlock) (bs : List MetadataBlock)
    → P b
    → All P bs
    → All P (insert_by_type b bs)
unfolding insert_by_type
insert_by_type-All P b [] p ps = (p, ps)
insert_by_type-All P b (c ∷ cs) p ps = elim (Bool-cases (ltb c.block_type b.block_type)) [
  | inl behind ↦ rw (insert_by_type, behind) (ps.0, insert_by_type-All P b cs p ps.1)
  | inr before ↦ rw (insert_by_type, before) (p, ps)
]

pub sort_by_type-All :
    (P : MetadataBlock → Type 0) (bs : List MetadataBlock) → All P bs → All P (sort_by_type bs)
unfolding sort_by_type
sort_by_type-All P [] ps = tt
sort_by_type-All P (b ∷ bs) ps =
    insert_by_type-All P b (sort_by_type bs) ps.0 (sort_by_type-All P bs ps.1)

no_streaminfo : (bs : List MetadataBlock) → streaminfo_of bs ≡ [] → All IsLater bs
unfolding streaminfo_of
no_streaminfo [] h = tt
no_streaminfo (b ∷ bs) h = elim (Bool-cases (b.block_type == block_streaminfo)) [
  | inl here ↦ cc (rw (streaminfo_of, here) at h)
  | inr there ↦ (ground arith, no_streaminfo bs (rw (streaminfo_of, there) at h))
]

insert_by_type-first :
    (b : MetadataBlock) (bs : List MetadataBlock)
    → b.block_type ≡ 0
    → All IsLater bs
    → insert_by_type b bs ≡ b ∷ bs
unfolding insert_by_type
insert_by_type-first b [] first later = refl
insert_by_type-first b (c ∷ cs) first later =
    let not_less : ltb c.block_type b.block_type ≡ false = ground (arith, later.0) in
    rw (insert_by_type, not_less) refl

-- The sorted blocks start with the STREAMINFO block if there is one, of the right size.
pub sort_by_type-first :
    (bs : List MetadataBlock) (s : MetadataBlock)
    → streaminfo_of bs ≡ s ∷ []
    → (rest : List MetadataBlock) × (sort_by_type bs ≡ s ∷ rest)
      × (s.block_type ≡ 0)
      × All IsLater rest
unfolding sort_by_type streaminfo_of insert_by_type
sort_by_type-first [] s h = absurd (cc)
sort_by_type-first (b ∷ bs) s h = elim (Bool-cases (b.block_type == block_streaminfo)) [
  | inl here ↦
      let h' = rw (streaminfo_of, here) at h in
      let same : b ≡ s = cc in
      let no_more : streaminfo_of bs ≡ [] = cc in
      let zero_type : b.block_type ≡ 0 = ground arith in
      let later = sort_by_type-All IsLater bs (no_streaminfo bs no_more) in
      (
        sort_by_type bs,
        insert_by_type-first b (sort_by_type bs) zero_type later
            ∙ ap (λ x. x ∷ sort_by_type bs) same,
        rw (← same) zero_type,
        later,
      )
  | inr there ↦
      let (rest, sorted, first, later) = sort_by_type-first bs s (rw (streaminfo_of, there) at h) in
      let less : ltb s.block_type b.block_type ≡ true = ground arith in
      (
        insert_by_type b rest,
        rw (sort_by_type, sorted, insert_by_type, less) refl,
        first,
        insert_by_type-All IsLater b rest (ground arith) later,
      )
]

has_one_streaminfo-is :
    (found : List MetadataBlock)
    → has_one_streaminfo found ≡ true
    → (s : MetadataBlock) × (found ≡ s ∷ []) × (length s.body ≡ streaminfo_body_len)
unfolding has_one_streaminfo
has_one_streaminfo-is [] h = absurd (cc)
has_one_streaminfo-is (s ∷ []) h = (s, refl, ground arith)
has_one_streaminfo-is (s ∷ t ∷ bs) h = absurd (cc)

-- Blocks that pass the first test of `synthesize_layout`, sorted by type, follow the rule of the
-- format that STREAMINFO comes first, once, with 34 bytes.
pub sort_by_type-IsSequence :
    (structural : List MetadataBlock)
    → has_one_streaminfo (streaminfo_of structural) ≡ true
    → IsSequence (sort_by_type structural)
sort_by_type-IsSequence structural h =
    let (s, found, size) = has_one_streaminfo-is (streaminfo_of structural) h in
    let (rest, sorted, first, later) = sort_by_type-first structural s found in
    subst IsSequence (sym sorted) (first, size, later)
