-- ===== src/Format/Flac/TypeOrder.antt =====
-- `sort_by_type` is the stable sort by block type.
use musefs.Base.{
  ℕ, ◌≤◌, ◌≡◌, refl, ap, ◌∙◌, inl, inr, Bool-cases, false, List, [], ◌∷◌, All, ltb, ltb→lt,
  ltb_false→le, ◌==◌, if◌then◌else◌, arith,
}
use musefs.Format.Flac.{MetadataBlock}
use musefs.Format.Flac.Order.{insert_by_type-All}
use musefs.Format.Flac.Synthesis.{insert_by_type, sort_by_type}

-- The blocks of one type, as they stand.
abbrev pub of_type : ℕ → List MetadataBlock → List MetadataBlock
of_type t [] = []
of_type t (b ∷ bs) = if b.block_type == t then b ∷ of_type t bs else of_type t bs

abbrev pub IsOrdered : List MetadataBlock → Type 0
IsOrdered [] = Unit
IsOrdered (b ∷ bs) = All (λ c. b.block_type ≤ c.block_type) bs × IsOrdered bs

-- The types of `ordered` do not fall, and it has the blocks of each type that `blocks` has, in the
-- same order.
abbrev pub IsTypeOrder : List MetadataBlock → List MetadataBlock → Type 0
IsTypeOrder blocks ordered = IsOrdered ordered × ((t : ℕ) → of_type t ordered ≡ of_type t blocks)

insert_by_type-of_type :
    (t : ℕ) (b : MetadataBlock) (bs : List MetadataBlock)
    → of_type t (insert_by_type b bs) ≡ of_type t (b ∷ bs)
unfolding insert_by_type
insert_by_type-of_type t b [] = refl
insert_by_type-of_type t b (c ∷ cs) = elim (Bool-cases (ltb c.block_type b.block_type)) [
  | inr before ↦ rw (insert_by_type, before) refl
  | inl behind ↦
      let rest = insert_by_type-of_type t b cs in
      elim (Bool-cases (c.block_type == t)) [
        | inl here ↦
            let other : (b.block_type == t) ≡ false = ground arith in
            rw (insert_by_type, behind, here, other) (ap (λ ks. c ∷ ks) (rest ∙ rw other refl))
        | inr there ↦ rw (insert_by_type, behind, there) rest
      ]
]

All-le :
    (m n : ℕ) (bs : List MetadataBlock)
    → m ≤ n
    → All (λ c. n ≤ c.block_type) bs
    → All (λ c. m ≤ c.block_type) bs
All-le m n [] le h = tt
All-le m n (b ∷ bs) le h = (omega (arith, h.0), All-le m n bs le h.1)

insert_by_type-IsOrdered :
    (b : MetadataBlock) (bs : List MetadataBlock) → IsOrdered bs → IsOrdered (insert_by_type b bs)
unfolding insert_by_type
insert_by_type-IsOrdered b [] h = (tt, tt)
insert_by_type-IsOrdered b (c ∷ cs) (least, h) = elim (Bool-cases (ltb c.block_type b.block_type)) [
  | inl behind ↦
      let below = ltb→lt c.block_type b.block_type behind in
      rw (insert_by_type, behind)
        (
          insert_by_type-All (λ d. c.block_type ≤ d.block_type) b cs (omega arith) least,
          insert_by_type-IsOrdered b cs h,
        )
  | inr before ↦
      let above = ltb_false→le c.block_type b.block_type before in
      rw (insert_by_type, before)
        ((above, All-le b.block_type c.block_type cs above least), (least, h))
]

pub sort_by_type-IsTypeOrder :
    (blocks : List MetadataBlock) → IsTypeOrder blocks (sort_by_type blocks)
unfolding sort_by_type
sort_by_type-IsTypeOrder [] = (tt, λ t. refl)
sort_by_type-IsTypeOrder (b ∷ bs) =
    let (ordered, same) = sort_by_type-IsTypeOrder bs in
    (
      insert_by_type-IsOrdered b (sort_by_type bs) ordered,
      λ t.
          insert_by_type-of_type t b (sort_by_type bs)
          ∙ ap (λ ks. if b.block_type == t then b ∷ ks else ks) (same t),
    )
