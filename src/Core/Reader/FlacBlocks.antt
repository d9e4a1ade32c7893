-- ===== src/Core/Reader/FlacBlocks.antt =====
-- The blocks that the binary tags and the images of a synthesized FLAC file become.
use musefs.Base.{
  ℕ, suc, ◌+◌, ◌≡◌, refl, sym, ap, ◌∙◌, inl, inr, none, some, List, [], ◌∷◌, ◌++◌, append-nil,
  length, All, leb, ◌==◌, arith, Option-cases,
}
use musefs.Base.Results.{ok, guard, ◌>>=◌, ◌>>◌, bind-IsOk, ok-inj}
use musefs.Format.Base64.{Base64}
use musefs.Format.Bytes.{checked_add}
use musefs.Format.Error.{too_large}
use musefs.Format.Flac.{MetadataBlock, block_picture}
use musefs.Format.Flac.Synthesis.{
  max_block_body, push_block_header, Building, binary_block_type, flush_with, push_binary_tag,
  push_binary_tags, push_art, push_arts, picture_body_framing,
}
use musefs.Format.Input.{ArtInput, BinaryTagInput}
use musefs.Format.Layout.{seg_len, Segment, art_image, binary_tag}
use musefs.Core.Reader.FlacFront.{written, Pushes, Pushes-none, Pushes-more, flush_with-writes}
use musefs.Core.Reader.Rendering.{Contents, render_segment, IsAvailable, length-render_segment}

module _ (base64 : Base64) (c : Contents) where
  abbrev tag_segment : BinaryTagInput → Segment
  tag_segment bt = binary_tag bt.payload_id bt.len

  -- The blocks of the binary tags, with the payloads of the database.
  abbrev pub tag_blocks : List BinaryTagInput → List MetadataBlock
  tag_blocks [] = []
  tag_blocks (bt ∷ bts) = elim (binary_block_type bt.key) [
    | none ↦ tag_blocks bts
    | some t ↦
        record { block_type = t; body = render_segment base64 c (tag_segment bt) } ∷ tag_blocks bts
  ]

  abbrev pub IsTagAvailable : BinaryTagInput → Type 0
  IsTagAvailable bt = IsAvailable base64 c (tag_segment bt)

  pub push_binary_tags-Pushes :
      (last_index : ℕ) (b next : Building) (bts : List BinaryTagInput)
      → All IsTagAvailable bts
      → push_binary_tags last_index b bts ≡ ok next
      → Pushes base64 c last_index b next (tag_blocks bts)
  unfolding push_binary_tags push_binary_tag flush_with seg_len
  push_binary_tags-Pushes last_index b next [] av h =
      rw (← ok-inj h) (Pushes-none base64 c last_index b)
  push_binary_tags-Pushes last_index b next (bt ∷ bts) av h =
      elim (Option-cases (binary_block_type bt.key)) [
        | inl other ↦
            rw (tag_blocks, other)
              (push_binary_tags-Pushes last_index b next bts av.1
                (rw (push_binary_tags, push_binary_tag, other) at h))
        | inr (t, known) ↦
            let h' = rw (push_binary_tags, push_binary_tag, known) at h in
            let (mid, made, rest) =
              bind-IsOk (λ x. push_binary_tags last_index x bts)
                (guard (leb bt.len.get max_block_body) too_large
                  >> (push_block_header b.buf t bt.len.get (b.idx == last_index) >>= λ x.
                      ok (flush_with b x (tag_segment bt))))
                h' in
            let (u, fits, made_1) =
              bind-IsOk _ (guard (leb bt.len.get max_block_body) too_large) made in
            let (buf, headed, same) =
              bind-IsOk _ (push_block_header b.buf t bt.len.get (b.idx == last_index)) made_1 in
            let seg = tag_segment bt in
            let size = length-render_segment base64 c seg av.0 in
            let (one, sized) =
              flush_with-writes base64 c b buf [] t bt.len.get (b.idx == last_index) seg headed
                (omega arith) in
            let mid_is : flush_with b (buf ++ []) seg ≡ mid =
              ap (λ x. flush_with b x seg) (append-nil buf) ∙ ok-inj same in
            rw (tag_blocks, known)
              (Pushes-more base64 c last_index b mid next
                (record { block_type = t; body = render_segment base64 c seg }) (tag_blocks bts)
                (ap (written base64 c) (sym mid_is) ∙ one) (ap (λ x. x.idx) (sym mid_is)) sized
                (push_binary_tags-Pushes last_index mid next bts av.1 rest))
      ]

  abbrev art_segment : ArtInput → Segment
  art_segment art = art_image art.art_id art.data_len

  abbrev pub IsArtAvailable : ArtInput → Type 0
  IsArtAvailable art = IsAvailable base64 c (art_segment art)

  -- The picture blocks that a run of pushes has added, one for each image.
  abbrev pub PushesArts : ℕ → Building → Building → ℕ → Type 0
  PushesArts last_index b next count =
      (blocks : List MetadataBlock) × Pushes base64 c last_index b next blocks
      × (length blocks ≡ count)
      × All (λ k. k.block_type ≡ block_picture) blocks

  pub push_arts-Pushes :
      (last_index : ℕ) (b next : Building) (arts : List ArtInput)
      → All IsArtAvailable arts
      → push_arts last_index b arts ≡ ok next
      → PushesArts last_index b next (length arts)
  unfolding push_arts push_art flush_with seg_len checked_add
  push_arts-Pushes last_index b next [] av h =
      ([], rw (← ok-inj h) (Pushes-none base64 c last_index b), refl, tt)
  push_arts-Pushes last_index b next (art ∷ arts) av h =
      let (mid, made, rest) = bind-IsOk _ (push_art last_index b art) h in
      let (framing, framed, made_1) = bind-IsOk _ (picture_body_framing art art.description) made in
      let (body_len, added, made_2) =
        bind-IsOk _ (checked_add (length framing) art.data_len.get) made_1 in
      let (u, fits, made_3) = bind-IsOk _ (guard (leb body_len max_block_body) too_large) made_2 in
      let (buf, headed, same) =
        bind-IsOk _ (push_block_header b.buf block_picture body_len (b.idx == last_index)) made_3 in
      let seg = art_segment art in
      let size = length-render_segment base64 c seg av.0 in
      let total_is : length framing + art.data_len.get ≡ body_len = ground arith in
      let (one, sized) =
        flush_with-writes base64 c b buf framing block_picture body_len (b.idx == last_index) seg
          headed (omega arith) in
      let mid_is : flush_with b (buf ++ framing) seg ≡ mid = ok-inj same in
      let (blocks, more, count, types) = push_arts-Pushes last_index mid next arts av.1 rest in
      let picture : MetadataBlock = record {
        block_type = block_picture;
        body = framing ++ render_segment base64 c seg;
      } in
      (
        picture ∷ blocks,
        Pushes-more base64 c last_index b mid next picture blocks
            (ap (written base64 c) (sym mid_is) ∙ one) (ap (λ x. x.idx) (sym mid_is)) sized more,
        ap suc count,
        (refl, types),
      )
