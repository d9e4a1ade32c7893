-- ===== src/Core/Reader/FlacFront.antt =====
-- What the loops of `synthesize_layout` write, seen through the file that the layout renders to.
use musefs.Base.{
  ℕ, suc, ◌+◌, ◌≤◌, ◌≡◌, refl, sym, ap, ◌∙◌, Bool, true, false, List, [], ◌∷◌, ◌++◌, append-nil,
  append_assoc, length, length-append, All, ◌==◌, arith,
}
use musefs.Base.Words.{Bytes}
use musefs.Base.Results.{ok, bind-IsOk, ok-inj}
use musefs.Format.Base64.{Base64}
use musefs.Format.Flac.{MetadataBlock}
use musefs.Format.Flac.Stream.{header_bytes, block_bytes, stream}
use musefs.Format.Flac.Synthesis.{
  max_block_body, push_block_header, Building, push_block, push_structural, flush_with,
}
use musefs.Format.Layout.{Segment, inline}
use musefs.Core.Reader.Rendering.{Contents, render, render_segment}

-- Blocks from an index on, where the one at `last_index` is flagged.
abbrev pub stream_from : ℕ → ℕ → List MetadataBlock → Bytes
stream_from last_index i [] = []
stream_from last_index i (b ∷ bs) =
    block_bytes (i == last_index) b ++ stream_from last_index (suc i) bs

pub stream_from-append :
    (last_index i : ℕ) (xs ys : List MetadataBlock)
    → stream_from last_index i (xs ++ ys)
      ≡ stream_from last_index i xs ++ stream_from last_index (i + length xs) ys
stream_from-append last_index i [] ys =
    let same : i ≡ i + 0 = omega arith in ap (λ j. stream_from last_index j ys) same
stream_from-append last_index i (x ∷ xs) ys =
    let same : suc i + length xs ≡ i + suc (length xs) = omega arith in
    ap (λ t. block_bytes (i == last_index) x ++ t)
      (stream_from-append last_index (suc i) xs ys
        ∙ ap (λ j. stream_from last_index (suc i) xs ++ stream_from last_index j ys) same)
    ∙ sym (
        append_assoc (block_bytes (i == last_index) x) (stream_from last_index (suc i) xs)
          (stream_from last_index (i + suc (length xs)) ys))

-- The last flag falls on the last block.
pub stream_from-stream :
    (last_index i : ℕ) (b : MetadataBlock) (bs : List MetadataBlock)
    → i + length bs ≡ last_index
    → stream_from last_index i (b ∷ bs) ≡ stream (b ∷ bs)
stream_from-stream last_index i b [] h =
    let flagged : (i == last_index) ≡ true = ground arith in
    rw flagged (append-nil (block_bytes true b))
stream_from-stream last_index i b (c ∷ bs) h =
    let plain : (i == last_index) ≡ false = ground arith in
    rw plain (
      ap (λ t. block_bytes false b ++ t) (stream_from-stream last_index (suc i) c bs (omega arith)))

push_block_header-writes :
    (out buf : Bytes) (t n : ℕ) (is_last : Bool)
    → push_block_header out t n is_last ≡ ok buf
    → (n ≤ max_block_body) × (out ++ header_bytes is_last t n ≡ buf)
unfolding push_block_header
push_block_header-writes out buf t n is_last h = ground arith

module _ (base64 : Base64) (c : Contents) where
  pub render-append :
      (xs ys : List Segment) → render base64 c (xs ++ ys) ≡ render base64 c xs ++ render base64 c ys
  render-append [] ys = refl
  render-append (x ∷ xs) ys =
      ap (λ t. render_segment base64 c x ++ t) (render-append xs ys)
      ∙ sym (append_assoc (render_segment base64 c x) (render base64 c xs) (render base64 c ys))

  abbrev pub written : Building → Bytes
  written b = render base64 c b.segments ++ b.buf

  -- The blocks that a run of pushes has added.
  pub record Pushes (last_index : ℕ) (b next : Building) (blocks : List MetadataBlock)
      : Type 0 where
    pub bytes : written next ≡ written b ++ stream_from last_index b.idx blocks
    pub count : next.idx ≡ b.idx + length blocks
    pub sized : All (λ k. length k.body ≤ max_block_body) blocks

  pub Pushes-none : (last_index : ℕ) (b : Building) → Pushes last_index b b []
  Pushes-none last_index b = record {
    bytes = sym (append-nil (written b));
    count = omega arith;
    sized = tt;
  }

  -- One block, and a run behind it.
  pub Pushes-more :
      (last_index : ℕ) (b mid next : Building) (k : MetadataBlock) (ks : List MetadataBlock)
      → written mid ≡ written b ++ block_bytes (b.idx == last_index) k
      → mid.idx ≡ suc b.idx
      → length k.body ≤ max_block_body
      → Pushes last_index mid next ks
      → Pushes last_index b next (k ∷ ks)
  Pushes-more last_index b mid next k ks one step fits more = record {
    bytes =
        more.bytes
        ∙ ap (λ j. written mid ++ stream_from last_index j ks) step
        ∙ ap (λ t. t ++ stream_from last_index (suc b.idx) ks) one
        ∙ append_assoc (written b) (block_bytes (b.idx == last_index) k)
            (stream_from last_index (suc b.idx) ks);
    count = omega (arith, more.count);
    sized = (fits, more.sized);
  }

  pub push_block-writes :
      (last_index : ℕ) (b next : Building) (t : ℕ) (body : Bytes)
      → push_block last_index b t body ≡ ok next
      → (written next
          ≡ written b ++ block_bytes (b.idx == last_index) (record { block_type = t; body = body }))
        × (next.idx ≡ suc b.idx)
        × (length body ≤ max_block_body)
  unfolding push_block
  push_block-writes last_index b next t body h =
      let is_last = b.idx == last_index in
      let (buf, headed, same) = bind-IsOk _ (push_block_header b.buf t (length body) is_last) h in
      let (fits, put) = push_block_header-writes b.buf buf t (length body) is_last headed in
      let front = render base64 c b.segments in
      let header = header_bytes is_last t (length body) in
      rw (← ok-inj same) (
        ap (λ x. front ++ (x ++ body)) (sym put)
            ∙ ap (λ x. front ++ x) (append_assoc b.buf header body)
            ∙ sym (append_assoc front b.buf (header ++ body)),
        refl,
        fits,
      )

  pub push_structural-Pushes :
      (last_index : ℕ) (b next : Building) (blks : List MetadataBlock)
      → push_structural last_index b blks ≡ ok next
      → Pushes last_index b next blks
  unfolding push_structural
  push_structural-Pushes last_index b next [] h = rw (← ok-inj h) (Pushes-none last_index b)
  push_structural-Pushes last_index b next (k ∷ ks) h =
      let (mid, pushed, rest) = bind-IsOk _ (push_block last_index b k.block_type k.body) h in
      let (one, step, fits) = push_block-writes last_index b mid k.block_type k.body pushed in
      Pushes-more last_index b mid next k ks one step fits
        (push_structural-Pushes last_index mid next ks rest)

  -- A block of a header and framing in `buf`, and a streamed segment as the rest of its body.
  pub flush_with-writes :
      (b : Building) (buf framing : Bytes) (t n : ℕ) (is_last : Bool) (seg : Segment)
      → push_block_header b.buf t n is_last ≡ ok buf
      → length framing + length (render_segment base64 c seg) ≡ n
      → (written (flush_with b (buf ++ framing) seg)
          ≡ written b
            ++ block_bytes is_last
                (record { block_type = t; body = framing ++ render_segment base64 c seg }))
        × (length (framing ++ render_segment base64 c seg) ≤ max_block_body)
  unfolding flush_with
  flush_with-writes b buf framing t n is_last seg headed sizes =
      let (fits, put) = push_block_header-writes b.buf buf t n is_last headed in
      let front = render base64 c b.segments in
      let streamed = render_segment base64 c seg in
      let whole = length-append framing streamed in
      let same_len : n ≡ length (framing ++ streamed) = omega arith in
      let header = header_bytes is_last t n in
      (
        append-nil (render base64 c (b.segments ++ (inline (buf ++ framing) ∷ seg ∷ [])))
            ∙ render-append b.segments (inline (buf ++ framing) ∷ seg ∷ [])
            ∙ ap (λ x. front ++ ((buf ++ framing) ++ x)) (append-nil streamed)
            ∙ ap (λ x. front ++ ((x ++ framing) ++ streamed)) (sym put)
            ∙ ap (λ x. front ++ x) (append_assoc (b.buf ++ header) framing streamed)
            ∙ ap (λ x. front ++ x) (append_assoc b.buf header (framing ++ streamed))
            ∙ sym (append_assoc front b.buf (header ++ (framing ++ streamed)))
            ∙ ap (λ m. written b ++ (header_bytes is_last t m ++ (framing ++ streamed))) same_len,
        omega arith,
      )
