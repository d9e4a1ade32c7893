-- ===== src/Format/Ogg/Page/Lacing.antt =====
-- One page in a stream of pages, read where it stands.
use musefs.Base.{
  ℕ, suc, ◌+◌, ◌≡◌, refl, sym, ap, ◌∙◌, true, false, List, ◌∷◌, ◌++◌, append_assoc, length,
  length-append, take, drop, ltb, le→ltb_false, arith,
}
use musefs.Base.Compare.{◌==bytes◌}
use musefs.Base.Slices.{slice, slice-append_right, drop-append_ge, take-append_le, take-all}
use musefs.Base.Words.{Bytes, to_le_bytes}
use musefs.Base.Results.{ok}
use musefs.Format.Bytes.{byte, byte-append, byte-append_0}
use musefs.Format.Ogg.Crc.{crc32}
use musefs.Format.Ogg.Page.{
  capture, PageHeader, page_len, sum_bytes, parse_page, copy_at, page_head, push_page, ReadPacket,
  read_segments, read_pages,
}
use musefs.Format.Ogg.Page.Patch.{header_at}
use musefs.Format.Ogg.Page.Segments.{seg_run, read_segments-seg_run}

-- A page from its lacing values and payload, whatever its other fields are.
abbrev pub shape : Bytes → Bytes → Bytes → Bytes
shape mid laces payload = (capture ++ (0 ∷ mid)) ++ (length laces ∷ (laces ++ payload))

pub push_page-shape :
    (header_type granule serial seq : ℕ) (laces payload : Bytes)
    → (mid : Bytes) × (length mid ≡ 21)
      × (push_page header_type granule serial seq laces payload ≡ shape mid laces payload)
unfolding push_page copy_at page_head
push_page-shape header_type granule serial seq laces payload =
    let page = page_head header_type granule serial seq (length laces) ++ (laces ++ payload) in
    (
      header_type
          ∷ (to_le_bytes 8 granule
              ++ (to_le_bytes 4 serial ++ (to_le_bytes 4 seq ++ to_le_bytes 4 (crc32 page)))),
      refl,
      refl,
    )

module _ (pre post mid laces payload : Bytes) (mid_len : length mid ≡ 21)
    (laces_sum : length payload ≡ sum_bytes laces) where
  abbrev page : Bytes
  page = shape mid laces payload

  abbrev stream : Bytes
  stream = pre ++ (page ++ post)

  abbrev pos : ℕ
  pos = length pre

  abbrev head : Bytes
  head = capture ++ (0 ∷ mid)

  head_len : length head ≡ 26
  head_len = omega arith

  pub length-page : length page ≡ 27 + length laces + length payload
  length-page = omega (
    arith,
    head_len,
    length-append head (length laces ∷ (laces ++ payload)),
    length-append laces payload,
  )

  -- The bytes of the page from its segment count on.
  from_count :
      (k : ℕ) → drop (pos + (26 + k)) stream ≡ drop k (length laces ∷ (laces ++ (payload ++ post)))
  from_count k =
      drop-append_ge (pos + (26 + k)) (26 + k) pre (page ++ post) refl
      ∙ ap (drop (26 + k)) (
          append_assoc head (length laces ∷ (laces ++ payload)) post
          ∙ ap (λ t. head ++ (length laces ∷ t)) (append_assoc laces payload post))
      ∙ drop-append_ge (26 + k) k head (length laces ∷ (laces ++ (payload ++ post)))
          (omega (arith, head_len))

  count_at : byte stream (pos + 26) ≡ length laces
  count_at =
      byte-append pre (page ++ post) 26
      ∙ ap (λ t. byte t 26) (append_assoc head (length laces ∷ (laces ++ payload)) post)
      ∙ ap (byte (head ++ (length laces ∷ ((laces ++ payload) ++ post)))) (sym head_len)
      ∙ byte-append_0 head (length laces ∷ ((laces ++ payload) ++ post))

  table_at : slice stream (pos + 27) (length laces) ≡ laces
  table_at =
      ap (take (length laces)) (from_count 1)
      ∙ take-append_le (length laces) laces (payload ++ post) (omega arith)
      ∙ take-all (length laces) laces (omega arith)

  stream_len : length stream ≡ pos + (27 + length laces + length payload) + length post
  stream_len = omega (arith, length-append pre (page ++ post), length-append page post, length-page)

  pub parse_page-here :
      (h : PageHeader) × (parse_page stream pos ≡ ok h)
      × (h.seg_count ≡ length laces)
      × (h.header_len ≡ 27 + length laces)
      × (h.payload_len ≡ length payload)
  unfolding parse_page ◌==bytes◌
  parse_page-here =
      let long : ltb (length stream) (pos + 27) ≡ false =
        le→ltb_false _ _ (omega (arith, stream_len)) in
      let captured : slice stream pos 4 ≡ capture =
        let here : pos ≡ pos + 0 = omega arith in
        slice-append_right pre (page ++ post) pos 0 4 here in
      let version : byte stream (pos + 4) ≡ 0 = byte-append pre (page ++ post) 4 in
      let whole : ltb (length stream) (pos + 27 + length laces) ≡ false =
        le→ltb_false _ _ (omega (arith, stream_len)) in
      (
        header_at stream pos,
        rw (parse_page, long, captured, version, count_at, whole) refl,
        count_at,
        ap (λ n. 27 + n) count_at,
        ap (λ n. sum_bytes (slice stream (pos + 27) n)) count_at
            ∙ ap sum_bytes table_at
            ∙ sym laces_sum,
      )

  -- A round of the reader on that page.
  pub read_pages-page :
      (want f pages : ℕ) (cur : Bytes) (out : List ReadPacket)
      → ltb (length out) want ≡ true
      → read_pages (suc f) stream want pos pages cur out
        ≡ read_pages f stream want
            (pos + length page)
            (suc pages)
            (seg_run want (pos + length page) (suc pages) laces payload cur out).0
            (seg_run want (pos + length page) (suc pages) laces payload cur out).1
  unfolding read_pages
  read_pages-page want f pages cur out more =
      let (h, parsed, seg_is, head_is, pay_is) = parse_page-here in
      let len = length-page in
      let ends : pos + page_len h ≡ pos + length page = omega arith in
      let at_laces : drop (pos + 27 + 0) stream ≡ laces ++ (payload ++ post) =
        let here : pos + 27 + 0 ≡ pos + (26 + 1) = omega arith in
        ap (λ k. drop k stream) here ∙ from_count 1 in
      let at_payload : drop (pos + h.header_len) stream ≡ payload ++ post =
        let here : pos + h.header_len ≡ pos + (26 + suc (length laces)) = omega arith in
        ap (λ k. drop k stream) here
        ∙ from_count (suc (length laces))
        ∙ drop-append_ge (length laces) 0 laces (payload ++ post) (omega arith) in
      let run : read_segments stream want pos h (suc pages) h.seg_count 0 h.header_len cur out
          ≡ ok (seg_run want (pos + length page) (suc pages) laces payload cur out) =
        ap (λ n. read_segments stream want pos h (suc pages) n 0 h.header_len cur out) seg_is
        ∙ read_segments-seg_run want (pos + length page) (suc pages) stream pos h laces payload cur
            out 0 h.header_len (payload ++ post) post ends at_laces at_payload (omega arith)
            (omega (arith, stream_len)) in
      rw (read_pages, more, parsed, run, ends) refl
