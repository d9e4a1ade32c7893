-- ===== src/Core/OggIndex/Pages.antt =====
-- The audio region as a list of pages, and what is to be served of it.
use musefs.Base.{
  ℕ, ◌+◌, ◌%◌, ◌^◌, ◌≤◌, inl, inr, true, ◌<◌, ◌≡◌, refl, sym, ap, ◌∙◌, List, [], ◌∷◌, ◌++◌,
  append_assoc, All, length, length-append, length-take, length-drop, take, drop, subst, arith,
}
use musefs.Base.Int.{ℤ, as_u32}
use musefs.Base.Slices.{slice, take-append_le, take-all, drop-append_le, slice-append_left}
use musefs.Base.Words.{Bytes, to_le_bytes}
use musefs.Base.Results.{ok, Result-cases}
use musefs.Format.Bytes.{byte}
use musefs.Format.Ogg.Crc.{crc32}
use musefs.Format.Ogg.Crc.Update.{IsByte}
use musefs.Format.Ogg.Page.{
  PageHeader, le_at, parse_page, patch_page_header_algebraic, sum_bytes, verify_page_crc,
}
use musefs.Format.Ogg.Page.Delta.{zeroed}
use musefs.Format.Ogg.Page.Patch.{parse_page-header_at, byte-take}
use musefs.Format.Ogg.Page.Renumber.{
  front, tail, whole_len, renumbered, patch_page_header-renumbered,
  patch_page_header_algebraic-same,
}
use musefs.Core.OggIndex.{Memo, fresh_header}

pub record AudioPage : Type 0 where
  pub header : Bytes
  pub payload : Bytes

abbrev pub page_bytes : AudioPage → Bytes
page_bytes p = p.header ++ p.payload

-- A page of the lengths that its header declares, and of the CRC that its header holds.
abbrev pub IsPage : AudioPage → Type 0
IsPage p =
    (length p.header ≡ 27 + byte p.header 26)
    × (byte p.header 26 < 256)
    × (length p.payload ≡ sum_bytes (slice p.header 27 (byte p.header 26)))
    × All IsByte (page_bytes p)
    × (verify_page_crc (page_bytes p) ≡ ok true)

abbrev pub region : List AudioPage → Bytes
region [] = []
region (p ∷ ps) = page_bytes p ++ region ps

-- A page's sequence number, moved by `delta` modulo `2 ^ 32`.
abbrev pub moved_seq : ℤ → AudioPage → ℕ
moved_seq delta p = (le_at p.header 18 4 + as_u32 delta) % 2 ^ 32

-- The whole page with its sequence number moved and four zero bytes for its CRC.
abbrev pub moved_page : ℤ → AudioPage → Bytes
moved_page delta p =
    take 18 p.header
    ++ (to_le_bytes 4 (moved_seq delta p) ++ (to_le_bytes 4 0 ++ (drop 26 p.header ++ p.payload)))

-- The header with its sequence number moved and the CRC of that page in place of the old one.
abbrev pub patched_header : ℤ → AudioPage → Bytes
patched_header delta p =
    take 18 p.header
    ++ (to_le_bytes 4 (moved_seq delta p)
        ++ (to_le_bytes 4 (crc32 (moved_page delta p)) ++ drop 26 p.header))

abbrev pub served_region : ℤ → List AudioPage → Bytes
served_region delta [] = []
served_region delta (p ∷ ps) = patched_header delta p ++ (p.payload ++ served_region delta ps)

verify_page_crc-parses :
    (xs : Bytes) → verify_page_crc xs ≡ ok true → (h : PageHeader) × (parse_page xs 0 ≡ ok h)
unfolding verify_page_crc
verify_page_crc-parses xs valid = elim (Result-cases (parse_page xs 0)) [
  | inl (h, parsed) ↦ (h, parsed)
  | inr (e, bad) ↦ cc (rw (verify_page_crc, bad) at valid)
]

-- The parts of a page's bytes, by its header and payload.
module _ (p : AudioPage) (is_page : IsPage p) where
  page_cut : take (length p.header) (page_bytes p) ≡ p.header
  page_cut =
      take-append_le (length p.header) p.header p.payload (omega arith)
      ∙ take-all (length p.header) p.header (omega arith)

  page_seg : byte (page_bytes p) 26 ≡ byte p.header 26
  page_seg =
      sym (byte-take (page_bytes p) 26 (length p.header) (omega (arith, is_page.0)))
      ∙ ap (λ t. byte t 26) page_cut

  page_behind : drop 26 (page_bytes p) ≡ drop 26 p.header ++ p.payload
  page_behind = drop-append_le 26 p.header p.payload (omega (arith, is_page.0))

  page_table :
      slice (page_bytes p) 27 (byte (page_bytes p) 26) ≡ slice p.header 27 (byte p.header 26)
  page_table =
      ap (slice (page_bytes p) 27) page_seg
      ∙ slice-append_left p.header p.payload 27 (byte p.header 26) (omega (arith, is_page.0))

  whole_len-page : whole_len (page_bytes p) ≡ length (page_bytes p)
  whole_len-page =
      let (head_len, seg_small, pay_len, bytes, valid) = is_page in
      omega (arith, page_seg, ap sum_bytes page_table, length-append p.header p.payload)

  tail-page : tail (page_bytes p) ≡ drop 26 p.header ++ p.payload
  tail-page =
      take-all _ (drop 26 (page_bytes p))
        (omega (arith, whole_len-page, length-drop 26 (page_bytes p)))
      ∙ page_behind

  renumbered-patched :
      (delta : ℤ)
      → renumbered (page_bytes p) (moved_seq delta p) (
          crc32 (
            zeroed
              (front (page_bytes p))
              (to_le_bytes 4 (moved_seq delta p))
              (tail (page_bytes p))))
        ≡ patched_header delta p
  renumbered-patched delta =
      let front_is : front (page_bytes p) ≡ take 18 p.header =
        take-append_le 18 p.header p.payload (omega (arith, is_page.0)) in
      let end : take (1 + byte (page_bytes p) 26) (drop 26 (page_bytes p)) ≡ drop 26 p.header =
        ap (take (1 + byte (page_bytes p) 26)) page_behind
        ∙ take-append_le (1 + byte (page_bytes p) 26) (drop 26 p.header) p.payload
            (omega (arith, is_page.0, page_seg, length-drop 26 p.header))
        ∙ take-all (1 + byte (page_bytes p) 26) (drop 26 p.header)
            (omega (arith, is_page.0, page_seg, length-drop 26 p.header)) in
      let new = to_le_bytes 4 (moved_seq delta p) in
      ap
        (λ t.
          front (page_bytes p)
          ++ (new
              ++ (to_le_bytes 4 (crc32 (zeroed (front (page_bytes p)) new t))
                  ++ take (1 + byte (page_bytes p) 26) (drop 26 (page_bytes p)))))
        tail-page
      ∙ ap
          (λ f.
            f
            ++ (new
                ++ (to_le_bytes 4 (crc32 (zeroed f new (drop 26 p.header ++ p.payload)))
                    ++ take (1 + byte (page_bytes p) 26) (drop 26 (page_bytes p)))))
          front_is
      ∙ ap (λ t. take 18 p.header ++ (new ++ (to_le_bytes 4 (crc32 (moved_page delta p)) ++ t))) end

-- A page's header is patched, and keeps its length.
pub fresh_header-IsOk :
    (p : AudioPage) (delta : ℤ)
    → IsPage p
    → (fresh_header p.header delta ≡ ok (patched_header delta p))
      × (length (patched_header delta p) ≡ length p.header)
unfolding fresh_header
fresh_header-IsOk p delta is_page =
    let (head_len, seg_small, pay_len, bytes, valid) = is_page in
    let xs = page_bytes p in
    let (h, parsed) = verify_page_crc-parses xs valid in
    let (is, inside) = parse_page-header_at xs 0 h parsed in
    let size : 27 + byte xs 26 ≡ length p.header = omega (arith, page_seg p is_page) in
    let cut : take (27 + byte xs 26) xs ≡ p.header =
      ap (λ k. take k xs) size ∙ page_cut p is_page in
    let fits : whole_len xs ≤ length xs = omega (arith, whole_len-page p is_page) in
    (
      ap (λ t. patch_page_header_algebraic t (moved_seq delta p)) (sym cut)
          ∙ ap (λ k. patch_page_header_algebraic (take k.header_len xs) (moved_seq delta p)) is
          ∙ patch_page_header_algebraic-same xs h (moved_seq delta p) bytes parsed valid
          ∙ patch_page_header-renumbered xs (moved_seq delta p) h parsed fits
          ∙ ap ok (renumbered-patched p is_page delta),
      omega (
        arith,
        length-take 18 p.header,
        length-drop 26 p.header,
        length-append (take 18 p.header) (
            to_le_bytes 4 (moved_seq delta p)
            ++ (to_le_bytes 4 (crc32 (moved_page delta p)) ++ drop 26 p.header)),
      ),
    )

-- Where the memo names a page of the region, and holds what is served for its header.
abbrev pub IsMemo : ℤ → List AudioPage → Memo → Type 0
IsMemo delta pages m =
    (before : List AudioPage) × (p : AudioPage) × (after : List AudioPage) × (pages
      ≡ before ++ (p ∷ after))
    × (m.page_rel ≡ length (region before))
    × (m.total_len ≡ length (page_bytes p))
    × (m.header ≡ patched_header delta p)

pub region-append : (a b : List AudioPage) → region (a ++ b) ≡ region a ++ region b
region-append [] b = refl
region-append (p ∷ a) b =
    ap (λ t. page_bytes p ++ t) (region-append a b)
    ∙ sym (append_assoc (page_bytes p) (region a) (region b))

pub length-page : (p : AudioPage) → IsPage p → 27 ≤ length (page_bytes p)
length-page p h = omega (arith, h.0, length-append p.header p.payload)

-- A place in the region belongs to one page.
pub start_unique :
    (a a' b b' : List AudioPage) (p p' : AudioPage)
    → All IsPage (a ++ (p ∷ b))
    → a ++ (p ∷ b) ≡ a' ++ (p' ∷ b')
    → length (region a) ≡ length (region a')
    → p ≡ p'
start_unique [] [] b b' p p' ok_pages same here = cc
start_unique [] (q ∷ a') b b' p p' ok_pages same here =
    let head : p ≡ q = cc in
    let q_len = length-page q (subst IsPage head ok_pages.0) in
    absurd (omega (arith, length-append (page_bytes q) (region a')))
start_unique (q ∷ a) [] b b' p p' ok_pages same here =
    let q_len = length-page q ok_pages.0 in
    absurd (omega (arith, length-append (page_bytes q) (region a)))
start_unique (q ∷ a) (q' ∷ a') b b' p p' ok_pages same here =
    let head : q ≡ q' = cc in
    let behind : a ++ (p ∷ b) ≡ a' ++ (p' ∷ b') = cc in
    start_unique a a' b b' p p' ok_pages.1 behind (
      omega (
        arith,
        ap (λ x. length (page_bytes x)) head,
        length-append (page_bytes q) (region a),
        length-append (page_bytes q') (region a'),
      ))
