-- ===== src/Core/OggIndex/Round.antt =====
-- A round of the walk of `serve_ogg_window`, on a page of the region.
use musefs.Base.{
  ℕ, ◌+◌, ◌-◌, ◌≤◌, min, max, ◌≡◌, refl, sym, ap, ◌∙◌, inl, inr, Bool-cases, true, Option, List, [],
  ◌∷◌, ◌++◌, append_assoc, All, All-append_right, length, length-append, take, drop, ltb, leb,
  ltb→lt, ltb_false→le, le→leb, if◌then◌else◌, arith,
}
use musefs.Base.Int.{ℤ}
use musefs.Base.Slices.{slice, slice-append_left, drop-append_ge, drop-drop}
use musefs.Base.Windows.{window, window-append, slice-if}
use musefs.Base.Words.{Bytes, u64_max}
use musefs.Base.Results.{ok}
use musefs.Format.Bytes.{byte}
use musefs.Format.Ogg.Page.{sum_bytes}
use musefs.Core.OggIndex.{Backing, malformed_page, max_ogg_header_bytes, page_overlap, serve_page}
use musefs.Core.OggIndex.Pages.{
  AudioPage, page_bytes, IsPage, region, patched_header, fresh_header-IsOk, region-append,
}
use musefs.Core.OggIndex.Walk.{
  ReadsExact, checked-fits, found, found-byte, found-table, found-header, found-length, IsCarried,
  take_header-patched,
}

-- The part of a page that is asked for.
abbrev pub overlap : Bytes → Bytes → ℕ → ℕ → ℕ → Bytes
overlap patched payload rstart rend rel =
    slice patched (max rstart rel - rel) (min rend (rel + length patched) - max rstart rel)
    ++ slice payload (max rstart (rel + length patched) - (rel + length patched))
        (min rend (rel + length patched + length payload) - max rstart (rel + length patched))

pub window-page :
    (patched payload behind : Bytes) (rstart rend rel : ℕ)
    → window (patched ++ (payload ++ behind)) rstart rend rel
      ≡ overlap patched payload rstart rend rel
        ++ window behind rstart rend (rel + length patched + length payload)
window-page patched payload behind rstart rend rel =
    window-append patched (payload ++ behind) rstart rend rel
    ∙ ap
        (λ t.
          slice patched (max rstart rel - rel) (min rend (rel + length patched) - max rstart rel)
          ++ t)
        (window-append payload behind rstart rend (rel + length patched))
    ∙ sym (
        append_assoc
          (slice patched (max rstart rel - rel) (min rend (rel + length patched) - max rstart rel))
          (slice payload (max rstart (rel + length patched) - (rel + length patched))
            (min rend (rel + length patched + length payload) - max rstart (rel + length patched)))
          (window behind rstart rend (rel + length patched + length payload)))

module _ (file : Bytes) (backing : Backing) (reads : ReadsExact file backing) where
  page_overlap-overlap :
      (patched payload rest : Bytes) (at_page rstart rend rel : ℕ)
      → drop (at_page + length patched) file ≡ payload ++ rest
      → at_page + length patched + length payload ≤ length file
      → page_overlap backing at_page rel rstart rend patched (length patched) (length payload)
        ≡ ok (overlap patched payload rstart rend rel)
  unfolding page_overlap
  page_overlap-overlap patched payload rest at_page rstart rend rel behind inside =
      let hdr_end = rel + length patched in
      let ps = max rstart hdr_end in
      let pe = min rend (hdr_end + length payload) in
      let front = slice-if patched (max rstart rel) (min rend hdr_end) (max rstart rel - rel) in
      let from = at_page + length patched + (ps - hdr_end) in
      let back : (if ltb ps pe then backing.read_exact_at from (pe - ps) else ok [])
          ≡ ok (slice payload (ps - hdr_end) (pe - ps)) =
        elim (Bool-cases (ltb ps pe)) [
          | inl over ↦
              let some_left = ltb→lt ps pe over in
              let read = reads.in_range from (pe - ps) (omega arith) in
              let bytes : slice file from (pe - ps) ≡ slice payload (ps - hdr_end) (pe - ps) =
                ap (take (pe - ps)) (
                  sym (drop-drop (ps - hdr_end) (at_page + length patched) from file (omega arith)))
                ∙ ap (λ t. slice t (ps - hdr_end) (pe - ps)) behind
                ∙ slice-append_left payload rest (ps - hdr_end) (pe - ps) (omega arith) in
              rw (over, read) (ap ok bytes)
          | inr clear ↦
              let none_left : pe - ps ≡ 0 = omega (arith, ltb_false→le ps pe clear) in
              rw (clear, none_left) refl
        ] in
      rw (page_overlap, front, back) refl

  -- A round at the page `p`, in a file that has these pages between `pre` and `post`.
  pub serve_page-page :
      (delta : ℤ) (pre post : Bytes) (before after : List AudioPage) (p : AudioPage)
      (rstart rend : ℕ) (carried : Option (ℕ × Bytes))
      → All IsPage (before ++ (p ∷ after))
      → file ≡ pre ++ (region (before ++ (p ∷ after)) ++ post)
      → length pre + length (region (before ++ (p ∷ after))) ≤ u64_max
      → IsCarried delta (before ++ (p ∷ after)) carried
      → (left : Option (ℕ × Bytes)) × (serve_page backing
            (length pre)
            (length pre + length (region (before ++ (p ∷ after))))
            delta
            rstart
            rend
            (length pre + length (region before))
            carried
          ≡ ok (
            overlap (patched_header delta p) p.payload rstart rend (length (region before)),
            record {
              page_rel = length (region before);
              total_len = length (page_bytes p);
              header = patched_header delta p;
            },
            length pre + (length (region before) + length (page_bytes p)),
            left,
          ))
        × IsCarried delta (before ++ (p ∷ after)) left
  unfolding serve_page
  serve_page-page delta pre post before after p rstart rend carried good file_is word valid =
      let is_page = (All-append_right IsPage before (p ∷ after) good).0 in
      let (head_len, seg_small, pay_len, bytes, valid_page) = is_page in
      let rel = length (region before) in
      let at_page = length pre + rel in
      let region_end = length pre + length (region (before ++ (p ∷ after))) in
      let rest = region after ++ post in
      let patched = patched_header delta p in
      let patched_len = (fresh_header-IsOk p delta is_page).1 in
      let region_len : length (region (before ++ (p ∷ after)))
          ≡ rel + (length (page_bytes p) + length (region after)) =
        omega (
          arith,
          ap length (region-append before (p ∷ after)),
          length-append (region before) (page_bytes p ++ region after),
          length-append (page_bytes p) (region after),
        ) in
      let page_len = length-append p.header p.payload in
      let file_len : length file ≡ region_end + length post = omega (
        arith,
        ap length file_is,
        length-append pre (region (before ++ (p ∷ after)) ++ post),
        length-append (region (before ++ (p ∷ after))) post,
      ) in
      let here : drop at_page file ≡ p.header ++ (p.payload ++ rest) =
        ap (drop at_page) file_is
        ∙ drop-append_ge at_page rel pre (region (before ++ (p ∷ after)) ++ post) refl
        ∙ ap (λ t. drop rel (t ++ post)) (region-append before (p ∷ after))
        ∙ ap (drop rel) (append_assoc (region before) (page_bytes p ++ region after) post)
        ∙ drop-append_ge rel 0 (region before) ((page_bytes p ++ region after) ++ post)
            (omega arith)
        ∙ append_assoc (page_bytes p) (region after) post
        ∙ append_assoc p.header p.payload rest in
      let r = min max_ogg_header_bytes (region_end - at_page) in
      let fits : length p.header ≤ r = omega arith in
      let read : backing.read_exact_at at_page r ≡ ok (found p.header p.payload rest r fits) =
        reads.in_range at_page r (omega arith) ∙ ap (λ t. ok (take r t)) here in
      let hdr = found p.header p.payload rest r fits in
      let long = found-length p.header p.payload rest r fits in
      let long27 : leb 27 (length hdr) ≡ true = le→leb 27 (length hdr) (omega arith) in
      let seg = found-byte p.header p.payload rest r fits (omega arith) in
      let whole : leb (27 + byte p.header 26) (length hdr) ≡ true =
        le→leb (27 + byte p.header 26) (length hdr) (omega arith) in
      let table = found-table p.header p.payload rest r fits (byte p.header 26) (omega arith) in
      let cut : take (27 + byte p.header 26) hdr ≡ p.header =
        ap (λ n. take n hdr) (sym head_len) ∙ found-header p.header p.payload rest r fits in
      let rel_is : at_page - length pre ≡ rel = omega arith in
      let (left, takes, valid') =
        take_header-patched delta before after p good is_page carried valid in
      let hl : 27 + byte p.header 26 ≡ length patched = omega arith in
      let pl : sum_bytes (slice p.header 27 (byte p.header 26)) ≡ length p.payload = sym pay_len in
      let sum1 = checked-fits malformed_page rel (length patched) (omega arith) in
      let sum2 =
        checked-fits malformed_page (rel + length patched) (length p.payload) (omega arith) in
      let sum3 = checked-fits malformed_page (length patched) (length p.payload) (omega arith) in
      let sum4 =
        checked-fits malformed_page at_page (length patched + length p.payload) (omega arith) in
      let behind : drop (at_page + length patched) file ≡ p.payload ++ rest =
        sym (drop-drop (length patched) at_page (at_page + length patched) file (omega arith))
        ∙ ap (drop (length patched)) here
        ∙ drop-append_ge (length patched) 0 p.header (p.payload ++ rest) (omega arith) in
      let part =
        page_overlap-overlap patched p.payload rest at_page rstart rend rel behind (omega arith) in
      let ends : leb (at_page + (length patched + length p.payload)) region_end ≡ true =
        le→leb (at_page + (length patched + length p.payload)) region_end (omega arith) in
      let total : length patched + length p.payload ≡ length (page_bytes p) = omega arith in
      let next : at_page + (length patched + length p.payload)
          ≡ length pre + (rel + length (page_bytes p)) =
        omega arith in
      (
        left,
        rw
            (
              serve_page, read, rel_is, long27, seg, whole, table, cut, takes, hl, pl, sum1, sum2,
              part, sum3, sum4, ends,
            )
            (ap
              (λ (n : ℕ × ℕ). ok (
                overlap patched p.payload rstart rend rel,
                record { page_rel = rel; total_len = n.0; header = patched },
                n.1,
                left,
              ))
              (ap (λ t. (t, at_page + (length patched + length p.payload))) total
                ∙ ap (λ t. (length (page_bytes p), t)) next)),
        valid',
      )
