-- ===== src/Core/OggIndex/Serve.antt =====
-- `serve_ogg_window` over a region of pages.
use musefs.Base.{
  ℕ, zero, suc, ◌+◌, ◌-◌, ◌≤◌, ◌<◌, max, ◌≡◌, refl, sym, ap, subst, ◌∙◌, inl, inr, Bool-cases, true,
  false, Option, none, some, List, [], ◌∷◌, ◌++◌, append_assoc, append-nil, All, All-append_right,
  length, length-append, ltb, leb, le→ltb_false, lt→ltb, leb→le, arith,
}
use musefs.Base.Int.{ℤ}
use musefs.Base.Slices.{slice}
use musefs.Base.Windows.{window, window-nil}
use musefs.Base.Words.{Bytes, u64_max}
use musefs.Base.Results.{ok}
use musefs.Core.OggIndex.{Memo, Backing, serve_page, serve_pages}
use musefs.Core.OggIndex.Pages.{
  AudioPage, page_bytes, IsPage, region, patched_header, served_region, fresh_header-IsOk, IsMemo,
  length-page, region-append,
}
use musefs.Core.OggIndex.Walk.{ReadsExact, IsCarried}
use musefs.Core.OggIndex.Round.{overlap, window-page, serve_page-page}

-- An entry of the memo, if any, names a page of the region.
abbrev pub IsMemory : ℤ → List AudioPage → Option Memo → Type 0
IsMemory delta all none = Unit
IsMemory delta all (some m) = IsMemo delta all m

module _ (file : Bytes) (backing : Backing) (reads : ReadsExact file backing) (delta : ℤ)
    (pre post : Bytes) (all : List AudioPage) (good : All IsPage all)
    (file_is : file ≡ pre ++ (region all ++ post))
    (word : length pre + length (region all) ≤ u64_max) where
  abbrev region_end : ℕ
  region_end = length pre + length (region all)

  serve_page-at :
      (before after : List AudioPage) (p : AudioPage) (rstart rend : ℕ)
      (carried : Option (ℕ × Bytes))
      → all ≡ before ++ (p ∷ after)
      → IsCarried delta all carried
      → (left : Option (ℕ × Bytes)) × (serve_page backing
            (length pre)
            region_end
            delta
            rstart
            rend
            (length pre + length (region before))
            carried
          ≡ ok (
            overlap (patched_header delta p) p.payload rstart rend (length (region before)),
            record {
              page_rel = length (region before);
              total_len = length (page_bytes p);
              header = patched_header delta p;
            },
            length pre + (length (region before) + length (page_bytes p)),
            left,
          ))
        × IsCarried delta all left
  serve_page-at before after p rstart rend carried split valid =
      let (left, serves, valid') =
        serve_page-page file backing reads delta pre post before after p rstart rend carried
          (subst (All IsPage) split good) (file_is ∙ ap (λ t. pre ++ (region t ++ post)) split)
          (subst (λ t. length pre + length (region t) ≤ u64_max) split word)
          (subst (λ t. IsCarried delta t carried) split valid) in
      (
        left,
        ap
              (λ t.
                serve_page backing (length pre) (length pre + length (region t)) delta rstart rend
                  (length pre + length (region before)) carried)
              split
            ∙ serves,
        subst (λ t. IsCarried delta t left) (sym split) valid',
      )

  -- From any page on, the loop adds the asked part of what is to be served.
  pub serve_pages-window :
      (qs before : List AudioPage) (fuel rstart rend : ℕ) (carried : Option (ℕ × Bytes))
      (out : Bytes) (last : Option Memo)
      → all ≡ before ++ qs
      → length qs < fuel
      → IsCarried delta all carried
      → IsMemory delta all last
      → (last' : Option Memo) × (serve_pages fuel backing
            (length pre)
            region_end
            delta
            rstart
            rend
            (length pre + length (region before))
            carried
            out
            last
          ≡ some (
              ok (
                out ++ window (served_region delta qs) rstart rend (length (region before)),
                last',
              )))
        × IsMemory delta all last'
  unfolding serve_pages
  serve_pages-window qs before zero rstart rend carried out last split enough valid known =
      absurd (omega arith)
  serve_pages-window [] before (suc fuel) rstart rend carried out last split enough valid known =
      let done : ltb (length pre + length (region before)) region_end ≡ false =
        le→ltb_false (length pre + length (region before)) region_end
          (omega (arith, ap (λ t. length (region t)) (split ∙ append-nil before))) in
      (
        last,
        rw (serve_pages, done)
            (ap (λ t. some (ok (t, last)))
              (sym (
                ap (λ t. out ++ t) (window-nil rstart rend (length (region before)))
                ∙ append-nil out))),
        known,
      )
  serve_pages-window (p ∷ qs) before (suc fuel) rstart rend carried out last split enough valid
        known =
      let rel = length (region before) in
      let rel_is : length pre + rel - length pre ≡ rel = omega arith in
      let is_page = (All-append_right IsPage before (p ∷ qs) (subst (All IsPage) split good)).0 in
      let region_len =
        ap (λ t. length (region t)) split ∙ ap length (region-append before (p ∷ qs)) in
      let more : ltb (length pre + rel) region_end ≡ true = lt→ltb (length pre + rel) region_end (
        omega (
          arith,
          region_len,
          length-append (region before) (page_bytes p ++ region qs),
          length-append (page_bytes p) (region qs),
          length-page p is_page,
        )) in
      elim (Bool-cases (leb rend rel)) [
        | inl past ↦
            let past_end = leb→le rend rel past in
            let none_left : rend - max rstart rel ≡ 0 = omega arith in
            (
              last,
              rw (serve_pages, more, rel_is, past)
                  (ap (λ t. some (ok (t, last)))
                    (sym (
                      ap (λ n. out ++ slice (served_region delta (p ∷ qs)) (rstart - rel) n)
                        none_left
                      ∙ append-nil out))),
              known,
            )
        | inr left_over ↦
            let (left, serves, valid') =
              serve_page-at before qs p rstart rend carried split valid in
            let patched = patched_header delta p in
            let part = overlap patched p.payload rstart rend rel in
            let entry : Memo = record {
              page_rel = rel;
              total_len = length (page_bytes p);
              header = patched;
            } in
            let split' : all ≡ (before ++ (p ∷ [])) ++ qs =
              split ∙ sym (append_assoc before (p ∷ []) qs) in
            let len' : length (region (before ++ (p ∷ []))) ≡ rel + length (page_bytes p) = omega (
              arith,
              ap length (region-append before (p ∷ [])),
              length-append (region before) (page_bytes p ++ []),
              length-append (page_bytes p) [],
            ) in
            let (last', rest, known') =
              serve_pages-window qs (before ++ (p ∷ [])) fuel rstart rend left (out ++ part)
                (some entry) split' (omega arith) valid' (before, p, qs, split, refl, refl, refl) in
            let patched_len = (fresh_header-IsOk p delta is_page).1 in
            let end : length (region (before ++ (p ∷ [])))
                ≡ rel + length patched + length p.payload =
              omega (arith, len', length-append p.header p.payload) in
            let bytes : (out ++ part)
                  ++ window (served_region delta qs) rstart rend
                      (length (region (before ++ (p ∷ []))))
                ≡ out ++ window (served_region delta (p ∷ qs)) rstart rend rel =
              append_assoc out part
                (window (served_region delta qs) rstart rend (length (region (before ++ (p ∷ [])))))
              ∙ ap (λ n. out ++ (part ++ window (served_region delta qs) rstart rend n)) end
              ∙ ap (λ t. out ++ t)
                  (sym (window-page patched p.payload (served_region delta qs) rstart rend rel)) in
            (
              last',
              rw (serve_pages, more, rel_is, left_over, serves)
                  (ap
                      (λ n.
                        serve_pages fuel backing (length pre) region_end delta rstart rend
                          (length pre + n) left (out ++ part) (some entry))
                      (sym len')
                    ∙ rest
                    ∙ ap (λ t. some (ok (t, last'))) bytes),
              known',
            )
      ]
