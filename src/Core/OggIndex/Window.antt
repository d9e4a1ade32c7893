-- ===== src/Core/OggIndex/Window.antt =====
-- `serve_ogg_window` where the page to begin at is known: at the front of the region, or by the memo.
use musefs.Base.{
  ℕ, suc, ◌+◌, ◌-◌, ◌≤◌, ◌<◌, max, ◌≡◌, refl, sym, ap, subst, ◌∙◌, ◌⊎◌, inl, inr, Bool-cases, true,
  false, Option, none, some, List, [], ◌∷◌, ◌++◌, append_assoc, All, All-append_right, length,
  length-append, ltb, leb, le→ltb_false, lt→ltb, le→leb, leb→le, le_or_lt, arith,
}
use musefs.Base.Int.{ℤ}
use musefs.Base.Slices.{slice, slice-append_right}
use musefs.Base.Windows.{window}
use musefs.Base.Words.{Bytes, u64_max}
use musefs.Base.Results.{ok}
use musefs.Core.OggIndex.{
  Memo, Backing, malformed_page, memo_start, from_memo, find_page_start, located, carry, remember,
  serve_ogg_window,
}
use musefs.Core.OggIndex.Pages.{
  AudioPage, page_bytes, IsPage, region, patched_header, served_region, fresh_header-IsOk,
  length-page, region-append,
}
use musefs.Core.OggIndex.Serve.{IsMemory, serve_pages-window}
use musefs.Core.OggIndex.Walk.{ReadsExact, IsCarried, checked-fits}

served-append :
    (delta : ℤ) (a b : List AudioPage)
    → served_region delta (a ++ b) ≡ served_region delta a ++ served_region delta b
served-append delta [] b = refl
served-append delta (p ∷ a) b =
    ap (λ t. patched_header delta p ++ (p.payload ++ t)) (served-append delta a b)
    ∙ ap (λ t. patched_header delta p ++ t)
        (sym (append_assoc p.payload (served_region delta a) (served_region delta b)))
    ∙ sym (
        append_assoc (patched_header delta p) (p.payload ++ served_region delta a)
          (served_region delta b))

-- What is served is as long as the region.
pub length-served_region :
    (delta : ℤ) (ps : List AudioPage)
    → All IsPage ps
    → length (served_region delta ps) ≡ length (region ps)
length-served_region delta [] h = refl
length-served_region delta (p ∷ ps) h = omega (
  arith,
  (fresh_header-IsOk p delta h.0).1,
  length-append (patched_header delta p) (p.payload ++ served_region delta ps),
  length-append p.payload (served_region delta ps),
  length-append (page_bytes p) (region ps),
  length-append p.header p.payload,
  length-served_region delta ps h.1,
)

length-pages : (ps : List AudioPage) → All IsPage ps → length ps ≤ length (region ps)
length-pages [] h = omega arith
length-pages (p ∷ ps) h =
    omega (arith, length-page p h.0, length-pages ps h.1, length-append (page_bytes p) (region ps))

All-front : (a b : List AudioPage) → All IsPage (a ++ b) → All IsPage a
All-front [] b h = tt
All-front (p ∷ a) b h = (h.0, All-front a b h.1)

-- The memo holds the place where the read begins.
abbrev pub Covers : Option Memo → ℕ → Type 0
Covers none rstart = rstart < 4
Covers (some m) rstart =
    (rstart < 4) ⊎ ((m.page_rel ≤ rstart) × (rstart < m.page_rel + m.total_len))

carry-IsCarried :
    (delta : ℤ) (all : List AudioPage) (memo : Option Memo)
    → IsMemory delta all memo
    → IsCarried delta all (carry memo)
carry-IsCarried delta all none h = tt
carry-IsCarried delta all (some m) (before, p, after, split, at_rel, total, header) =
    (before, p, after, split, at_rel, header)

remember-IsMemory :
    (delta : ℤ) (all : List AudioPage) (memo last : Option Memo)
    → IsMemory delta all memo
    → IsMemory delta all last
    → IsMemory delta all (remember memo last)
remember-IsMemory delta all memo none h k = h
remember-IsMemory delta all memo (some e) h k = k

find_page_start-near :
    (backing : Backing) (offset rstart : ℕ) (memo : Option Memo)
    → rstart < 4
    → find_page_start backing offset (offset + rstart) memo ≡ ok (offset + 0)
unfolding find_page_start
find_page_start-near backing offset rstart memo near =
    let test : ltb (offset + rstart - offset) 4 ≡ true =
      lt→ltb (offset + rstart - offset) 4 (omega arith) in
    let front : offset ≡ offset + 0 = omega arith in rw (find_page_start, test) (ap ok front)

find_page_start-memo :
    (backing : Backing) (offset rstart : ℕ) (m : Memo)
    → 4 ≤ rstart
    → m.page_rel ≤ rstart
    → rstart < m.page_rel + m.total_len
    → offset + (m.page_rel + m.total_len) ≤ u64_max
    → find_page_start backing offset (offset + rstart) (some m) ≡ ok (offset + m.page_rel)
unfolding find_page_start from_memo memo_start
find_page_start-memo backing offset rstart m far low high word =
    let test : ltb (offset + rstart - offset) 4 ≡ false =
      le→ltb_false (offset + rstart - offset) 4 (omega arith) in
    let start = checked-fits malformed_page offset m.page_rel (omega arith) in
    let end = checked-fits malformed_page (offset + m.page_rel) m.total_len (omega arith) in
    let from : leb (offset + m.page_rel) (offset + rstart) ≡ true =
      le→leb (offset + m.page_rel) (offset + rstart) (omega arith) in
    let to : ltb (offset + rstart) (offset + m.page_rel + m.total_len) ≡ true =
      lt→ltb (offset + rstart) (offset + m.page_rel + m.total_len) (omega arith) in
    rw (find_page_start, test, from_memo, memo_start, start, end, from, to) refl

-- The page that the search returns stands at or before the place.
find_page_start-covered :
    (delta : ℤ) (all : List AudioPage) (backing : Backing) (offset rstart : ℕ) (memo : Option Memo)
    → All IsPage all
    → offset + length (region all) ≤ u64_max
    → IsMemory delta all memo
    → Covers memo rstart
    → (before : List AudioPage) × (qs : List AudioPage) × (all ≡ before ++ qs)
      × (length (region before) ≤ rstart)
      × (find_page_start backing offset (offset + rstart) memo
          ≡ ok (offset + length (region before)))
find_page_start-covered delta all backing offset rstart none good word valid near =
    ([], all, refl, omega arith, find_page_start-near backing offset rstart none near)
find_page_start-covered delta all backing offset rstart (some m) good word valid (inl near) =
    ([], all, refl, omega arith, find_page_start-near backing offset rstart (some m) near)
find_page_start-covered delta all backing offset rstart (some m) good word valid (inr (low, high)) =
    let (before, p, after, split, at_rel, total, header) = valid in
    elim (le_or_lt 4 rstart) [
      | inr near ↦
          ([], all, refl, omega arith, find_page_start-near backing offset rstart (some m) near)
      | inl far ↦
          let region_len =
            ap (λ t. length (region t)) split ∙ ap length (region-append before (p ∷ after)) in
          let fits : offset + (m.page_rel + m.total_len) ≤ u64_max = omega (
            arith,
            region_len,
            length-append (region before) (page_bytes p ++ region after),
            length-append (page_bytes p) (region after),
          ) in
          (
            before,
            p ∷ after,
            split,
            omega arith,
            find_page_start-memo backing offset rstart m far low high fits
                ∙ ap (λ n. ok (offset + n)) at_rel,
          )
    ]

-- The asked range lies behind what comes before the first page.
slice-behind :
    (a b : Bytes) (n rstart rend : ℕ)
    → length a ≡ n
    → n ≤ rstart
    → window b rstart rend n ≡ slice (a ++ b) rstart (rend - rstart)
slice-behind a b n rstart rend len low =
    let from : rstart ≡ length a + (rstart - n) = omega arith in
    let size : rend - max rstart n ≡ rend - rstart = omega arith in
    ap (slice b (rstart - n)) size
    ∙ sym (slice-append_right a b rstart (rstart - n) (rend - rstart) from)

module _ (file : Bytes) (backing : Backing) (reads : ReadsExact file backing) (delta : ℤ)
    (pre post : Bytes) (all : List AudioPage) (good : All IsPage all)
    (file_is : file ≡ pre ++ (region all ++ post))
    (word : length pre + length (region all) ≤ u64_max) where
  -- The pages of the audio region are served with their sequence numbers moved and their CRCs put
  -- right: a read of a range that begins in the first four bytes, or on the page of the memo, returns
  -- exactly that range of the renumbered region, cut at its end, and leaves a memo that names a page
  -- of the region with its patched header. The region is a run of whole pages inside the file, its
  -- end fits 64 bits, and the memo before, if any, is such a memo.
  pub serve_ogg_window-covered :
      (rstart rend : ℕ) (memo : Option Memo)
      → IsMemory delta all memo
      → Covers memo rstart
      → rstart < length (region all)
      → (memo' : Option Memo) × (serve_ogg_window backing
            (length pre)
            (length (region all))
            delta
            rstart
            rend
            memo
          ≡ some (ok (slice (served_region delta all) rstart (rend - rstart), memo')))
        × IsMemory delta all memo'
  unfolding serve_ogg_window located
  serve_ogg_window-covered rstart rend memo valid covers inside =
      elim (Bool-cases (leb rend rstart)) [
        | inl empty ↦
            let none_asked : rend - rstart ≡ 0 = omega (arith, leb→le rend rstart empty) in
            (
              memo,
              rw (serve_ogg_window, empty)
                  (ap (λ n. some (ok (slice (served_region delta all) rstart n, memo)))
                    (sym none_asked)),
              valid,
            )
        | inr asked ↦
            let (before, qs, split, low, found) =
              find_page_start-covered delta all backing (length pre) rstart memo good word valid
                covers in
            let end = checked-fits malformed_page (length pre) (length (region all)) word in
            let start = checked-fits malformed_page (length pre) rstart (omega arith) in
            let good_parts = subst (All IsPage) split good in
            let good_qs = All-append_right IsPage before qs good_parts in
            let good_before = All-front before qs good_parts in
            let region_len =
              ap (λ t. length (region t)) split ∙ ap length (region-append before qs) in
            let enough : length qs < suc (length (region all)) = omega (
              arith,
              length-pages qs good_qs,
              region_len,
              length-append (region before) (region qs),
            ) in
            let bytes : window (served_region delta qs) rstart rend (length (region before))
                ≡ slice (served_region delta all) rstart (rend - rstart) =
              slice-behind (served_region delta before) (served_region delta qs)
                (length (region before)) rstart rend (length-served_region delta before good_before)
                low
              ∙ ap (λ t. slice t rstart (rend - rstart))
                  (sym (ap (served_region delta) split ∙ served-append delta before qs)) in
            let (last, walk, known) =
              serve_pages-window file backing reads delta pre post all good file_is word qs before
                (suc (length (region all))) rstart rend (carry memo) [] none split enough
                (carry-IsCarried delta all memo valid) tt in
            let place : located backing (length pre) (length (region all)) rstart memo
                ≡ ok (length pre + length (region all), length pre + length (region before)) =
              rw (located, end, start, found) refl in
            (
              remember memo last,
              rw (serve_ogg_window, asked, place, walk)
                  (ap (λ t. some (ok (t, remember memo last))) bytes),
              remember-IsMemory delta all memo last valid known,
            )
      ]
