-- ===== src/Core/OggIndex/Locate.antt =====
-- Where `find_page_start` begins when neither the front of the region nor the memo tells.
use musefs.Base.{
  ℕ, zero, suc, ◌+◌, ◌-◌, ◌≤◌, ◌<◌, max, ◌≡◌, refl, sym, ap, subst, ◌∙◌, inl, inr, Bool, Bool-cases,
  true, false, ◌&&◌, ◌||◌, [], ◌∷◌, All, bit_and, length, take, drop, ltb, leb, le→leb,
  le→ltb_false, lt→ltb, le_or_lt, ◌==◌, if◌then◌else◌, arith,
}
use musefs.Base.Compare.{ascii, ◌==bytes◌, ==bytes_iff}
use musefs.Base.Slices.{slice, slice-slice, take-take, length-slice}
use musefs.Base.Words.{Bytes}
use musefs.Base.Results.{ok, err}
use musefs.Format.Bytes.{byte}
use musefs.Format.Ogg.Crc.Update.{IsByte}
use musefs.Format.Ogg.Page.{capture}
use musefs.Format.Ogg.Page.Patch.{byte-take}
use musefs.Core.Error.{CoreResult}
use musefs.Core.OggIndex.{
  Backing, malformed_page, max_ogg_page_bytes, max_crc_checks, page_crc_ok, is_candidate,
  try_candidate, scan_back, scan_page_start,
}
use musefs.Core.OggIndex.CrcCheck.{declared_len, BeginsPage, ReadsFile, page_crc_ok-decides}

-- The numbers above `s`, up to `i`, that pass a test.
abbrev pub count : (ℕ → Bool) → ℕ → ℕ → ℕ
count test s zero = 0
count test s (suc i) = count test s i + (if ltb s (suc i) && test (suc i) then 1 else 0)

-- What the bytes of the file before `target` show of a page's start: the capture, and, as far as they
-- reach, version 0 and no flag but the lowest three.
abbrev pub looks_like_page : Bytes → ℕ → ℕ → Bool
looks_like_page file target off =
    (slice file off 4 ==bytes ascii "OggS")
    && ((leb target (off + 4) || byte file (off + 4) == 0)
        && (leb target (off + 5) || bit_and (byte file (off + 5)) 0xf8 == 0))

count-none : (test : ℕ → Bool) (s i : ℕ) → i ≤ s → count test s i ≡ 0
count-none test s zero h = refl
count-none test s (suc i) h =
    let below : ltb s (suc i) ≡ false = le→ltb_false s (suc i) h in
    rw (count-none test s i (omega arith), below) refl

count-shift :
    (test test' : ℕ → Bool) (a s i : ℕ)
    → ((j : ℕ) → j ≤ i → test' j ≡ test (a + j))
    → count test' s i ≡ count test (a + s) (a + i)
count-shift test test' a s zero same = sym (count-none test (a + s) (a + 0) (omega arith))
count-shift test test' a s (suc i) same =
    let next : a + suc i ≡ suc (a + i) = omega arith in
    let above : ltb s (suc i) ≡ ltb (a + s) (suc (a + i)) = ground arith in
    let here : test' (suc i) ≡ test (suc (a + i)) = same (suc i) (omega arith) ∙ ap test next in
    let rest = count-shift test test' a s i (λ j h. same j (omega arith)) in
    ap (λ (t : Bool). count test' s i + (if t && test' (suc i) then 1 else 0)) above
    ∙ ap (λ (t : Bool). count test' s i + (if ltb (a + s) (suc (a + i)) && t then 1 else 0)) here
    ∙ ap (λ k. k + (if ltb (a + s) (suc (a + i)) && test (suc (a + i)) then 1 else 0)) rest
    ∙ ap (count test (a + s)) (sym next)

byte-drop : (k i c : ℕ) (xs : Bytes) → c ≡ k + i → byte (drop k xs) i ≡ byte xs c
byte-drop zero i c xs h = let e : i ≡ c = omega arith in ap (byte xs) e
byte-drop (suc k) i zero xs h = absurd (omega arith)
byte-drop (suc k) i (suc c) [] h = refl
byte-drop (suc k) i (suc c) (x ∷ xs) h = byte-drop k i c xs (omega arith)

module _ (backing : Backing) (window : Bytes) (scan_start s : ℕ)
    (at_start : is_candidate window s ≡ true)
    (start_valid : page_crc_ok backing (scan_start + s) ≡ ok true) where
  try_candidate-start :
      (checks : ℕ) (rest : ℕ → CoreResult ℕ)
      → 0 < checks
      → try_candidate backing window scan_start s checks rest ≡ ok (scan_start + s)
  unfolding try_candidate
  try_candidate-start zero rest some_left = absurd (omega arith)
  try_candidate-start (suc left) rest some_left = rw (try_candidate, at_start, start_valid) refl

  -- The scan passes over what only looks like a page, and stops at the page.
  scan_back-start :
      (i checks : ℕ)
      → s ≤ i
      → ((j : ℕ)
          → s < j
          → j ≤ i
          → is_candidate window j ≡ true
          → page_crc_ok backing (scan_start + j) ≡ ok false)
      → count (is_candidate window) s i < checks
      → scan_back backing window scan_start i checks ≡ ok (scan_start + s)
  unfolding scan_back try_candidate
  scan_back-start zero checks low false_starts few =
      let here : 0 ≡ s = omega arith in
      ap (λ k. try_candidate backing window scan_start k checks (λ left. err malformed_page)) here
      ∙ try_candidate-start checks (λ left. err malformed_page) (omega arith)
  scan_back-start (suc i) zero low false_starts few = absurd (omega arith)
  scan_back-start (suc i) (suc left) low false_starts few = elim (le_or_lt s i) [
    | inr at_top ↦
        let here : suc i ≡ s = omega arith in
        ap
          (λ k.
            try_candidate backing window scan_start k (suc left)
              (λ left. scan_back backing window scan_start i left))
          here
        ∙ try_candidate-start (suc left) (λ left. scan_back backing window scan_start i left)
            (omega arith)
    | inl below ↦
        let above : ltb s (suc i) ≡ true = lt→ltb s (suc i) (omega arith) in
        let false_below = λ (j : ℕ) (h : s < j) (k : j ≤ i). false_starts j h (omega arith) in
        elim (Bool-cases (is_candidate window (suc i))) [
          | inr plain ↦
              let counted = rw (above, plain) at few in
              rw (scan_back, try_candidate, plain)
                (scan_back-start i (suc left) below false_below (omega arith))
          | inl looks ↦
              let counted = rw (above, looks) at few in
              let rejected = false_starts (suc i) (omega arith) (omega arith) looks in
              rw (scan_back, try_candidate, looks, rejected)
                (scan_back-start i left below false_below (omega arith))
        ]
  ]

-- A test of a byte of the window that passes behind its end.
field-file :
    (test : ℕ → Bool) (file : Bytes) (a n i c : ℕ)
    → c ≡ a + i
    → (leb n i || test (byte (slice file a n) i)) ≡ (leb (a + n) c || test (byte file c))
field-file test file a n i c at = elim (le_or_lt n i) [
  | inl past ↦ rw (le→leb n i past, le→leb (a + n) c (omega arith)) refl
  | inr inside ↦
      let short : leb n i ≡ leb (a + n) c = ground arith in
      ap (λ (t : Bool). t || test (byte (slice file a n) i)) short
      ∙ ap (λ b. leb (a + n) c || test b)
          (byte-take (drop a file) i n inside ∙ byte-drop a i c file at)
]

-- The test on the window is the test on the file.
is_candidate-file :
    (file : Bytes) (a n i : ℕ)
    → a + n ≤ length file
    → i + 4 ≤ n
    → is_candidate (slice file a n) i ≡ looks_like_page file (a + n) (a + i)
unfolding is_candidate
is_candidate-file file a n i inside room =
    let len : length (slice file a n) ≡ n = length-slice file a n inside in
    let front : slice (slice file a n) i 4 ≡ slice file (a + i) 4 =
      slice-slice file a n i 4 (a + i) room (omega arith) in
    let version = field-file (λ b. b == 0) file a n (i + 4) (a + i + 4) (omega arith) in
    let flags = field-file (λ b. bit_and b 0xf8 == 0) file a n (i + 5) (a + i + 5) (omega arith) in
    rw (is_candidate, len, front)
      (ap
          (λ (t : Bool).
            (slice file (a + i) 4 ==bytes capture)
            && (t && (leb n (i + 5) || bit_and (byte (slice file a n) (i + 5)) 0xf8 == 0)))
          version
        ∙ ap
            (λ (t : Bool).
              (slice file (a + i) 4 ==bytes capture)
              && ((leb (a + n) (a + i + 4) || byte file (a + i + 4) == 0) && t))
            flags)

passes : (a b : Bool) → ((a || true) && (b || true)) ≡ true
passes false false = refl
passes false true = refl
passes true false = refl
passes true true = refl

-- A whole page with no flag but the lowest three looks like one.
page-looks_like_page :
    (file : Bytes) (target off : ℕ)
    → BeginsPage (drop off file)
    → bit_and (byte file (off + 5)) 0xf8 ≡ 0
    → looks_like_page file target off ≡ true
page-looks_like_page file target off (fits, (captured, version, crc)) flags =
    let xs = drop off file in
    let oggs : (slice file off 4 ==bytes ascii "OggS") ≡ true =
      (==bytes_iff (take 4 xs) (ascii "OggS")).1
        (sym (take-take 4 (declared_len xs) xs (omega arith)) ∙ captured) in
    let zero_version : byte file (off + 4) ≡ 0 =
      sym (byte-drop off 4 (off + 4) file refl)
      ∙ sym (byte-take xs 4 (declared_len xs) (omega arith))
      ∙ version in
    rw (oggs, zero_version, flags) (passes (leb target (off + 4)) (leb target (off + 5)))

module _ (file : Bytes) (backing : Backing) (reads : ReadsFile file backing)
    (bytes : All IsByte file) where
  -- The backward scan from a place in the audio region gives the nearest page that starts at least
  -- four bytes before it, whatever looks like a page between them without being one of a right CRC.
  -- The page begins in the region, at most the length of the longest page before the place, and has
  -- no flag but the lowest three, and fewer than 64 starts between them look like a page's.
  pub scan_page_start-nearest :
      (audio_offset target start : ℕ)
      → audio_offset ≤ start
      → start + 4 ≤ target
      → target ≤ start + max_ogg_page_bytes
      → target ≤ length file
      → BeginsPage (drop start file)
      → bit_and (byte file (start + 5)) 0xf8 ≡ 0
      → ((j : ℕ) → start < j → j + 4 ≤ target → ¬ BeginsPage (drop j file))
      → count (looks_like_page file target) start (target - 4) < max_crc_checks
      → scan_page_start backing audio_offset target ≡ ok start
  unfolding scan_page_start
  scan_page_start-nearest audio_offset target start low room near inside page flags alone few =
      let a = max (target - max_ogg_page_bytes) audio_offset in
      let n = target - a in
      let end : a + n ≡ target = omega arith in
      let s = start - a in
      let start_is : a + s ≡ start = omega arith in
      let read = reads.exact a n (omega arith) in
      let window = slice file a n in
      let looks : is_candidate window s ≡ true =
        is_candidate-file file a n s (omega arith) (omega arith)
        ∙ ap (looks_like_page file (a + n)) start_is
        ∙ page-looks_like_page file (a + n) start page flags in
      let valid : page_crc_ok backing (a + s) ≡ ok true =
        elim (page_crc_ok-decides file backing reads bytes (a + s)) [
          | inl (accepts, whole) ↦ accepts
          | inr (refuses, foreign) ↦
              absurd (foreign (subst (λ k. BeginsPage (drop k file)) (sym start_is) page))
        ] in
      let decoys : (j : ℕ) → s < j → j ≤ n - 4 → page_crc_ok backing (a + j) ≡ ok false =
        λ j above below. elim (page_crc_ok-decides file backing reads bytes (a + j)) [
          | inl (accepts, whole) ↦ absurd (alone (a + j) (omega arith) (omega arith) whole)
          | inr (refuses, foreign) ↦ refuses
        ] in
      let top : a + (n - 4) ≡ target - 4 = omega arith in
      let counted : count (is_candidate window) s (n - 4)
          ≡ count (looks_like_page file target) start (target - 4) =
        count-shift (looks_like_page file (a + n)) (is_candidate window) a s (n - 4)
          (λ j h. is_candidate-file file a n j (omega arith) (omega arith))
        ∙ ap (λ k. count (looks_like_page file k) (a + s) (a + (n - 4))) end
        ∙ ap (λ k. count (looks_like_page file target) k (a + (n - 4))) start_is
        ∙ ap (count (looks_like_page file target) start) top in
      rw (scan_page_start, read)
        (scan_back-start backing window a s looks valid (n - 4) max_crc_checks (omega arith)
            (λ j above below looks. decoys j above below) (omega arith)
          ∙ ap ok start_is)
