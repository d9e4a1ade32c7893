-- ===== src/Format/Ogg/Page/Renumber.antt =====
-- Renumbering a page by its header alone.
use musefs.Base.{
  ℕ, ◌+◌, ◌-◌, ◌≤◌, ◌≡◌, refl, sym, ap, ◌∙◌, inl, inr, Bool-cases, true, false, ◌++◌, length,
  length-take, length-drop, take, drop, All, leb, ltb, bit_xor, le→ltb_false, arith,
}
use musefs.Base.Slices.{slice, take-append_ge, take-take, take-all, length-slice}
use musefs.Base.Words.{Bytes, to_le_bytes}
use musefs.Base.Results.{ok, ok-inj}
use musefs.Format.Bytes.{byte}
use musefs.Format.Ogg.Crc.{crc32, crc_shift_zeros}
use musefs.Format.Ogg.Crc.Update.{IsByte}
use musefs.Format.Ogg.Page.{
  PageHeader, sum_bytes, le_at, parse_page, copy_at, patch_page_header, patch_page_header_algebraic,
  verify_page_crc,
}
use musefs.Format.Ogg.Page.Delta.{crc32-renumbered, zeroed, to_le_bytes-from_le_bytes}
use musefs.Format.Ogg.Page.Patch.{
  parse_page-header_at, copy_at-append, copy_at-third, slice-take, byte-take, page_parts,
  sum_bytes-le, All-take, All-drop, byte-IsByte,
}

module _ (xs : Bytes) where
  abbrev pub front : Bytes
  front = take 18 xs

  abbrev seg : ℕ
  seg = byte xs 26

  abbrev payload : ℕ
  payload = sum_bytes (slice xs 27 seg)

  abbrev pub whole_len : ℕ
  whole_len = 27 + seg + payload

  -- Behind the CRC, to the end of the page.
  abbrev pub tail : Bytes
  tail = take (1 + seg + payload) (drop 26 xs)

  -- The header with another number and CRC.
  abbrev pub renumbered : ℕ → ℕ → Bytes
  renumbered fresh crc =
      front ++ (to_le_bytes 4 fresh ++ (to_le_bytes 4 crc ++ take (1 + seg) (drop 26 xs)))

  parts_to :
      (n : ℕ)
      → 26 ≤ length xs
      → take (26 + n) xs ≡ front ++ (slice xs 18 4 ++ (slice xs 22 4 ++ take n (drop 26 xs)))
  parts_to n long =
      let rest : 26 + n - 26 ≡ n = omega arith in
      page_parts xs (26 + n) (omega arith) long
      ∙ ap (λ k. front ++ (slice xs 18 4 ++ (slice xs 22 4 ++ take k (drop 26 xs)))) rest

  zeroed-copy_at :
      26 ≤ length xs
      → copy_at (take whole_len xs) 22 (to_le_bytes 4 0) ≡ zeroed front (slice xs 18 4) tail
  zeroed-copy_at long =
      let cut : whole_len ≡ 26 + (1 + seg + payload) = omega arith in
      ap (λ k. copy_at (take k xs) 22 (to_le_bytes 4 0)) cut
      ∙ ap (λ t. copy_at t 22 (to_le_bytes 4 0)) (parts_to (1 + seg + payload) long)
      ∙ copy_at-third front (slice xs 18 4) (slice xs 22 4) tail (to_le_bytes 4 0) 22
          (omega (arith, length-take 18 xs, length-slice xs 18 4 (omega arith)))
          (length-slice xs 22 4 (omega arith))

  -- Renumbering over the whole page, written out.
  pub patch_page_header-renumbered :
      (fresh : ℕ) (h : PageHeader)
      → parse_page xs 0 ≡ ok h
      → whole_len ≤ length xs
      → patch_page_header xs fresh
        ≡ ok (renumbered fresh (crc32 (zeroed front (to_le_bytes 4 fresh) tail)))
  unfolding patch_page_header
  patch_page_header-renumbered fresh h parsed fits =
      let (is, inside) = parse_page-header_at xs 0 h parsed in
      let fits_test : leb whole_len (length xs) ≡ true = ground arith in
      let len_front = length-take 18 xs in
      let new = to_le_bytes 4 fresh in
      let cut : whole_len ≡ 26 + (1 + seg + payload) = omega arith in
      let numbered : copy_at (take whole_len xs) 18 new
          ≡ front ++ (new ++ (slice xs 22 4 ++ tail)) =
        ap (λ k. copy_at (take k xs) 18 new) cut
        ∙ ap (λ t. copy_at t 18 new) (parts_to (1 + seg + payload) (omega arith))
        ∙ copy_at-append front (slice xs 18 4) (slice xs 22 4 ++ tail) new 18 (omega arith)
            (length-slice xs 18 4 (omega arith)) in
      let full : copy_at (copy_at (take whole_len xs) 18 new) 22 (to_le_bytes 4 0)
          ≡ zeroed front new tail =
        ap (λ t. copy_at t 22 (to_le_bytes 4 0)) numbered
        ∙ copy_at-third front new (slice xs 22 4) tail (to_le_bytes 4 0) 22 (omega arith)
            (length-slice xs 22 4 (omega arith)) in
      let finished = λ (t : Bytes). take (27 + seg) (copy_at t 22 (to_le_bytes 4 (crc32 t))) in
      let crc = to_le_bytes 4 (crc32 (zeroed front new tail)) in
      let header_cut : take (27 + seg) (front ++ (new ++ (crc ++ tail)))
          ≡ front ++ (new ++ (crc ++ take (1 + seg) (drop 26 xs))) =
        take-append_ge (27 + seg) (9 + seg) front (new ++ (crc ++ tail)) (omega arith)
        ∙ ap (λ t. front ++ t)
            (take-append_ge (9 + seg) (5 + seg) new (crc ++ tail) (omega arith)
              ∙ ap (λ t. new ++ t)
                  (take-append_ge (5 + seg) (1 + seg) crc tail (omega arith)
                    ∙ ap (λ t. crc ++ t)
                        (take-take (1 + seg) (1 + seg + payload) (drop 26 xs) (omega arith)))) in
      rw (patch_page_header, parsed, ← is, fits_test)
        (ap (λ t. ok (finished t)) full
          ∙ ap (λ t. ok (take (27 + seg) t))
              (copy_at-third front new (to_le_bytes 4 0) tail crc 22 (omega arith) refl)
          ∙ ap ok header_cut)

  patch_page_header_algebraic-renumbered :
      (fresh : ℕ)
      → 27 + seg ≤ length xs
      → patch_page_header_algebraic (take (27 + seg) xs) fresh
        ≡ ok (
            renumbered fresh (
              bit_xor (le_at xs 22 4) (
                crc_shift_zeros
                  (crc32 (to_le_bytes 4 (bit_xor (le_at xs 18 4) fresh)))
                  (5 + seg + payload))))
  unfolding patch_page_header_algebraic
  patch_page_header_algebraic-renumbered fresh inside =
      let header = take (27 + seg) xs in
      let len : length header ≡ 27 + seg = omega (arith, length-take (27 + seg) xs) in
      let long : ltb (length header) 27 ≡ false = le→ltb_false (length header) 27 (omega arith) in
      let same_seg : byte header 26 ≡ seg = byte-take xs 26 (27 + seg) (omega arith) in
      let whole : ltb (length header) (27 + seg) ≡ false = le→ltb_false _ _ (omega arith) in
      let table_is : slice header 27 seg ≡ slice xs 27 seg =
        slice-take xs 27 seg (27 + seg) (omega arith) in
      let seq_is : slice header 18 4 ≡ slice xs 18 4 =
        slice-take xs 18 4 (27 + seg) (omega arith) in
      let crc_is : slice header 22 4 ≡ slice xs 22 4 =
        slice-take xs 22 4 (27 + seg) (omega arith) in
      let new = to_le_bytes 4 fresh in
      let cut : 27 + seg ≡ 26 + (1 + seg) = omega arith in
      let behind = take (1 + seg) (drop 26 xs) in
      let len_front = length-take 18 xs in
      let put = λ (crc : ℕ).
        ap (λ t. copy_at (copy_at t 18 new) 22 (to_le_bytes 4 crc))
          (take-all (27 + seg) header (omega arith)
            ∙ ap (λ k. take k xs) cut
            ∙ parts_to (1 + seg) (omega arith))
        ∙ ap (λ t. copy_at t 22 (to_le_bytes 4 crc))
            (copy_at-append front (slice xs 18 4) (slice xs 22 4 ++ behind) new 18 (omega arith)
              (length-slice xs 18 4 (omega arith)))
        ∙ copy_at-third front new (slice xs 22 4) behind (to_le_bytes 4 crc) 22 (omega arith)
            (length-slice xs 22 4 (omega arith)) in
      rw (patch_page_header_algebraic, same_seg, long, whole, table_is, seq_is, crc_is)
        (ap ok (put _))

  verify_page_crc-zeroed :
      (h : PageHeader)
      → parse_page xs 0 ≡ ok h
      → verify_page_crc xs ≡ ok true
      → (whole_len ≤ length xs) × (crc32 (zeroed front (slice xs 18 4) tail) ≡ le_at xs 22 4)
  unfolding verify_page_crc
  verify_page_crc-zeroed h parsed valid =
      let (is, inside) = parse_page-header_at xs 0 h parsed in
      let valid' = rw (verify_page_crc, parsed, ← is) at valid in
      elim (Bool-cases (leb whole_len (length xs))) [
        | inr short ↦ cc (rw short at valid')
        | inl fits ↦
            let tested = ok-inj (rw fits at valid') in
            (ground arith, ap crc32 (sym (zeroed-copy_at (omega arith))) ∙ ground (arith, tested))
      ]

  -- For a page that parses and whose CRC is right, the header renumbered from the header alone is the
  -- one renumbered and recomputed over the whole page.
  pub patch_page_header_algebraic-same :
      (h : PageHeader) (fresh : ℕ)
      → All IsByte xs
      → parse_page xs 0 ≡ ok h
      → verify_page_crc xs ≡ ok true
      → patch_page_header_algebraic (take h.header_len xs) fresh ≡ patch_page_header xs fresh
  patch_page_header_algebraic-same h fresh bytes parsed valid =
      let (is, inside) = parse_page-header_at xs 0 h parsed in
      let (fits, checked) = verify_page_crc-zeroed h parsed valid in
      let new = to_le_bytes 4 fresh in
      let old = le_at xs 18 4 in
      let len_front : length front ≡ 18 = omega (arith, length-take 18 xs) in
      let len_tail : length tail ≡ 1 + seg + payload =
        omega (arith, length-take (1 + seg + payload) (drop 26 xs), length-drop 26 xs) in
      let table_len = length-slice xs 27 seg (omega arith) in
      let small =
        sum_bytes-le (slice xs 27 seg) (All-take seg (drop 27 xs) (All-drop 27 xs bytes)) in
      let seg_byte = byte-IsByte xs 26 bytes in
      let seq_len = length-slice xs 18 4 (omega arith) in
      let seq_is : to_le_bytes 4 old ≡ slice xs 18 4 =
        ap (λ k. to_le_bytes k old) (sym seq_len)
        ∙ to_le_bytes-from_le_bytes (slice xs 18 4)
            (All-take 4 (drop 18 xs) (All-drop 18 xs bytes)) in
      let trailing : 4 + length tail ≡ 5 + seg + payload = omega arith in
      let crc_is =
        crc32-renumbered front tail old fresh len_front (All-take 18 xs bytes)
          (All-take (1 + seg + payload) (drop 26 xs) (All-drop 26 xs bytes)) (omega arith)
        ∙ ap
            (λ t.
              bit_xor (crc32 (zeroed front t tail))
                (crc_shift_zeros (crc32 (to_le_bytes 4 (bit_xor old fresh))) (4 + length tail)))
            seq_is
        ∙ ap
            (λ t.
              bit_xor t
                (crc_shift_zeros (crc32 (to_le_bytes 4 (bit_xor old fresh))) (4 + length tail)))
            checked
        ∙ ap
            (λ k.
              bit_xor (le_at xs 22 4)
                (crc_shift_zeros (crc32 (to_le_bytes 4 (bit_xor old fresh))) k))
            trailing in
      ap (λ k. patch_page_header_algebraic (take k.header_len xs) fresh) (sym is)
      ∙ patch_page_header_algebraic-renumbered fresh inside
      ∙ ap (λ c. ok (renumbered fresh c)) (sym crc_is)
      ∙ sym (patch_page_header-renumbered fresh h parsed fits)
