-- ===== src/Tests/OggIndex.antt =====
-- A region of two Ogg pages, served.
use musefs.Base.{
  ℕ, ◌+◌, ◌≤◌, ◌<◌, ◌≡◌, refl, inr, false, true, Option, some, List, [], ◌∷◌, ◌++◌, length, take,
  drop, All, ltb, ltb→lt, arith,
}
use musefs.Base.Int.{pos}
use musefs.Base.Check.{every, every-All}
use musefs.Base.Slices.{slice}
use musefs.Base.Compare.{◌==bytes◌}
use musefs.Base.Words.{Bytes}
use musefs.Base.Results.{ok}
use musefs.Core.Error.{io}
use musefs.Core.OggIndex.{Memo, Backing, serve_ogg_window}
use musefs.Core.OggIndex.Pages.{
  AudioPage, page_bytes, IsPage, region, patched_header, served_region,
}
use musefs.Core.OggIndex.Serve.{IsMemory}
use musefs.Core.OggIndex.Walk.{ReadsExact}
use musefs.Core.OggIndex.Window.{serve_ogg_window-covered}
use musefs.Format.Ogg.Crc.Update.{IsByte}
use musefs.Format.Ogg.Crc.{crc32, crc32_update, crc_step, table, poly_bits}
use musefs.Format.Ogg.Page.{
  copy_at, flags, lace_loop, lace_packet, lacing_values, page_head, push_page, parse_page,
  verify_page_crc,
}
use musefs.Tests.Fixtures.{read_mem, read_mem-in_range}

abbrev page_of : ℕ → Bytes → AudioPage
page_of seq packet =
    let bytes = (lace_packet 5 seq false 96 packet).0 in
    record { header = take 28 bytes; payload = drop 28 bytes }

abbrev first_page : AudioPage
first_page = page_of 2 (1 ∷ 2 ∷ 3 ∷ [])

abbrev second_page : AudioPage
second_page = page_of 3 (4 ∷ 5 ∷ [])

abbrev pages : List AudioPage
pages = first_page ∷ second_page ∷ []

pages-IsPage : All IsPage pages
unfolding every verify_page_crc parse_page ◌==bytes◌ crc32 crc32_update crc_step table poly_bits
    musefs.Format.Ogg.Crc.poly_bit lace_packet lace_loop lacing_values flags push_page copy_at
    page_head
pages-IsPage =
    let bytes = λ (xs : Bytes) (h : every (λ b. ltb b 256) xs ≡ true).
      every-All IsByte (λ b. ltb b 256) xs (λ b h. ltb→lt b 256 h) h in
    (
      (refl, omega arith, refl, bytes (page_bytes first_page) refl, refl),
      ((refl, omega arith, refl, bytes (page_bytes second_page) refl, refl), tt),
    )

abbrev file : Bytes
file = 9 ∷ 9 ∷ (region pages ++ (8 ∷ []))

abbrev backing : Backing
backing = record {
  read_at = λ off n. ok (slice file off n);
  read_exact_at = λ off n. read_mem (io 0) file off n;
}

backing-ReadsExact : ReadsExact file backing
backing-ReadsExact = record { in_range = λ off n h. read_mem-in_range (io 0) file off n h }

abbrev memo : Option Memo
memo = some (record { page_rel = 0; total_len = 31; header = patched_header (pos 4) first_page })

memo-IsMemory : IsMemory (pos 4) pages memo
unfolding lace_packet lace_loop lacing_values flags push_page copy_at page_head
memo-IsMemory = ([], first_page, page_of 3 (4 ∷ 5 ∷ []) ∷ [], refl, refl, refl, refl)

region_small : 2 + length (region pages) ≤ 18446744073709551615
unfolding lace_packet lace_loop lacing_values flags push_page copy_at page_head
region_small = omega arith

read_inside : 20 < length (region pages)
unfolding lace_packet lace_loop lacing_values flags push_page copy_at page_head
read_inside = omega arith

-- From the patched header of the first page into the second one.
serve_ogg_window-covered_example :
    (memo' : Option Memo) × (serve_ogg_window backing 2 (length (region pages)) (pos 4) 20 50 memo
      ≡ some (ok (slice (served_region (pos 4) pages) 20 30, memo')))
    × IsMemory (pos 4) pages memo'
serve_ogg_window-covered_example =
    serve_ogg_window-covered file backing backing-ReadsExact (pos 4) (9 ∷ 9 ∷ []) (8 ∷ []) pages
      pages-IsPage refl region_small 20 50 memo memo-IsMemory (inr (omega arith, omega arith))
      read_inside
