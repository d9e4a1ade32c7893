-- ===== src/Tests/Ogg.antt =====
-- Ogg pages: their CRC, their renumbering, and the lacing of packets.
use musefs.Base.{
  ◌<◌, ltb, ltb→lt, ◌≡◌, refl, false, true, none, some, List, [], ◌∷◌, ◌++◌, length, map, take,
  replicate, All, arith,
}
use musefs.Base.Check.{every, every-All}
use musefs.Base.Compare.{ascii, ◌==bytes◌}
use musefs.Base.Words.{Bytes}
use musefs.Base.Results.{ok}
use musefs.Base.Int.{ℤ, pos}
use musefs.Core.Reader.OggChunks.{IsStored, chunks_text}
use musefs.Core.Reader.OggHeader.{lace_chunks_to_segments-lace_packet, map_source-ReadsArt}
use musefs.Core.Reader.Rendering.{Contents, render}
use musefs.Format.Layout.{Segment}
use musefs.Format.Ogg.ArtSource.{get, map_source}
use musefs.Format.Ogg.Chunks.{PayloadChunk, art, lace_chunks_to_segments, literal}
use musefs.Tests.Fixtures.{base64, encode}
use musefs.Format.Ogg.Crc.{
  poly_bits, table, crc_step, crc32_update, crc32, row_product, mat_mul, base_rows, powers_from,
  powers, shift_from, crc_shift_zeros, u32_size,
}
use musefs.Format.Ogg.Crc.Update.{IsByte}
use musefs.Format.Ogg.Crc.Zeros.{crc_shift_zeros-replicate}
use musefs.Format.Ogg.Page.{
  parse_page, lacing_values, copy_at, flags, page_head, push_page, lace_loop, lace_packet,
  build_header_from, build_header, ReadPacket, read_packets, patch_page_header,
  patch_page_header_algebraic, verify_page_crc,
}
use musefs.Format.Error.{FormatResult}
use musefs.Format.Ogg.Page.Ends.{read_packets-IsSome}
use musefs.Format.Ogg.Page.Patch.{header_at}
use musefs.Format.Ogg.Page.Renumber.{patch_page_header_algebraic-same}
use musefs.Format.Ogg.Page.RoundTrip.{last_end, last_pages, read_packets-build_header}

abbrev images : List (ℤ × Bytes)
images = (pos 1, 1 ∷ 2 ∷ 3 ∷ 4 ∷ []) ∷ (pos 2, replicate 600 8) ∷ []

abbrev stored : Contents
stored = record { file = []; art = get images; tag = λ _. none; pages = λ _ _ _. [] }

-- Literal bytes around a base64 image and a raw one, over two pages of the segment table's bytes.
abbrev chunks : List PayloadChunk
chunks = literal (5 ∷ 6 ∷ []) ∷ art (pos 1) true 4 ∷ literal (7 ∷ []) ∷ art (pos 2) false 600 ∷ []

chunks-IsStored : All (IsStored base64 stored) chunks
unfolding get
chunks-IsStored = (
  tt,
  (
    (1 ∷ 2 ∷ 3 ∷ 4 ∷ [], refl, refl, omega arith),
    (tt, ((replicate 600 8, refl, refl, omega arith), tt)),
  ),
)

lace_chunks_to_segments-lace_packet_example :
    (segments : List Segment) × (lace_chunks_to_segments
        (map_source encode images)
        77
        3
        false
        chunks
      ≡ ok (segments, (lace_packet 77 3 false 0 (chunks_text base64 stored chunks)).1))
    × (render base64 stored segments
        ≡ (lace_packet 77 3 false 0 (chunks_text base64 stored chunks)).0)
lace_chunks_to_segments-lace_packet_example =
    lace_chunks_to_segments-lace_packet base64 stored (map_source encode images)
      (map_source-ReadsArt base64 stored images (λ _. refl) (omega arith, (omega arith, tt))) chunks
      chunks-IsStored 77 3 false

-- The catalogued check value of this CRC is over the ASCII digits "123456789".
crc32_check : crc32 (ascii "123456789") ≡ 0x89a1897f
unfolding crc32 crc32_update crc_step table poly_bits musefs.Format.Ogg.Crc.poly_bit
crc32_check = refl

crc_shift_zeros-replicate_example :
    crc_shift_zeros 0x89a1897f 300 ≡ crc32_update 0x89a1897f (replicate 300 0)
crc_shift_zeros-replicate_example =
    crc_shift_zeros-replicate 0x89a1897f 300 (omega arith) (omega arith)

-- A page of one packet of 260 bytes, the seventh of its stream.
abbrev page : Bytes
page = (lace_packet 0x1234 7 false 96 (replicate 260 5)).0

length-page : length page ≡ 289
unfolding lace_packet lace_loop lacing_values flags push_page copy_at page_head
length-page = refl

page_parses : parse_page page 0 ≡ ok (header_at page 0)
unfolding parse_page ◌==bytes◌ lace_packet lace_loop lacing_values flags push_page copy_at page_head
page_parses = refl

page_valid : verify_page_crc page ≡ ok true
unfolding parse_page ◌==bytes◌ lace_packet lace_loop lacing_values flags push_page copy_at page_head
    verify_page_crc crc32 crc32_update crc_step table poly_bits musefs.Format.Ogg.Crc.poly_bit
page_valid = refl

page_bytes : every (λ b. ltb b 256) page ≡ true
unfolding every lace_packet lace_loop lacing_values flags push_page copy_at page_head crc32
    crc32_update crc_step table poly_bits musefs.Format.Ogg.Crc.poly_bit
page_bytes = refl

patch_page_header_algebraic-same_example :
    patch_page_header_algebraic (take 29 page) 9 ≡ patch_page_header page 9
unfolding lace_packet lace_loop lacing_values push_page copy_at page_head
patch_page_header_algebraic-same_example =
    patch_page_header_algebraic-same page (header_at page 0) 9
      (every-All IsByte (λ b. ltb b 256) page (λ b h. ltb→lt b 256 h) page_bytes) page_parses
      page_valid

-- A packet whose length is a multiple of 255 ends in an empty segment.
header_small : length (build_header 5 (replicate 255 1 ∷ [] ∷ (2 ∷ 3 ∷ []) ∷ [])).0 < u32_size
unfolding build_header build_header_from lace_packet lace_loop lacing_values flags push_page copy_at
    page_head
header_small = omega arith

read_packets-build_header_example :
    (read : List ReadPacket) × (read_packets
        ((build_header 5 (replicate 255 1 ∷ [] ∷ (2 ∷ 3 ∷ []) ∷ [])).0 ++ (7 ∷ []))
        3
      ≡ some (ok read))
    × (map (λ p. p.bytes) read ≡ replicate 255 1 ∷ [] ∷ (2 ∷ 3 ∷ []) ∷ [])
    × (last_end 0 read ≡ length (build_header 5 (replicate 255 1 ∷ [] ∷ (2 ∷ 3 ∷ []) ∷ [])).0)
    × (last_pages 0 read ≡ (build_header 5 (replicate 255 1 ∷ [] ∷ (2 ∷ 3 ∷ []) ∷ [])).1)
read_packets-build_header_example =
    read_packets-build_header 5 (replicate 255 1 ∷ [] ∷ (2 ∷ 3 ∷ []) ∷ []) (7 ∷ []) header_small

read_packets-IsSome_example :
    (res : FormatResult (List ReadPacket)) × (read_packets (page ++ (79 ∷ 103 ∷ [])) 3 ≡ some res)
read_packets-IsSome_example = read_packets-IsSome (page ++ (79 ∷ 103 ∷ [])) 3
