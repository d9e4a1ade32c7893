-- ===== src/Format/Ogg/Page.antt =====
-- musefs-format/src/ogg/page.rs: pages, the lacing of packets into them and the way back, and the
-- renumbering of a page. A slice of the bytes stands behind the length test of the source. The loop
-- of `lace_packet` is on the number of lacing values, of which a round takes one at least; the loop of
-- `read_packets` is on fuel, `none` when that runs out.
pub mod Delta
pub mod Ends
pub mod Patch
pub mod Renumber
pub mod Segments
pub mod Lacing
pub mod Rounds
pub mod Packet
pub mod RoundTrip
use musefs.Base.{
  ℕ, zero, suc, ◌+◌, ◌-◌, ◌*◌, ◌/◌, ◌%◌, min, Bool, true, false, not, ◌&&◌, ◌||◌, Option, none,
  some, List, [], ◌∷◌, ◌++◌, length, take, drop, replicate, bit_or, bit_xor, ltb, leb, ◌==◌,
  if◌then◌else◌,
}
use musefs.Base.Compare.{ascii, ◌==bytes◌}
use musefs.Base.Slices.{slice}
use musefs.Base.Words.{Bytes, to_le_bytes, from_le_bytes}
use musefs.Base.Results.{ok, err, guard, ◌>>=◌, ◌>>◌}
use musefs.Format.Bytes.{byte}
use musefs.Format.Error.{FormatResult, malformed}
use musefs.Format.Ogg.Crc.{crc32, crc_shift_zeros, u32_size}

abbrev pub capture : Bytes
capture = ascii "OggS"

abbrev pub flag_continued : ℕ
flag_continued = 1

abbrev pub flag_bos : ℕ
flag_bos = 2

pub record PageHeader : Type 0 where
  pub header_type : ℕ
  pub granule : ℕ
  pub serial : ℕ
  pub seq : ℕ
  pub crc : ℕ
  pub seg_count : ℕ
  pub header_len : ℕ
  pub payload_len : ℕ

abbrev pub page_len : PageHeader → ℕ
page_len h = h.header_len + h.payload_len

-- `.iter().map(|&b| b as usize).sum()`
abbrev pub sum_bytes : Bytes → ℕ
sum_bytes [] = 0
sum_bytes (b ∷ bs) = b + sum_bytes bs

-- A little-endian field of `n` bytes.
abbrev pub le_at : Bytes → ℕ → ℕ → ℕ
le_at buf pos n = from_le_bytes (slice buf pos n)

unfoldable pub parse_page : Bytes → ℕ → FormatResult PageHeader
parse_page buf pos =
    let seg_count = byte buf (pos + 26) in
    if ltb (length buf) (pos + 27) || not (slice buf pos 4 ==bytes capture)
    then err malformed
    else if not (byte buf (pos + 4) == 0)
    then err malformed
    else if ltb (length buf) (pos + 27 + seg_count)
    then err malformed
    else ok (record {
      header_type = byte buf (pos + 5);
      granule = le_at buf (pos + 6) 8;
      serial = le_at buf (pos + 14) 4;
      seq = le_at buf (pos + 18) 4;
      crc = le_at buf (pos + 22) 4;
      seg_count = seg_count;
      header_len = 27 + seg_count;
      payload_len = sum_bytes (slice buf (pos + 27) seg_count);
    })

unfoldable pub lacing_values : ℕ → Bytes
lacing_values payload_len = replicate (payload_len / 255) 255 ++ ((payload_len % 255) ∷ [])

-- `bytes[pos..pos + new.len()].copy_from_slice(new)`
unfoldable pub copy_at : Bytes → ℕ → Bytes → Bytes
copy_at bytes pos new = take pos bytes ++ (new ++ drop (pos + length new) bytes)

unfoldable pub flags : Bool → Bool → ℕ
flags bos first =
    bit_or (if bos && first then flag_bos else 0) (if not first then flag_continued else 0)

-- The fixed part of a page's header, with the CRC zeroed.
unfoldable pub page_head : ℕ → ℕ → ℕ → ℕ → ℕ → Bytes
page_head header_type granule serial seq chunk =
    capture
    ++ (0
        ∷ header_type
        ∷ (to_le_bytes 8 granule
            ++ (to_le_bytes 4 serial ++ (to_le_bytes 4 seq ++ (to_le_bytes 4 0 ++ (chunk ∷ []))))))

-- A page as the loop of `lace_packet` writes it, its CRC put in last.
unfoldable pub push_page : ℕ → ℕ → ℕ → ℕ → Bytes → Bytes → Bytes
push_page header_type granule serial seq segments payload =
    let page =
      page_head header_type granule serial seq (length segments) ++ (segments ++ payload) in
    copy_at page 22 (to_le_bytes 4 (crc32 page))

abbrev pub next_seq : ℕ → ℕ
next_seq seq = (seq + 1) % u32_size

-- The loop of `lace_packet`, on the lacing values and the payload ahead.
unfoldable pub lace_loop : ℕ → ℕ → ℕ → Bool → Bool → Bytes → Bytes → Bytes → ℕ → Bytes × ℕ
lace_loop zero serial granule bos first laces payload out seq = (out, seq)
lace_loop (suc fuel) serial granule bos first laces payload out seq =
    elim (first || ltb 0 (length laces)) [
      | false ↦ (out, seq)
      | true ↦
          let segments = take (min (length laces) 255) laces in
          let page_payload = sum_bytes segments in
          lace_loop fuel serial granule bos false (drop (min (length laces) 255) laces)
            (drop page_payload payload)
            (out
              ++ push_page (flags bos first) granule serial seq segments
                  (take page_payload payload))
            (next_seq seq)
    ]

unfoldable pub lace_packet : ℕ → ℕ → Bool → ℕ → Bytes → Bytes × ℕ
lace_packet serial seq_start bos granule packet =
    let laces = lacing_values (length packet) in
    let (out, seq) = lace_loop (length laces) serial granule bos true laces packet [] seq_start in
    (out, (seq + u32_size - seq_start) % u32_size)

-- The loop of `build_header`; `seq += used` is within 32 bits for the few header packets of a file.
unfoldable pub build_header_from : ℕ → Bool → List Bytes → Bytes → ℕ → Bytes × ℕ
build_header_from serial first [] out seq = (out, seq)
build_header_from serial first (pkt ∷ packets) out seq =
    let (bytes, used) = lace_packet serial seq first 0 pkt in
    build_header_from serial false packets (out ++ bytes) (seq + used)

unfoldable pub build_header : ℕ → List Bytes → Bytes × ℕ
build_header serial packets = build_header_from serial true packets [] 0

pub record ReadPacket : Type 0 where
  pub bytes : Bytes
  pub end_offset : ℕ
  pub pages_through_end : ℕ

-- The body of that loop: `rest` goes on with the bytes collected and the packets ended so far.
unfoldable pub push_segment :
    ℕ
    → ℕ
    → ℕ
    → ℕ
    → (Bytes → ReadPacket)
    → Bytes
    → List ReadPacket
    → (ℕ → Bytes → List ReadPacket → FormatResult (Bytes × List ReadPacket))
    → FormatResult (Bytes × List ReadPacket)
push_segment want bytes_len seg_end lace ended cur out rest = elim (ltb bytes_len seg_end) [
  | true ↦ err malformed
  | false ↦ elim (ltb lace 255) [
    | false ↦ rest lace cur out
    | true ↦ elim (length (out ++ (ended cur ∷ [])) == want) [
      | true ↦ ok ([], out ++ (ended cur ∷ []))
      | false ↦ rest lace [] (out ++ (ended cur ∷ []))
    ]
  ]
]

abbrev pub ended_at : ℕ → ℕ → Bytes → ReadPacket
ended_at end pages bytes = record { bytes = bytes; end_offset = end; pages_through_end = pages }

-- The loop over the `n` segments ahead of one page, the next one being `i`.
unfoldable pub read_segments :
    Bytes
    → ℕ
    → ℕ
    → PageHeader
    → ℕ
    → ℕ
    → ℕ
    → ℕ
    → Bytes
    → List ReadPacket
    → FormatResult (Bytes × List ReadPacket)
read_segments bytes want pos h pages zero i payload_pos cur out = ok (cur, out)
read_segments bytes want pos h pages (suc n) i payload_pos cur out =
    push_segment want (length bytes) (pos + payload_pos + byte bytes (pos + 27 + i))
      (byte bytes (pos + 27 + i)) (ended_at (pos + page_len h) pages)
      (cur ++ slice bytes (pos + payload_pos) (byte bytes (pos + 27 + i))) out
      (λ lace cur' out'.
        read_segments bytes want pos h pages n (suc i) (payload_pos + lace) cur' out')

unfoldable pub read_pages :
    ℕ → Bytes → ℕ → ℕ → ℕ → Bytes → List ReadPacket → Option (FormatResult (List ReadPacket))
read_pages zero bytes want pos pages cur out = none
read_pages (suc fuel) bytes want pos pages cur out = elim (ltb (length out) want) [
  | false ↦ some (ok out)
  | true ↦ elim (parse_page bytes pos) [
    | err e ↦ some (err e)
    | ok h ↦ elim (read_segments bytes want pos h (suc pages) h.seg_count 0 h.header_len cur out) [
      | err e ↦ some (err e)
      | ok (cur', out') ↦ read_pages fuel bytes want (pos + page_len h) (suc pages) cur' out'
    ]
  ]
]

unfoldable pub read_packets : Bytes → ℕ → Option (FormatResult (List ReadPacket))
read_packets bytes want = read_pages (suc (length bytes)) bytes want 0 0 [] []

unfoldable pub patch_page_header : Bytes → ℕ → FormatResult Bytes
patch_page_header page new_seq = do
  h ← parse_page page 0
  guard (leb (page_len h) (length page)) malformed
  let full =
      copy_at (copy_at (take (page_len h) page) 18 (to_le_bytes 4 new_seq)) 22 (to_le_bytes 4 0)
  ok (take h.header_len (copy_at full 22 (to_le_bytes 4 (crc32 full))))

unfoldable pub patch_page_header_algebraic : Bytes → ℕ → FormatResult Bytes
patch_page_header_algebraic header new_seq =
    let seg_count = byte header 26 in
    let header_len = 27 + seg_count in
    let payload_len = sum_bytes (slice header 27 seg_count) in
    let delta_bytes = to_le_bytes 4 (bit_xor (le_at header 18 4) new_seq) in
    let trailing = 5 + seg_count + payload_len in
    let new_crc = bit_xor (le_at header 22 4) (crc_shift_zeros (crc32 delta_bytes) trailing) in
    if ltb (length header) 27
    then err malformed
    else if ltb (length header) header_len
    then err malformed
    else ok (
        copy_at (copy_at (take header_len header) 18 (to_le_bytes 4 new_seq)) 22
          (to_le_bytes 4 new_crc))

unfoldable pub verify_page_crc : Bytes → FormatResult Bool
verify_page_crc page = do
  h ← parse_page page 0
  guard (leb (page_len h) (length page)) malformed
  ok (crc32 (copy_at (take (page_len h) page) 22 (to_le_bytes 4 0)) == h.crc)
