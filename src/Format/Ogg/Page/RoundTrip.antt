-- ===== src/Format/Ogg/Page/RoundTrip.antt =====
-- The header packets of a stream, written by `build_header` and read back by `read_packets`.
use musefs.Base.{
  ℕ, suc, ◌+◌, ◌-◌, ◌≤◌, ◌<◌, ◌≡◌, refl, sym, ap, ◌∙◌, Bool, true, false, some, List, [], ◌∷◌, ◌++◌,
  append_assoc, append-nil, length, length-append, map, ltb, lt→ltb, le→ltb_false, arith,
}
use musefs.Base.Words.{Bytes}
use musefs.Base.Results.{ok}
use musefs.Format.Ogg.Crc.{u32_size}
use musefs.Format.Ogg.Page.{
  lace_packet, build_header_from, build_header, ReadPacket, read_pages, read_packets, ended_at,
}
use musefs.Format.Ogg.Page.Packet.{lace_packet-Reads}
use musefs.Format.Ogg.Page.Rounds.{Reads}

-- Where the last of the packets ends, and the pages up to there.
abbrev pub last_end : ℕ → List ReadPacket → ℕ
last_end end [] = end
last_end end (p ∷ ps) = last_end p.end_offset ps

abbrev pub last_pages : ℕ → List ReadPacket → ℕ
last_pages pages [] = pages
last_pages pages (p ∷ ps) = last_pages p.pages_through_end ps

-- The reader over the pages of several packets.
abbrev ReadsAll : Bytes → ℕ → List Bytes → Type 0
ReadsAll pages_of k packets =
    (pre post : Bytes) (want pages f g : ℕ) (out : List ReadPacket)
    → want ≡ length out + length packets
    → f ≡ k + suc g
    → (read : List ReadPacket) × (read_pages f (pre ++ (pages_of ++ post)) want (length pre) pages
          [] out
        ≡ some (ok (out ++ read)))
      × (map (λ p. p.bytes) read ≡ packets)
      × (last_end (length pre) read ≡ length pre + length pages_of)
      × (last_pages pages read ≡ pages + k)

read_pages-enough :
    (bytes : Bytes) (want pos pages f : ℕ) (cur : Bytes) (out : List ReadPacket)
    → want ≤ length out
    → read_pages (suc f) bytes want pos pages cur out ≡ some (ok out)
unfolding read_pages
read_pages-enough bytes want pos pages f cur out h =
    let enough = le→ltb_false (length out) want h in rw (read_pages, enough) refl

ReadsAll-more :
    (first_pages later packet : Bytes) (k l : ℕ) (packets : List Bytes)
    → Reads first_pages k packet
    → ReadsAll later l packets
    → ReadsAll (first_pages ++ later) (k + l) (packet ∷ packets)
ReadsAll-more first_pages later packet k l packets reads readsAll pre post want pages f g out asked
      fuel_is =
    let asked_more : ltb (length out) want ≡ true = lt→ltb (length out) want (omega arith) in
    let ended = ended_at (length pre + length first_pages) (pages + k) packet in
    let len : length pre + length first_pages ≡ length (pre ++ first_pages) =
      sym (length-append pre first_pages) in
    let (read, runs, same, end, count) =
      readsAll (pre ++ first_pages) post want (pages + k) (l + suc g) g (out ++ (ended ∷ []))
        (omega (arith, length-append out (ended ∷ []))) refl in
    let apart : pre ++ ((first_pages ++ later) ++ post) ≡ pre ++ (first_pages ++ (later ++ post)) =
      ap (λ t. pre ++ t) (append_assoc first_pages later post) in
    let moved : pre ++ (first_pages ++ (later ++ post)) ≡ (pre ++ first_pages) ++ (later ++ post) =
      sym (append_assoc pre first_pages (later ++ post)) in
    (
      ended ∷ read,
      ap (λ s. read_pages f s want (length pre) pages [] out) apart
          ∙ reads pre (later ++ post) want pages f (l + suc g) [] out asked_more (omega arith)
          ∙ ap
              (λ s.
                read_pages (l + suc g) s want (length pre + length first_pages) (pages + k) []
                  (out ++ (ended ∷ [])))
              moved
          ∙ ap
              (λ p.
                read_pages (l + suc g) ((pre ++ first_pages) ++ (later ++ post)) want p (pages + k)
                  [] (out ++ (ended ∷ [])))
              len
          ∙ runs
          ∙ ap (λ t. some (ok t)) (append_assoc out (ended ∷ []) read),
      ap (◌∷◌ packet) same,
      ap (λ n. last_end n read) len
          ∙ end
          ∙ omega (arith, length-append pre first_pages, length-append first_pages later),
      count ∙ omega arith,
    )

-- Each packet's pages are counted while the sequence numbers stay within 32 bits.
build_header_from-ReadsAll :
    (serial : ℕ) (first : Bool) (packets : List Bytes) (acc : Bytes) (seq : ℕ)
    → (pages_of : Bytes) × (k : ℕ) × ((build_header_from serial first packets acc seq).0
        ≡ acc ++ pages_of)
      × (k ≤ length pages_of)
      × (seq + k < u32_size → (build_header_from serial first packets acc seq).1 ≡ seq + k)
      × ReadsAll pages_of k packets
unfolding build_header_from
build_header_from-ReadsAll serial first [] acc seq = (
  [],
  0,
  sym (append-nil acc),
  omega arith,
  λ low. omega arith,
  λ pre post want pages f g out asked fuel_is. (
    [],
    ap (λ n. read_pages n (pre ++ ([] ++ post)) want (length pre) pages [] out)
          (let e : f ≡ suc g = omega arith in e)
        ∙ read_pages-enough (pre ++ ([] ++ post)) want (length pre) pages g [] out (omega arith)
        ∙ ap (λ t. some (ok t)) (sym (append-nil out)),
    refl,
    omega arith,
    omega arith,
  ),
)
build_header_from-ReadsAll serial first (packet ∷ packets) acc seq =
    let laced = lace_packet serial seq first 0 packet in
    let (pages_of, k, is_pages, enough, some_page, used, reads) =
      lace_packet-Reads serial seq first 0 packet in
    let (later, l, is_later, enough_later, used_later, readsAll) =
      build_header_from-ReadsAll serial false packets (acc ++ laced.0) (seq + laced.1) in
    (
      pages_of ++ later,
      k + l,
      is_later ∙ append_assoc acc laced.0 later ∙ ap (λ t. acc ++ (t ++ later)) is_pages,
      omega (arith, length-append pages_of later),
      λ low.
          let counted : laced.1 ≡ k = used (omega arith) in used_later (omega arith) ∙ omega arith,
      ReadsAll-more pages_of later packet k l packets reads readsAll,
    )

-- The packets are read back from the pages they were laced into, whatever stands behind them: the
-- same bytes, the last of them ending at the end of those pages, and the pages that the reader counts
-- are as many as `build_header` returns. The pages are less than 2^32 bytes together.
pub read_packets-build_header :
    (serial : ℕ) (packets : List Bytes) (rest : Bytes)
    → length (build_header serial packets).0 < u32_size
    → (read : List ReadPacket) × (read_packets
          ((build_header serial packets).0 ++ rest)
          (length packets)
        ≡ some (ok read))
      × (map (λ p. p.bytes) read ≡ packets)
      × (last_end 0 read ≡ length (build_header serial packets).0)
      × (last_pages 0 read ≡ (build_header serial packets).1)
unfolding read_packets build_header
read_packets-build_header serial packets rest low =
    let (pages_of, k, is_pages, enough, used, readsAll) =
      build_header_from-ReadsAll serial true packets [] 0 in
    let header = (build_header_from serial true packets [] 0).0 in
    let (read, runs, same, end, count) =
      readsAll [] rest (length packets) 0 (suc (length (pages_of ++ rest)))
        (length (pages_of ++ rest) - k) [] (omega arith)
        (omega (arith, length-append pages_of rest)) in
    (
      read,
      ap (λ t. read_packets (t ++ rest) (length packets)) is_pages ∙ runs,
      same,
      omega (arith, end, ap length is_pages),
      count ∙ sym (used (omega (arith, ap length is_pages))),
    )
