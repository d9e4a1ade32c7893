-- ===== src/Format/Ogg/Page/Ends.antt =====
-- The page reader stops on every input.
use musefs.Base.{
  ℕ, zero, suc, ◌+◌, ◌≤◌, ◌<◌, ◌≡◌, refl, ap, Bool-cases, inl, inr, some, List, [], length, ltb,
  arith,
}
use musefs.Base.Words.{Bytes}
use musefs.Base.Results.{ok, err, Result-cases}
use musefs.Format.Error.{FormatResult}
use musefs.Format.Ogg.Page.{
  page_len, parse_page, ReadPacket, read_segments, read_pages, read_packets,
}
use musefs.Format.Ogg.Page.Patch.{parse_page-header_at}

read_pages-IsSome :
    (fuel : ℕ) (bytes : Bytes) (want pos pages : ℕ) (cur : Bytes) (out : List ReadPacket)
    → 1 ≤ fuel
    → length bytes < pos + fuel
    → (res : FormatResult (List ReadPacket)) × (read_pages fuel bytes want pos pages cur out
        ≡ some res)
unfolding read_pages
read_pages-IsSome zero bytes want pos pages cur out left enough = absurd (omega arith)
read_pages-IsSome (suc fuel) bytes want pos pages cur out left enough =
    elim (Bool-cases (ltb (length out) want)) [
      | inr done ↦ (ok out, rw (read_pages, done) refl)
      | inl more ↦ elim (Result-cases (parse_page bytes pos)) [
        | inr (e, foreign) ↦ (err e, rw (read_pages, more, foreign) refl)
        | inl (h, parsed) ↦
            let (is, inside) = parse_page-header_at bytes pos h parsed in
            let advance : 27 ≤ page_len h = omega (arith, ap page_len is) in
            elim (Result-cases
              (read_segments bytes want pos h (suc pages) h.seg_count 0 h.header_len cur out)) [
                | inr (e, cut) ↦ (err e, rw (read_pages, more, parsed, cut) refl)
                | inl (state, run) ↦
                    let (res, ends) =
                      read_pages-IsSome fuel bytes want (pos + page_len h) (suc pages) state.0
                        state.1 (omega arith) (omega arith) in
                    (res, rw (read_pages, more, parsed, run) ends)
              ]
      ]
    ]

-- The reader of packets returns on every input, whatever count is asked for: every page it passes is
-- at least 27 bytes long.
pub read_packets-IsSome :
    (bytes : Bytes) (want : ℕ)
    → (res : FormatResult (List ReadPacket)) × (read_packets bytes want ≡ some res)
unfolding read_packets
read_packets-IsSome bytes want =
    read_pages-IsSome (suc (length bytes)) bytes want 0 0 [] [] (omega arith) (omega arith)
