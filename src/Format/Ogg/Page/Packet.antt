-- ===== src/Format/Ogg/Page/Packet.antt =====
-- A laced packet, read back from the pages it was written to.
use musefs.Base.{
  ℕ, zero, suc, ◌+◌, ◌-◌, ◌*◌, ◌/◌, ◌%◌, ◌≤◌, ◌<◌, min, ◌≡◌, refl, ap, subst, ◌∙◌, inl, inr, Bool,
  Bool-cases, true, false, List, [], ◌∷◌, ◌++◌, append_assoc, length, length-append, length-drop,
  length-take, length-replicate, take, drop, take-append-drop, replicate, ltb, ltb→lt, lt→ltb,
  ltb_false→le, arith,
}
use musefs.Base.Slices.{drop-append_le, take-append_le, drop-all, take-all}
use musefs.Base.Words.{Bytes}
use musefs.Format.Ogg.Crc.{u32_size}
use musefs.Format.Ogg.Page.{
  sum_bytes, push_page, next_seq, flags, lacing_values, lace_loop, lace_packet, read_pages,
  ended_at,
}
use musefs.Format.Ogg.Page.Segments.{seg_run-last}
use musefs.Format.Ogg.Page.Rounds.{
  Reads, round, Reads-full, sum_laces, length-laces, take-replicate, drop-replicate, lace_loop-done,
  push_page-long,
}

module _ (serial granule : ℕ) (bos : Bool) where
  -- A round of `lace_loop` on the first `c` lacing values.
  lace_loop-round :
      (fuel c : ℕ) (first : Bool) (laces segments payload out : Bytes) (seq size : ℕ)
      → ltb 0 (length laces) ≡ true
      → min (length laces) 255 ≡ c
      → take c laces ≡ segments
      → sum_bytes segments ≡ size
      → lace_loop (suc fuel) serial granule bos first laces payload out seq
        ≡ lace_loop fuel serial granule bos false
            (drop c laces)
            (drop size payload)
            (out ++ push_page (flags bos first) granule serial seq segments (take size payload))
            (next_seq seq)
  unfolding lace_loop
  lace_loop-round fuel c true laces segments payload out seq size ahead least taken sums =
      rw (lace_loop, least, taken, sums) refl
  lace_loop-round fuel c false laces segments payload out seq size ahead least taken sums =
      rw (lace_loop, ahead, least, taken, sums) refl

  pub lace_loop-Reads :
      (fuel n r : ℕ) (first : Bool) (payload acc : Bytes) (seq : ℕ)
      → r < 255
      → length payload ≡ n * 255 + r
      → n + 1 ≤ fuel
      → (pages_of : Bytes) × (k : ℕ) × (last : ℕ) × (lace_loop fuel serial granule bos first
            (replicate n 255 ++ (r ∷ []))
            payload
            acc
            seq
          ≡ (acc ++ pages_of, last))
        × (1 ≤ k)
        × (k ≤ length pages_of)
        × (seq + k < u32_size → last ≡ seq + k)
        × Reads pages_of k payload
  lace_loop-Reads zero n r first payload acc seq short sized enough = absurd (omega arith)
  lace_loop-Reads (suc fuel) n r first payload acc seq short sized enough =
      let laces = replicate n 255 ++ (r ∷ []) in
      let len = length-laces n r in
      let ahead : ltb 0 (length laces) ≡ true = lt→ltb 0 (length laces) (omega arith) in
      elim (Bool-cases (ltb n 255)) [
        | inl one ↦
            let fits = ltb→lt n 255 one in
            let page = push_page (flags bos first) granule serial seq laces payload in
            let least : min (length laces) 255 ≡ length laces = omega arith in
            let whole : take (length laces) laces ≡ laces =
              take-all (length laces) laces (omega arith) in
            let all : take (n * 255 + r) payload ≡ payload =
              take-all (n * 255 + r) payload (omega arith) in
            let step : lace_loop (suc fuel) serial granule bos first laces payload acc seq
                ≡ (acc ++ page, next_seq seq) =
              lace_loop-round fuel (length laces) first laces laces payload acc seq (n * 255 + r)
                ahead least whole (sum_laces n r)
              ∙ ap
                  (λ t.
                    lace_loop fuel serial granule bos false t (drop (n * 255 + r) payload)
                      (acc
                        ++ push_page (flags bos first) granule serial seq laces
                            (take (n * 255 + r) payload))
                      (next_seq seq))
                  (drop-all (length laces) laces (omega arith))
              ∙ lace_loop-done fuel serial granule bos (drop (n * 255 + r) payload) _ (next_seq seq)
              ∙ ap
                  (λ t.
                    (acc ++ push_page (flags bos first) granule serial seq laces t, next_seq seq))
                  all in
            let sums : length payload ≡ sum_bytes laces = omega (arith, sum_laces n r) in
            (
              page,
              1,
              next_seq seq,
              step,
              omega arith,
              push_page-long (flags bos first) granule serial seq laces payload sums,
              λ low. omega arith,
              λ pre post want pages f g cur out asked fuel_is.
                  let one_more : suc pages ≡ pages + 1 = omega arith in
                  round (flags bos first) granule serial seq laces payload pre post want f g pages
                    cur out _ sums asked (omega arith)
                    (seg_run-last want (length pre + length page) (suc pages) n r payload cur out
                      short sized)
                  ∙ ap
                      (λ p.
                        read_pages g (pre ++ (page ++ post)) want (length pre + length page) p []
                          (out ++ (ended_at (length pre + length page) p (cur ++ payload) ∷ [])))
                      one_more,
            )
        | inr more ↦
            let full : List ℕ = replicate 255 255 in
            let here = take 65025 payload in
            let there = drop 65025 payload in
            let wide = ltb_false→le n 255 more in
            let behind = replicate (n - 255) 255 ++ (r ∷ []) in
            let page = push_page (flags bos first) granule serial seq full here in
            let least : min (length laces) 255 ≡ 255 = omega arith in
            let front : take 255 laces ≡ full =
              take-append_le 255 (replicate n 255) (r ∷ [])
                (omega (arith, length-replicate {A = ℕ} n 255))
              ∙ take-replicate 255 n wide in
            let back : drop 255 laces ≡ behind =
              drop-append_le 255 (replicate n 255) (r ∷ [])
                (omega (arith, length-replicate {A = ℕ} n 255))
              ∙ ap (λ t. t ++ (r ∷ [])) (drop-replicate 255 n (n - 255) (omega arith)) in
            let (later, k, last, loops, some, enough', seqs, reads) =
              lace_loop-Reads fuel (n - 255) r false there (acc ++ page) (next_seq seq) short
                (omega (arith, length-drop 65025 payload)) (omega arith) in
            let step : lace_loop (suc fuel) serial granule bos first laces payload acc seq
                ≡ (acc ++ (page ++ later), last) =
              lace_loop-round fuel 255 first laces full payload acc seq 65025 ahead least front refl
              ∙ ap
                  (λ t.
                    lace_loop fuel serial granule bos false t there (acc ++ page) (next_seq seq))
                  back
              ∙ loops
              ∙ ap (λ t. (t, last)) (append_assoc acc page later) in
            let here_len : length here ≡ 255 * 255 = omega (arith, length-take 65025 payload) in
            let sums : length here ≡ sum_bytes full = here_len in
            let long = push_page-long (flags bos first) granule serial seq full here sums in
            (
              page ++ later,
              suc k,
              last,
              step,
              omega arith,
              omega (arith, length-append page later),
              λ low. omega arith,
              subst (Reads (page ++ later) (suc k)) (take-append-drop 65025 payload) (
                  Reads-full (flags bos first) granule serial seq 255 here there later k here_len
                    reads),
            )
      ]

-- A whole packet; its page count is exact while the sequence numbers do not wrap.
pub lace_packet-Reads :
    (serial seq : ℕ) (bos : Bool) (granule : ℕ) (packet : Bytes)
    → (pages_of : Bytes) × (k : ℕ) × ((lace_packet serial seq bos granule packet).0 ≡ pages_of)
      × (k ≤ length pages_of)
      × (1 ≤ k)
      × (seq + k < u32_size → (lace_packet serial seq bos granule packet).1 ≡ k)
      × Reads pages_of k packet
unfolding lace_packet lacing_values
lace_packet-Reads serial seq bos granule packet =
    let n = length packet / 255 in
    let r = length packet % 255 in
    let len = length-laces n r in
    let (pages_of, k, last, loops, some, enough, seqs, reads) =
      lace_loop-Reads serial granule bos (length (lacing_values (length packet))) n r true packet []
        seq (omega arith) (omega arith) (omega arith) in
    (
      pages_of,
      k,
      ap (λ t. t.0) loops,
      enough,
      some,
      λ low.
          let counted = seqs low in ap (λ t. (t.1 + u32_size - seq) % u32_size) loops ∙ omega arith,
      reads,
    )
