-- ===== src/Format/Ogg/Page/Segments.antt =====
-- Reading the segments of one page, as a function of its lacing values and its payload.
use musefs.Base.{
  ℕ, zero, suc, ◌+◌, ◌*◌, ◌≤◌, ◌<◌, ◌≡◌, refl, sym, ap, ◌∙◌, inl, inr, Bool-cases, true, false,
  List, [], ◌∷◌, ◌++◌, append_assoc, append-nil, length, length-append, length-drop, take, drop,
  take-append-drop, replicate, ltb, lt→ltb, le→ltb_false, ◌==◌, arith,
}
use musefs.Base.Slices.{slice, drop-drop, drop-append_le, take-append_le, take-all}
use musefs.Base.Words.{Bytes}
use musefs.Base.Results.{ok}
use musefs.Format.Bytes.{byte}
use musefs.Format.Error.{FormatResult}
use musefs.Format.Ogg.Page.{
  PageHeader, page_len, sum_bytes, ReadPacket, read_segments, push_segment, ended_at,
}

pub byte-drop : (xs rest : Bytes) (k b : ℕ) → drop k xs ≡ b ∷ rest → byte xs k ≡ b
byte-drop [] rest zero b h = cc
byte-drop [] rest (suc k) b h = cc
byte-drop (x ∷ xs) rest zero b h = cc
byte-drop (x ∷ xs) rest (suc k) b h = byte-drop xs rest k b h

drop-next : (xs rest : Bytes) (k b : ℕ) → drop k xs ≡ b ∷ rest → drop (suc k) xs ≡ rest
drop-next [] rest zero b h = cc
drop-next [] rest (suc k) b h = cc
drop-next (x ∷ xs) rest zero b h = cc
drop-next (x ∷ xs) rest (suc k) b h = drop-next xs rest k b h

module _ (want bytes_len seg_end lace : ℕ) (ended : Bytes → ReadPacket) (cur : Bytes)
    (out : List ReadPacket)
    (rest : ℕ → Bytes → List ReadPacket → FormatResult (Bytes × List ReadPacket)) where
  push_segment-full :
      ltb bytes_len seg_end ≡ false
      → ltb lace 255 ≡ false
      → push_segment want bytes_len seg_end lace ended cur out rest ≡ rest lace cur out
  unfolding push_segment
  push_segment-full inside full = rw (push_segment, inside, full) refl

  push_segment-done :
      ltb bytes_len seg_end ≡ false
      → ltb lace 255 ≡ true
      → (length (out ++ (ended cur ∷ [])) == want) ≡ true
      → push_segment want bytes_len seg_end lace ended cur out rest
        ≡ ok ([], out ++ (ended cur ∷ []))
  unfolding push_segment
  push_segment-done inside last done = rw (push_segment, inside, last, done) refl

  push_segment-more :
      ltb bytes_len seg_end ≡ false
      → ltb lace 255 ≡ true
      → (length (out ++ (ended cur ∷ [])) == want) ≡ false
      → push_segment want bytes_len seg_end lace ended cur out rest
        ≡ rest lace [] (out ++ (ended cur ∷ []))
  unfolding push_segment
  push_segment-more inside last more = rw (push_segment, inside, last, more) refl

-- `want` packets are asked for; a packet that ends on this page ends at `end` as of `pages`.
module _ (want end pages : ℕ) where
  abbrev pub seg_run : Bytes → Bytes → Bytes → List ReadPacket → Bytes × List ReadPacket
  seg_run [] payload cur out = (cur, out)
  seg_run (l ∷ laces) payload cur out =
      let run = seg_run laces (drop l payload) in
      let packet = ended_at end pages (cur ++ take l payload) in
      elim (ltb l 255) [
        | false ↦ run (cur ++ take l payload) out
        | true ↦ elim (length (out ++ (packet ∷ [])) == want) [
          | true ↦ ([], out ++ (packet ∷ []))
          | false ↦ run [] (out ++ (packet ∷ []))
        ]
      ]

  -- The loop reads what stands at its two offsets.
  pub read_segments-seg_run :
      (bytes : Bytes) (pos : ℕ) (h : PageHeader) (laces payload cur : Bytes) (out : List ReadPacket)
      (i payload_pos : ℕ) (x y : Bytes)
      → pos + page_len h ≡ end
      → drop (pos + 27 + i) bytes ≡ laces ++ x
      → drop (pos + payload_pos) bytes ≡ payload ++ y
      → sum_bytes laces ≤ length payload
      → pos + payload_pos ≤ length bytes
      → read_segments bytes want pos h pages (length laces) i payload_pos cur out
        ≡ ok (seg_run laces payload cur out)
  unfolding read_segments
  read_segments-seg_run bytes pos h [] payload cur out i payload_pos x y ends at_laces at_payload
        fits low =
      refl
  read_segments-seg_run bytes pos h (l ∷ laces) payload cur out i payload_pos x y ends at_laces
        at_payload fits low =
      let lace_is = byte-drop bytes (laces ++ x) (pos + 27 + i) l at_laces in
      let len = length-drop (pos + payload_pos) bytes in
      let len' = length-append payload y in
      let inside : ltb (length bytes) (pos + payload_pos + l) ≡ false =
        le→ltb_false _ _ (omega (arith, ap length at_payload)) in
      let taken : slice bytes (pos + payload_pos) l ≡ take l payload =
        ap (take l) at_payload ∙ take-append_le l payload y (omega arith) in
      let next_laces : drop (pos + 27 + suc i) bytes ≡ laces ++ x =
        let one : pos + 27 + suc i ≡ suc (pos + 27 + i) = omega arith in
        ap (λ k. drop k bytes) one ∙ drop-next bytes (laces ++ x) (pos + 27 + i) l at_laces in
      let next_payload : drop (pos + (payload_pos + l)) bytes ≡ drop l payload ++ y =
        sym (drop-drop l (pos + payload_pos) (pos + (payload_pos + l)) bytes (omega arith))
        ∙ ap (drop l) at_payload
        ∙ drop-append_le l payload y (omega arith) in
      let rest = λ (cur' : Bytes) (out' : List ReadPacket).
        read_segments-seg_run bytes pos h laces (drop l payload) cur' out' (suc i) (payload_pos + l)
          x y ends next_laces next_payload (omega (arith, length-drop l payload))
          (omega (arith, ap length at_payload)) in
      rw (read_segments, lace_is, taken, ends)
        (elim (Bool-cases (ltb l 255)) [
          | inr full ↦
              rw (seg_run, full)
                (push_segment-full want (length bytes) (pos + payload_pos + l) l
                    (ended_at end pages) (cur ++ take l payload) out _ inside full
                  ∙ rest (cur ++ take l payload) out)
          | inl last ↦
              let out' = out ++ (ended_at end pages (cur ++ take l payload) ∷ []) in
              elim (Bool-cases (length out' == want)) [
                | inl done ↦
                    rw (seg_run, last, done)
                      (push_segment-done want (length bytes) (pos + payload_pos + l) l
                        (ended_at end pages) (cur ++ take l payload) out _ inside last done)
                | inr more ↦
                    rw (seg_run, last, more)
                      (push_segment-more want (length bytes) (pos + payload_pos + l) l
                          (ended_at end pages) (cur ++ take l payload) out _ inside last more
                        ∙ rest [] out')
              ]
        ])

  -- A run of full segments is collected.
  pub seg_run-full :
      (n : ℕ) (payload cur : Bytes) (out : List ReadPacket)
      → length payload ≡ n * 255
      → seg_run (replicate n 255) payload cur out ≡ (cur ++ payload, out)
  seg_run-full zero payload cur out h =
      let none = take-all 0 payload (omega arith) in
      ap (λ t. (t, out)) (sym (append-nil cur) ∙ ap (λ t. cur ++ t) none)
  seg_run-full (suc n) payload cur out h =
      seg_run-full n (drop 255 payload) (cur ++ take 255 payload) out
        (omega (arith, length-drop 255 payload))
      ∙ ap (λ t. (t, out))
          (append_assoc cur (take 255 payload) (drop 255 payload)
            ∙ ap (λ t. cur ++ t) (take-append-drop 255 payload))

  -- A shorter segment behind them ends the packet.
  pub seg_run-last :
      (n r : ℕ) (payload cur : Bytes) (out : List ReadPacket)
      → r < 255
      → length payload ≡ n * 255 + r
      → seg_run (replicate n 255 ++ (r ∷ [])) payload cur out
        ≡ ([], out ++ (ended_at end pages (cur ++ payload) ∷ []))
  seg_run-last zero r payload cur out short h =
      let whole : take r payload ≡ payload = take-all r payload (omega arith) in
      let last : ltb r 255 ≡ true = lt→ltb r 255 short in
      let out' = out ++ (ended_at end pages (cur ++ take r payload) ∷ []) in
      let step : seg_run (r ∷ []) payload cur out ≡ ([], out') =
        elim (Bool-cases (length out' == want)) [
          | inl done ↦ rw (seg_run, last, done) refl
          | inr more ↦ rw (seg_run, last, more) refl
        ] in
      step ∙ ap (λ t. ([], out ++ (ended_at end pages (cur ++ t) ∷ []))) whole
  seg_run-last (suc n) r payload cur out short h =
      seg_run-last n r (drop 255 payload) (cur ++ take 255 payload) out short
        (omega (arith, length-drop 255 payload))
      ∙ ap (λ t. ([], out ++ (ended_at end pages t ∷ [])))
          (append_assoc cur (take 255 payload) (drop 255 payload)
            ∙ ap (λ t. cur ++ t) (take-append-drop 255 payload))
