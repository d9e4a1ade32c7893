-- ===== src/Format/Id3v2/Extents.antt =====
-- What the walk over leading tags reports.
use musefs.Base.{
  ℕ, zero, suc, ◌+◌, ◌-◌, ◌≤◌, ◌<◌, ◌≡◌, inl, inr, true, false, Bool-cases, none, some, length,
  drop, length-drop, ltb, ltb→lt, ltb_false→le, arith,
}
use musefs.Base.Words.{Bytes}
use musefs.Base.Results.{ok-inj, ok, Result-cases}
use musefs.Format.Error.{Extent, complete, need_more}
use musefs.Format.Id3v2.{
  header_len, starts_with_tag, body_end, total_len, max_leading_tags, leading_tags_loop,
  leading_tags_len,
}

-- A tag that is there is at least as long as its header.
header_len-le : (bs : Bytes) (n : ℕ) → total_len bs ≡ ok (some n) → header_len ≤ n
unfolding total_len body_end
header_len-le bs n h = ground arith

-- Behind the magic and a whole header there is a length, or the tag is malformed.
total_len-ne-none :
    (bs : Bytes) → starts_with_tag bs ≡ true → header_len ≤ length bs → total_len bs ≡ ok none → ⊥
unfolding total_len body_end starts_with_tag
total_len-ne-none bs tag room h = ground arith

-- What an outcome says of the bytes from `off` on.
abbrev pub Reports : Bytes → ℕ → Extent ℕ → Type 0
Reports bs off (complete end) =
    (off ≤ end) × (end ≤ length bs) × (starts_with_tag (drop end bs) ≡ false)
Reports bs off (need_more up_to) = length bs < up_to

later :
    (bs : Bytes) (off next : ℕ) (e : Extent ℕ) → off ≤ next → Reports bs next e → Reports bs off e
later bs off next (complete end) le (lo, inside, plain) = (omega arith, inside, plain)
later bs off next (need_more up_to) le beyond = beyond

leading_tags_loop-Reports :
    (rounds : ℕ) (bs : Bytes) (off : ℕ) (e : Extent ℕ)
    → off ≤ length bs
    → leading_tags_loop rounds bs off ≡ ok e
    → Reports bs off e
unfolding leading_tags_loop
leading_tags_loop-Reports zero bs off e inside h = cc
leading_tags_loop-Reports (suc rounds) bs off e inside h =
    let rest = drop off bs in
    let len_rest : length rest ≡ length bs - off = length-drop off bs in
    elim (Bool-cases (starts_with_tag rest)) [
      | inr no_tag ↦
          let same : complete off ≡ e = ok-inj (rw (leading_tags_loop, no_tag) at h) in
          rw (← same) (omega arith, inside, no_tag)
      | inl tag ↦ elim (Bool-cases (ltb (length rest) header_len)) [
        | inl short ↦
            let same : need_more (off + header_len) ≡ e =
              ok-inj (rw (leading_tags_loop, tag, short) at h) in
            let lt = ltb→lt _ _ short in rw (← same) (omega arith)
        | inr room ↦ elim (Result-cases (total_len rest)) [
          | inr (f, bad) ↦ cc (rw (leading_tags_loop, tag, room, bad) at h)
          | inl (none, no_len) ↦ absurd (total_len-ne-none rest tag (ltb_false→le _ _ room) no_len)
          | inl (some len, has_len) ↦
              let whole = header_len-le rest len has_len in
              elim (Bool-cases (ltb (length bs) (off + len))) [
                | inl cut ↦
                    let same : need_more (off + len) ≡ e =
                      ok-inj (rw (leading_tags_loop, tag, room, has_len, cut) at h) in
                    rw (← same) (ltb→lt _ _ cut)
                | inr fits ↦ later bs off (off + len) e (omega arith) (
                    leading_tags_loop-Reports rounds bs (off + len) e (ltb_false→le _ _ fits)
                      (rw (leading_tags_loop, tag, room, has_len, fits) at h))
              ]
        ]
      ]
    ]

-- `leading_tags_len` either ends at a byte inside the data that starts no further tag, or asks for
-- an end beyond the data.
pub leading_tags_len-Reports :
    (bs : Bytes) (e : Extent ℕ) → leading_tags_len bs ≡ ok e → Reports bs 0 e
unfolding leading_tags_len
leading_tags_len-Reports bs e h = leading_tags_loop-Reports max_leading_tags bs 0 e (omega arith) h
