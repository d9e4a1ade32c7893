-- ===== src/Tests/OggSearch.antt =====
-- The search for a page's start, past bytes that look like one.
use musefs.Base.{
  ℕ, zero, suc, ◌+◌, ◌≤◌, ◌<◌, ◌≡◌, bit_and, refl, inl, inr, Bool, true, false, not, ◌||◌, ◌&&◌, [],
  ◌∷◌, ◌++◌, length, drop, replicate, ltb, leb, ltb→lt, le_or_lt, All, arith,
}
use musefs.Base.Check.{every, every-All}
use musefs.Base.Compare.{ascii, ◌==bytes◌}
use musefs.Base.Slices.{slice}
use musefs.Base.Words.{Bytes}
use musefs.Base.Results.{ok, err}
use musefs.Core.Error.{CoreResult, io}
use musefs.Core.OggIndex.{
  Backing, malformed_page, page_crc_ok, check_page, is_candidate, try_candidate, scan_back,
  scan_page_start,
}
use musefs.Core.OggIndex.CrcCheck.{BeginsPage, ReadsFile, page_crc_ok-decides}
use musefs.Core.OggIndex.Locate.{count, looks_like_page, scan_page_start-nearest}
use musefs.Format.Bytes.{byte}
use musefs.Format.Ogg.Crc.{crc32, crc32_update, crc_step, table, poly_bits}
use musefs.Format.Ogg.Crc.Update.{IsByte}
use musefs.Format.Ogg.Page.{
  copy_at, flags, lace_loop, lace_packet, lacing_values, page_head, push_page, parse_page,
  verify_page_crc,
}
use musefs.Tests.Fixtures.{read_mem, read_mem-in_range}

-- A page's capture, version and flags, and a segment count of zero, with a CRC of zeros.
abbrev look_alike : Bytes
look_alike = ascii "OggS" ++ replicate 23 0

-- A page at 2 whose payload has the look-alike at 31.
abbrev file : Bytes
file = 9 ∷ 9 ∷ ((lace_packet 5 2 false 96 (1 ∷ (look_alike ++ (2 ∷ [])))).0 ++ (8 ∷ []))

abbrev backing : Backing
backing = record {
  read_at = λ off n. ok (slice file off n);
  read_exact_at = λ off n. read_mem (io 0) file off n;
}

read_mem-beyond :
    (xs : Bytes) (off n : ℕ) → length xs < off + n → read_mem (io 0) xs off n ≡ err (io 0)
read_mem-beyond xs off n h = ground arith

backing-ReadsFile : ReadsFile file backing
backing-ReadsFile = record {
  prefix = λ off n. refl;
  exact = λ off n h. read_mem-in_range (io 0) file off n h;
  beyond = λ off n h. (io 0, read_mem-beyond file off n h);
}

file-IsByte : All IsByte file
unfolding every crc32 crc32_update crc_step table poly_bits musefs.Format.Ogg.Crc.poly_bit
    lace_packet lace_loop lacing_values flags push_page copy_at page_head
file-IsByte = every-All IsByte (λ b. ltb b 256) file (λ b h. ltb→lt b 256 h) refl

begins : BeginsPage (drop 2 file)
unfolding crc32 crc32_update crc_step table poly_bits musefs.Format.Ogg.Crc.poly_bit lace_packet
    lace_loop lacing_values flags push_page copy_at page_head
begins = (omega arith, (refl, refl, refl))

abbrev refused : CoreResult Bool → Bool
refused (ok b) = not b
refused (err e) = false

abbrev all_below : (ℕ → Bool) → ℕ → Bool
all_below p zero = true
all_below p (suc n) = all_below p n && p n

all_below-lt : (p : ℕ → Bool) (n j : ℕ) → all_below p n ≡ true → j < n → p j ≡ true
all_below-lt p zero j h low = absurd (omega arith)
all_below-lt p (suc n) j h low = elim (le_or_lt n j) [
  | inl top ↦ let e : j ≡ n = omega arith in rw e (ground (arith, h))
  | inr below ↦ all_below-lt p n j (ground (arith, h)) below
]

refusals : all_below (λ j. leb j 2 || refused (page_crc_ok backing j)) 36 ≡ true
unfolding page_crc_ok check_page verify_page_crc parse_page ◌==bytes◌ crc32 crc32_update crc_step
    table poly_bits musefs.Format.Ogg.Crc.poly_bit lace_packet lace_loop lacing_values flags
    push_page copy_at page_head
refusals = refl

not_refused :
    (j : ℕ) (r : CoreResult Bool) → 2 < j → (leb j 2 || refused r) ≡ true → ¬ (r ≡ ok true)
not_refused j r above test accepts = ground arith

alone : (j : ℕ) → 2 < j → j + 4 ≤ 39 → ¬ BeginsPage (drop j file)
alone j above below = elim (page_crc_ok-decides file backing backing-ReadsFile file-IsByte j) [
  | inr (refuses, foreign) ↦ foreign
  | inl (accepts, whole) ↦ absurd (
      not_refused j (page_crc_ok backing j) above
        (all_below-lt (λ j. leb j 2 || refused (page_crc_ok backing j)) 36 j refusals (omega arith))
        accepts)
]

plain_flags : bit_and (byte file 7) 0xf8 ≡ 0
unfolding lace_packet lace_loop lacing_values flags push_page copy_at page_head
plain_flags = refl

one_look_alike : count (looks_like_page file 39) 2 35 ≡ 1
unfolding ◌==bytes◌ lace_packet lace_loop lacing_values flags push_page copy_at page_head crc32
    crc32_update crc_step table poly_bits musefs.Format.Ogg.Crc.poly_bit
one_look_alike = refl

few : count (looks_like_page file 39) 2 35 < 64
few = omega (arith, one_look_alike)

file_long : 39 ≤ length file
unfolding lace_packet lace_loop lacing_values flags push_page copy_at page_head
file_long = omega arith

scan_page_start-nearest_example : scan_page_start backing 2 39 ≡ ok 2
scan_page_start-nearest_example =
    scan_page_start-nearest file backing backing-ReadsFile file-IsByte 2 39 2 (omega arith)
      (omega arith) (omega arith) file_long begins plain_flags alone few

-- The look-alike spends the only check.
spent : scan_back backing (slice file 2 37) 2 33 1 ≡ err malformed_page
unfolding scan_back try_candidate is_candidate page_crc_ok check_page verify_page_crc parse_page
    ◌==bytes◌ crc32 crc32_update crc_step table poly_bits musefs.Format.Ogg.Crc.poly_bit lace_packet
    lace_loop lacing_values flags push_page copy_at page_head
spent = refl
