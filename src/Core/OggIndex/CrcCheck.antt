-- ===== src/Core/OggIndex/CrcCheck.antt =====
-- `page_crc_ok` decides whether a page stands at an offset of the backing file.
use musefs.Base.{
  ℕ, ◌+◌, ◌≤◌, ◌<◌, ◌≡◌, ◌↔◌, ◌⊎◌, refl, ap, inl, inr, Bool-cases, true, false, ◌||◌, ◌++◌, All,
  length, length-take, length-drop, take, drop, ltb, leb, le→ltb_false, le→leb, le_or_lt, ◌==◌,
  arith,
}
use musefs.Base.Compare.{ascii, ◌==bytes◌, ==bytes_iff}
use musefs.Base.Slices.{slice, take-all}
use musefs.Base.Words.{Bytes, to_le_bytes}
use musefs.Base.Results.{ok, err, ok-inj, Result-cases}
use musefs.Format.Bytes.{byte}
use musefs.Format.Ogg.Crc.{crc32}
use musefs.Format.Ogg.Crc.Update.{IsByte}
use musefs.Format.Ogg.Page.{capture, le_at, parse_page, sum_bytes, verify_page_crc, copy_at}
use musefs.Format.Ogg.Page.Patch.{byte-take, slice-take, All-drop, byte-IsByte}
use musefs.Core.Error.{CoreError}
use musefs.Core.OggIndex.{Backing, check_page, page_crc_ok}

-- The length that the header at the front of `xs` declares.
abbrev pub declared_len : Bytes → ℕ
declared_len xs = 27 + byte xs 26 + sum_bytes (slice xs 27 (byte xs 26))

-- The bytes of one page: the capture, version 0, and the CRC of the page with zeros for its CRC.
abbrev pub IsWhole : Bytes → Type 0
IsWhole page =
    (take 4 page ≡ ascii "OggS")
    × (byte page 4 ≡ 0)
    × (crc32 (take 22 page ++ (to_le_bytes 4 0 ++ drop 26 page)) ≡ le_at page 22 4)

-- A whole page at the front of `xs`.
abbrev pub BeginsPage : Bytes → Type 0
BeginsPage xs = (declared_len xs ≤ length xs) × IsWhole (take (declared_len xs) xs)

verify_page_crc_iff :
    (page : Bytes)
    → declared_len page ≡ length page
    → (verify_page_crc page ≡ ok true) ↔ IsWhole page
unfolding verify_page_crc parse_page copy_at
verify_page_crc_iff page whole =
    let all : take (declared_len page) page ≡ page =
      take-all (declared_len page) page (omega arith) in
    let long : ltb (length page) 27 ≡ false = le→ltb_false (length page) 27 (omega arith) in
    let room : ltb (length page) (27 + byte page 26) ≡ false =
      le→ltb_false (length page) (27 + byte page 26) (omega arith) in
    let fits : leb (declared_len page) (length page) ≡ true =
      le→leb (declared_len page) (length page) (omega arith) in
    elim (Bool-cases (take 4 page ==bytes capture)) [
      | inr foreign ↦ (
        λ h. cc (rw (verify_page_crc, parse_page, long, foreign) at h),
        λ v. absurd (cc (foreign, (==bytes_iff (take 4 page) capture).1 v.0)),
      )
      | inl captured ↦ elim (Bool-cases (byte page 4 == 0)) [
        | inr other ↦ (
          λ h. cc (rw (verify_page_crc, parse_page, long, captured, other) at h),
          λ v. ground (arith, other, v.1),
        )
        | inl version ↦ (
          λ h.
              let tested =
                ok-inj (
                  rw (verify_page_crc, parse_page, long, captured, version, room, fits, all) at
                    h) in
              (
                (==bytes_iff (take 4 page) capture).0 captured,
                ground (arith, version),
                ground (arith, tested),
              ),
          λ v.
              rw (verify_page_crc, parse_page, long, captured, version, room, fits, all)
                (ap ok (ground (arith, v.2))),
        )
      ]
    ]

-- A file whose reads return its bytes: `read_at` comes short only at the end of the file, and
-- `read_exact_at` fails there.
pub record ReadsFile (file : Bytes) (backing : Backing) : Type 0 where
  pub prefix : (off n : ℕ) → backing.read_at off n ≡ ok (slice file off n)
  pub exact :
      (off n : ℕ) → off + n ≤ length file → backing.read_exact_at off n ≡ ok (slice file off n)
  pub beyond :
      (off n : ℕ) → length file < off + n → (e : CoreError) × (backing.read_exact_at off n ≡ err e)

header-room : (n seg : ℕ) → (ltb n 27 || ltb n (27 + seg)) ≡ true → ¬ (27 + seg ≤ n)
header-room n seg short fits =
    let long : ltb n 27 ≡ false = le→ltb_false n 27 (omega arith) in
    let room : ltb n (27 + seg) ≡ false = le→ltb_false n (27 + seg) fits in
    cc (rw (long, room) at short)

module _ (file : Bytes) (backing : Backing) (reads : ReadsFile file backing)
    (bytes : All IsByte file) where
  check_page-decides :
      (off : ℕ) (head : Bytes)
      → byte head 26 ≡ byte (drop off file) 26
      → slice head 27 (byte (drop off file) 26) ≡ slice (drop off file) 27 (byte (drop off file) 26)
      → length head ≤ length (drop off file)
      → (27 + byte (drop off file) 26 ≤ length (drop off file)
          → 27 + byte (drop off file) 26 ≤ length head)
      → ((check_page backing off head ≡ ok true) × BeginsPage (drop off file))
        ⊎ ((check_page backing off head ≡ ok false) × ¬ BeginsPage (drop off file))
  unfolding check_page
  check_page-decides off head seg_is table_is low high =
      let xs = drop off file in
      let long_file = length-drop off file in
      let total : 27 + byte head 26 + sum_bytes (slice head 27 (byte head 26)) ≡ declared_len xs =
        rw (seg_is, table_is) refl in
      elim (Bool-cases (ltb (length head) 27 || ltb (length head) (27 + byte head 26))) [
        | inl short ↦ inr (
          rw (check_page, short) refl,
          λ (fits, whole). absurd (
              header-room (length head) (byte head 26) short
                (omega (arith, seg_is, high (omega arith)))),
        )
        | inr room ↦ elim (le_or_lt (off + declared_len xs) (length file)) [
          | inr past ↦
              let (e, fails) = reads.beyond off (declared_len xs) past in
              inr (rw (check_page, room, total, fails) refl, λ (fits, whole). omega arith)
          | inl inside ↦
              let page = take (declared_len xs) xs in
              let page_seg : byte page 26 ≡ byte xs 26 =
                byte-take xs 26 (declared_len xs) (omega arith) in
              let page_table : slice page 27 (byte xs 26) ≡ slice xs 27 (byte xs 26) =
                slice-take xs 27 (byte xs 26) (declared_len xs) (omega arith) in
              let declared : declared_len page ≡ declared_len xs = rw (page_seg, page_table) refl in
              let size : declared_len page ≡ length page =
                omega (arith, declared, length-take (declared_len xs) xs) in
              let read = reads.exact off (declared_len xs) inside in
              let (valid, invalid) = verify_page_crc_iff page size in
              elim (Result-cases (verify_page_crc page)) [
                | inl (true, good) ↦
                    inl (rw (check_page, room, total, read, good) refl, (omega arith, valid good))
                | inl (false, bad) ↦ inr (
                  rw (check_page, room, total, read, bad) refl,
                  λ (fits, whole). cc (bad, invalid whole),
                )
                | inr (e, bad) ↦ inr (
                  rw (check_page, room, total, read, bad) refl,
                  λ (fits, whole). cc (bad, invalid whole),
                )
              ]
        ]
      ]

  -- `page_crc_ok` never fails, and says whether a whole page stands at the offset.
  pub page_crc_ok-decides :
      (off : ℕ)
      → ((page_crc_ok backing off ≡ ok true) × BeginsPage (drop off file))
        ⊎ ((page_crc_ok backing off ≡ ok false) × ¬ BeginsPage (drop off file))
  unfolding page_crc_ok
  page_crc_ok-decides off =
      let xs = drop off file in
      let small = byte-IsByte xs 26 (All-drop off file bytes) in
      let head_len = length-take 282 xs in
      rw (page_crc_ok, reads.prefix off 282)
        (check_page-decides off (take 282 xs) (byte-take xs 26 282 (omega arith))
          (slice-take xs 27 (byte xs 26) 282 (omega arith)) (omega arith) (λ h. omega arith))
