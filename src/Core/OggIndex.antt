-- ===== src/Core/OggIndex.antt =====
-- musefs-core/src/ogg_index.rs: the audio pages of an Ogg file served with new sequence numbers, each
-- header patched on its own. The memo under its lock, always given, is an argument and a result;
-- the reads of the backing file are functions.
pub mod Pages
pub mod Walk
pub mod Round
pub mod Serve
pub mod CrcCheck
pub mod Locate
pub mod Window
use musefs.Base.{
  ℕ, zero, suc, ◌+◌, ◌-◌, ◌%◌, min, max, bit_and, Bool, true, false, not, ◌&&◌, ◌||◌, Option, none,
  some, List, [], ◌∷◌, ◌++◌, length, take, drop, ltb, leb, ◌==◌, if◌then◌else◌,
}
use musefs.Base.Compare.{◌==bytes◌}
use musefs.Base.Int.{ℤ, as_u32}
use musefs.Base.Slices.{slice}
use musefs.Base.Words.{Bytes, checked_add_u64}
use musefs.Base.Results.{Result, ok, err, ok_or, guard, map_err, ◌>>=◌, ◌>>◌}
use musefs.Format.Bytes.{byte}
use musefs.Format.Error.{FormatResult, malformed}
use musefs.Format.Ogg.Crc.{u32_size}
use musefs.Format.Ogg.Page.{capture, le_at, patch_page_header_algebraic, sum_bytes, verify_page_crc}
use musefs.Core.Error.{CoreError, CoreResult, format}

-- `LastPageMemo`: the page last served, its header patched.
pub record Memo : Type 0 where
  pub page_rel : ℕ
  pub total_len : ℕ
  pub header : Bytes

abbrev pub max_ogg_page_bytes : ℕ
max_ogg_page_bytes = 65307

abbrev pub max_ogg_header_bytes : ℕ
max_ogg_header_bytes = 282

abbrev pub max_crc_checks : ℕ
max_crc_checks = 64

-- `read_at`, which may come short, and `read_exact_at`: the offset and the length.
pub record Backing : Type 0 where
  pub read_at : ℕ → ℕ → CoreResult Bytes
  pub read_exact_at : ℕ → ℕ → CoreResult Bytes

abbrev pub malformed_page : CoreError
malformed_page = format malformed

-- `page_crc_ok` behind its first read, which gave `head`.
unfoldable pub check_page : Backing → ℕ → Bytes → CoreResult Bool
check_page backing page_start head =
    let header_len = 27 + byte head 26 in
    let total = header_len + sum_bytes (slice head 27 (byte head 26)) in
    elim (ltb (length head) 27 || ltb (length head) header_len) [
      | true ↦ ok false
      | false ↦ elim (backing.read_exact_at page_start total) [
        | err e ↦ ok false
        | ok page ↦ elim (verify_page_crc page) [ err e ↦ ok false | ok valid ↦ ok valid ]
      ]
    ]

unfoldable pub page_crc_ok : Backing → ℕ → CoreResult Bool
page_crc_ok backing page_start = do
  head ← backing.read_at page_start max_ogg_header_bytes
  check_page backing page_start head

-- The `OggS` test at `i`, and the header bytes that fall inside the window.
unfoldable pub is_candidate : Bytes → ℕ → Bool
is_candidate window i =
    (slice window i 4 ==bytes capture)
    && ((leb (length window) (i + 4) || byte window (i + 4) == 0)
        && (leb (length window) (i + 5) || bit_and (byte window (i + 5)) 0xf8 == 0))

-- A round of the backward loop at `at`, with that many CRC checks left; `rest` goes on below it.
unfoldable pub try_candidate : Backing → Bytes → ℕ → ℕ → ℕ → (ℕ → CoreResult ℕ) → CoreResult ℕ
try_candidate backing window scan_start at checks rest = elim (is_candidate window at) [
  | false ↦ rest checks
  | true ↦ elim checks [
    | zero ↦ err malformed_page
    | suc left ↦ page_crc_ok backing (scan_start + at) >>= λ valid. elim valid [
      | true ↦ ok (scan_start + at)
      | false ↦ rest left
    ]
  ]
]

unfoldable pub scan_back : Backing → Bytes → ℕ → ℕ → ℕ → CoreResult ℕ
scan_back backing window scan_start zero checks =
    try_candidate backing window scan_start zero checks (λ left. err malformed_page)
scan_back backing window scan_start (suc i) checks =
    try_candidate backing window scan_start (suc i) checks
      (λ left. scan_back backing window scan_start i left)

unfoldable pub scan_page_start : Backing → ℕ → ℕ → CoreResult ℕ
scan_page_start backing audio_offset abs_target = do
  let scan_start = max (abs_target - max_ogg_page_bytes) audio_offset
  let window_len = abs_target - scan_start
  window ← backing.read_exact_at scan_start window_len
  scan_back backing window scan_start (window_len - 4) max_crc_checks

-- The memo path: the memoized page where it holds the target.
unfoldable pub memo_start : ℕ → ℕ → Memo → CoreResult (Option ℕ)
memo_start audio_offset abs_target memo = do
  start ← ok_or (checked_add_u64 audio_offset memo.page_rel) malformed_page
  end ← ok_or (checked_add_u64 start memo.total_len) malformed_page
  ok (if leb start abs_target && ltb abs_target end then some start else none)

unfoldable pub from_memo : ℕ → ℕ → Option Memo → CoreResult (Option ℕ)
from_memo audio_offset abs_target none = ok none
from_memo audio_offset abs_target (some memo) = memo_start audio_offset abs_target memo

unfoldable pub find_page_start : Backing → ℕ → ℕ → Option Memo → CoreResult ℕ
find_page_start backing audio_offset abs_target memo =
    if ltb (abs_target - audio_offset) 4
    then ok audio_offset
    else from_memo audio_offset abs_target memo >>= λ found. elim found [
      | some start ↦ ok start
      | none ↦ scan_page_start backing audio_offset abs_target
    ]

unfoldable pub fresh_header : Bytes → ℤ → FormatResult Bytes
fresh_header header seq_delta =
    patch_page_header_algebraic header ((le_at header 18 4 + as_u32 seq_delta) % u32_size)

-- The patched header of a page: the carried one if it was recorded there, which uses it up.
unfoldable pub take_header :
    Option (ℕ × Bytes) → ℕ → Bytes → ℤ → CoreResult (Bytes × Option (ℕ × Bytes))
take_header none page_rel header seq_delta = do
  fresh ← map_err format (fresh_header header seq_delta)
  ok (fresh, none)
take_header (some (rel, h)) page_rel header seq_delta = elim (rel == page_rel) [
  | true ↦ ok (h, none)
  | false ↦ map_err format (fresh_header header seq_delta) >>= λ fresh. ok (fresh, some (rel, h))
]

-- What a page adds to the output.
unfoldable pub page_overlap : Backing → ℕ → ℕ → ℕ → ℕ → Bytes → ℕ → ℕ → CoreResult Bytes
page_overlap backing pos page_rel rstart rend patched header_len payload_len = do
  let hdr_end = page_rel + header_len
  let hs = max rstart page_rel
  let he = min rend hdr_end
  let front = if ltb hs he then slice patched (hs - page_rel) (he - hs) else []
  let ps = max rstart hdr_end
  let pe = min rend (hdr_end + payload_len)
  back ←
      if ltb ps pe
      then backing.read_exact_at (pos + header_len + (ps - hdr_end)) (pe - ps)
      else ok []
  ok (front ++ back)

-- A round of the loop of `serve_ogg_window`: the bytes, the memo entry, the next position and what is
-- still carried.
unfoldable pub serve_page :
    Backing
    → ℕ
    → ℕ
    → ℤ
    → ℕ
    → ℕ
    → ℕ
    → Option (ℕ × Bytes)
    → CoreResult (Bytes × Memo × ℕ × Option (ℕ × Bytes))
serve_page backing audio_offset audio_end seq_delta rstart rend pos carried = do
  let page_rel = pos - audio_offset
  hdr_buf ← backing.read_exact_at pos (min max_ogg_header_bytes (audio_end - pos))
  guard (leb 27 (length hdr_buf)) malformed_page
  let header_len = 27 + byte hdr_buf 26
  guard (leb header_len (length hdr_buf)) malformed_page
  let payload_len = sum_bytes (slice hdr_buf 27 (byte hdr_buf 26))
  (patched, carried') ← take_header carried page_rel (take header_len hdr_buf) seq_delta
  hdr_end ← ok_or (checked_add_u64 page_rel header_len) malformed_page
  page_end ← ok_or (checked_add_u64 hdr_end payload_len) malformed_page
  bytes ← page_overlap backing pos page_rel rstart rend patched header_len payload_len
  total_len ← ok_or (checked_add_u64 header_len payload_len) malformed_page
  next_pos ← ok_or (checked_add_u64 pos total_len) malformed_page
  guard (leb next_pos audio_end) malformed_page
  ok (
    bytes,
    record { page_rel = page_rel; total_len = total_len; header = patched },
    next_pos,
    carried',
  )

-- The loop, `none` when the fuel runs out.
unfoldable pub serve_pages :
    ℕ
    → Backing
    → ℕ
    → ℕ
    → ℤ
    → ℕ
    → ℕ
    → ℕ
    → Option (ℕ × Bytes)
    → Bytes
    → Option Memo
    → Option (CoreResult (Bytes × Option Memo))
serve_pages zero backing audio_offset audio_end seq_delta rstart rend pos carried out last = none
serve_pages (suc fuel) backing audio_offset audio_end seq_delta rstart rend pos carried out last =
    elim (ltb pos audio_end && not (leb rend (pos - audio_offset))) [
      | false ↦ some (ok (out, last))
      | true ↦ elim (serve_page backing audio_offset audio_end seq_delta rstart rend pos carried) [
        | err e ↦ some (err e)
        | ok (bytes, entry, next_pos, carried') ↦
            serve_pages fuel backing audio_offset audio_end seq_delta rstart rend next_pos carried'
              (out ++ bytes) (some entry)
      ]
    ]

abbrev carry : Option Memo → Option (ℕ × Bytes)
carry none = none
carry (some memo) = some (memo.page_rel, memo.header)

-- `memo.zip(last_entry)`: an entry replaces the memo.
abbrev remember : Option Memo → Option Memo → Option Memo
remember memo none = memo
remember memo (some entry) = some entry

-- The end of the region and the page to begin at.
unfoldable pub located : Backing → ℕ → ℕ → ℕ → Option Memo → CoreResult (ℕ × ℕ)
located backing audio_offset audio_length rstart memo = do
  audio_end ← ok_or (checked_add_u64 audio_offset audio_length) malformed_page
  abs_rstart ← ok_or (checked_add_u64 audio_offset rstart) malformed_page
  pos ← find_page_start backing audio_offset abs_rstart memo
  ok (audio_end, pos)

-- The bytes appended and the memo afterwards; every page is 27 bytes at least, so a round for each
-- byte of the region and one more is enough.
unfoldable pub serve_ogg_window :
    Backing → ℕ → ℕ → ℤ → ℕ → ℕ → Option Memo → Option (CoreResult (Bytes × Option Memo))
serve_ogg_window backing audio_offset audio_length seq_delta rstart rend memo =
    if leb rend rstart
    then some (ok ([], memo))
    else elim (located backing audio_offset audio_length rstart memo) [
      | err e ↦ some (err e)
      | ok (audio_end, pos) ↦
          elim (serve_pages (suc audio_length) backing audio_offset audio_end seq_delta rstart rend
            pos (carry memo) [] none) [
              | none ↦ none
              | some (err e) ↦ some (err e)
              | some (ok (out, last)) ↦ some (ok (out, remember memo last))
            ]
    ]
