-- ===== src/Format/Ogg/Page/Patch.antt =====
-- A page header renumbered from the header alone is the one renumbered over the whole page.
use musefs.Base.{
  ℕ, zero, suc, ◌+◌, ◌-◌, ◌*◌, ◌≤◌, ◌<◌, ◌≡◌, refl, sym, ap, subst, ◌∙◌, inl, inr, Bool-cases, not,
  ◌||◌, [], ◌∷◌, ◌++◌, append_assoc, length, length-append, length-take, take, drop,
  take-append-drop, All, All-append_left, All-append_right, ltb, ltb_false→le, ◌==◌, arith,
}
use musefs.Base.Compare.{◌==bytes◌}
use musefs.Base.Slices.{
  slice, take-all, take-append_le, take-append_ge, drop-append_ge, drop-drop, drop-take, take-take,
  length-slice,
}
use musefs.Base.Words.{Bytes}
use musefs.Base.Results.{ok, ok-inj}
use musefs.Format.Bytes.{byte}
use musefs.Format.Ogg.Crc.Update.{IsByte}
use musefs.Format.Ogg.Page.{capture, PageHeader, sum_bytes, le_at, parse_page, copy_at}

-- The header that a parse reads.
abbrev pub header_at : Bytes → ℕ → PageHeader
header_at buf pos = record {
  header_type = byte buf (pos + 5);
  granule = le_at buf (pos + 6) 8;
  serial = le_at buf (pos + 14) 4;
  seq = le_at buf (pos + 18) 4;
  crc = le_at buf (pos + 22) 4;
  seg_count = byte buf (pos + 26);
  header_len = 27 + byte buf (pos + 26);
  payload_len = sum_bytes (slice buf (pos + 27) (byte buf (pos + 26)));
}

pub parse_page-header_at :
    (buf : Bytes) (pos : ℕ) (h : PageHeader)
    → parse_page buf pos ≡ ok h
    → (header_at buf pos ≡ h) × (pos + 27 + byte buf (pos + 26) ≤ length buf)
unfolding parse_page
parse_page-header_at buf pos h e =
    elim (Bool-cases (ltb (length buf) (pos + 27) || not (slice buf pos 4 ==bytes capture))) [
      | inl foreign ↦ cc (rw (parse_page, foreign) at e)
      | inr captured ↦ elim (Bool-cases (byte buf (pos + 4) == 0)) [
        | inr version ↦ cc (rw (parse_page, captured, version) at e)
        | inl known ↦ elim (Bool-cases (ltb (length buf) (pos + 27 + byte buf (pos + 26)))) [
          | inl short ↦ cc (rw (parse_page, captured, known, short) at e)
          | inr room ↦ (ok-inj (rw (parse_page, captured, known, room) at e), ltb_false→le _ _ room)
        ]
      ]
    ]

pub copy_at-append :
    (a x b y : Bytes) (pos : ℕ)
    → pos ≡ length a
    → length x ≡ length y
    → copy_at (a ++ (x ++ b)) pos y ≡ a ++ (y ++ b)
unfolding copy_at
copy_at-append a x b y pos at same =
    ap (λ t. t ++ (y ++ drop (pos + length y) (a ++ (x ++ b))))
      (take-append_le pos a (x ++ b) (omega arith) ∙ take-all pos a (omega arith))
    ∙ ap (λ t. a ++ (y ++ t))
        (drop-append_ge (pos + length y) (length y) a (x ++ b) (omega arith)
          ∙ drop-append_ge (length y) 0 x b (omega arith))

-- The third of three parts.
pub copy_at-third :
    (a s x b y : Bytes) (pos : ℕ)
    → pos ≡ length a + length s
    → length x ≡ length y
    → copy_at (a ++ (s ++ (x ++ b))) pos y ≡ a ++ (s ++ (y ++ b))
copy_at-third a s x b y pos at same =
    ap (λ t. copy_at t pos y) (sym (append_assoc a s (x ++ b)))
    ∙ copy_at-append (a ++ s) x b y pos (omega (arith, length-append a s)) same
    ∙ append_assoc a s (y ++ b)

pub slice-take : (xs : Bytes) (a n m : ℕ) → a + n ≤ m → slice (take m xs) a n ≡ slice xs a n
slice-take xs a n m h =
    ap (take n) (drop-take a m (m - a) xs (omega arith))
    ∙ take-take n (m - a) (drop a xs) (omega arith)

pub byte-take : (xs : Bytes) (i m : ℕ) → i < m → byte (take m xs) i ≡ byte xs i
byte-take xs i zero h = absurd (omega arith)
byte-take [] i (suc m) h = refl
byte-take (x ∷ xs) zero (suc m) h = refl
byte-take (x ∷ xs) (suc i) (suc m) h = byte-take xs i m (omega arith)

-- A page cut at its sequence number and its CRC.
pub page_parts :
    (xs : Bytes) (n : ℕ)
    → 26 ≤ n
    → 26 ≤ length xs
    → take n xs ≡ take 18 xs ++ (slice xs 18 4 ++ (slice xs 22 4 ++ take (n - 26) (drop 26 xs)))
page_parts xs n low long =
    let a = take 18 xs in
    let s = slice xs 18 4 in
    let c = slice xs 22 4 in
    let len_a = length-take 18 xs in
    let len_s = length-slice xs 18 4 (omega arith) in
    let len_c = length-slice xs 22 4 (omega arith) in
    let whole : xs ≡ a ++ (s ++ (c ++ drop 26 xs)) = sym (
      ap (λ t. a ++ (s ++ (c ++ t))) (sym (drop-drop 4 22 26 xs refl))
      ∙ ap (λ t. a ++ (s ++ t)) (take-append-drop 4 (drop 22 xs))
      ∙ ap (λ t. a ++ (s ++ t)) (sym (drop-drop 4 18 22 xs refl))
      ∙ ap (λ t. a ++ t) (take-append-drop 4 (drop 18 xs))
      ∙ take-append-drop 18 xs) in
    ap (take n) whole
    ∙ take-append_ge n (n - 18) a (s ++ (c ++ drop 26 xs)) (omega arith)
    ∙ ap (λ t. a ++ t)
        (take-append_ge (n - 18) (n - 22) s (c ++ drop 26 xs) (omega arith)
          ∙ ap (λ t. s ++ t) (take-append_ge (n - 22) (n - 26) c (drop 26 xs) (omega arith)))

pub sum_bytes-le : (bs : Bytes) → All IsByte bs → sum_bytes bs ≤ 255 + 256 * length bs
sum_bytes-le [] h = omega arith
sum_bytes-le (b ∷ bs) h = omega (arith, h.0, sum_bytes-le bs h.1)

pub All-take : (n : ℕ) (xs : Bytes) → All IsByte xs → All IsByte (take n xs)
All-take n xs h =
    All-append_left IsByte (take n xs) (drop n xs)
      (subst (All IsByte) (sym (take-append-drop n xs)) h)

pub All-drop : (n : ℕ) (xs : Bytes) → All IsByte xs → All IsByte (drop n xs)
All-drop n xs h =
    All-append_right IsByte (take n xs) (drop n xs)
      (subst (All IsByte) (sym (take-append-drop n xs)) h)

pub byte-IsByte : (xs : Bytes) (i : ℕ) → All IsByte xs → byte xs i < 256
byte-IsByte [] i h = omega arith
byte-IsByte (x ∷ xs) zero h = h.0
byte-IsByte (x ∷ xs) (suc i) h = byte-IsByte xs i h.1
