-- ===== src/Format/Bytes.antt =====
-- musefs-format/src/bytes.rs: integers at an offset, and size.rs: checked sums of lengths.
use musefs.Base.{
  ℕ, suc, ◌+◌, ◌*◌, List, [], ◌∷◌, ◌++◌, arith, length, ◌≡◌, refl, ap, ◌∙◌, get_or, leb,
  if◌then◌else◌,
}
use musefs.Base.Words.{Bytes, checked_add_u64}
use musefs.Base.Results.{ok, err, ok_or, ◌>>=◌}
use musefs.Format.Error.{FormatResult, malformed, too_large}

abbrev pub byte : Bytes → ℕ → ℕ
byte bs i = get_or bs i 0

abbrev pub u32_be : ℕ → ℕ → ℕ → ℕ → ℕ
u32_be b0 b1 b2 b3 = ((b0 * 256 + b1) * 256 + b2) * 256 + b3

unfoldable pub read_u32_be : Bytes → ℕ → FormatResult ℕ
read_u32_be bs pos =
    if leb (pos + 4) (length bs)
    then ok (u32_be (byte bs pos) (byte bs (pos + 1)) (byte bs (pos + 2)) (byte bs (pos + 3)))
    else err malformed

unfoldable pub read_u64_be : Bytes → ℕ → FormatResult ℕ
read_u64_be bs pos =
    if leb (pos + 8) (length bs)
    then ok (
        u32_be (byte bs pos) (byte bs (pos + 1)) (byte bs (pos + 2)) (byte bs (pos + 3))
          * 4294967296
        + u32_be (byte bs (pos + 4)) (byte bs (pos + 5)) (byte bs (pos + 6)) (byte bs (pos + 7)))
    else err malformed

unfoldable pub read_u32_le : Bytes → ℕ → FormatResult ℕ
read_u32_le bs pos =
    if leb (pos + 4) (length bs)
    then ok (u32_be (byte bs (pos + 3)) (byte bs (pos + 2)) (byte bs (pos + 1)) (byte bs pos))
    else err malformed

unfoldable pub checked_add : ℕ → ℕ → FormatResult ℕ
checked_add a b = ok_or (checked_add_u64 a b) too_large

-- `try_fold(0, checked_add)`, from a sum so far.
unfoldable pub checked_sum_from : ℕ → List ℕ → FormatResult ℕ
checked_sum_from sum [] = ok sum
checked_sum_from sum (n ∷ ns) = do next ← checked_add sum n; checked_sum_from next ns

unfoldable pub checked_sum : List ℕ → FormatResult ℕ
checked_sum ns = checked_sum_from 0 ns

-- What stands behind a prefix.
pub byte-append : (pre bs : Bytes) (k : ℕ) → byte (pre ++ bs) (length pre + k) ≡ byte bs k
byte-append [] bs k = let none_before : 0 + k ≡ k = omega arith in ap (λ i. byte bs i) none_before
byte-append (x ∷ pre) bs k =
    let one_before : suc (length pre) + k ≡ suc (length pre + k) = omega arith in
    ap (λ i. byte (x ∷ (pre ++ bs)) i) one_before ∙ byte-append pre bs k

pub byte-append_0 : (pre bs : Bytes) → byte (pre ++ bs) (length pre) ≡ byte bs 0
byte-append_0 [] bs = refl
byte-append_0 (x ∷ pre) bs = byte-append_0 pre bs
