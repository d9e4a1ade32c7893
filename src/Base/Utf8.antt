-- ===== src/Base/Utf8.antt =====
-- `std::str::from_utf8`: which bytes are UTF-8, by the table of well-formed sequences.
use musefs.Base.{
  ℕ, zero, suc, ◌<◌, ◌≡◌, refl, Bool, true, false, ◌&&◌, Option, none, some, [], ◌∷◌, ◌++◌, All,
  ltb, leb, lt→ltb, ◌==◌, if◌then◌else◌,
}
use musefs.Base.Words.{Bytes}

-- What must follow a byte: the number of continuation bytes, and the bounds of the first of them.
abbrev pub Follow : Type 0
Follow = ℕ × ℕ × ℕ

unfoldable pub lead : ℕ → Option Follow
lead b =
    if ltb b 0x80
    then some (0, 0, 0)
    else if ltb b 0xc2
    then none
    else if ltb b 0xe0
    then some (1, 0x80, 0xbf)
    else if b == 0xe0
    then some (2, 0xa0, 0xbf)
    else if b == 0xed
    then some (2, 0x80, 0x9f)
    else if ltb b 0xf0
    then some (2, 0x80, 0xbf)
    else if b == 0xf0
    then some (3, 0x90, 0xbf)
    else if ltb b 0xf4
    then some (3, 0x80, 0xbf)
    else if b == 0xf4
    then some (3, 0x80, 0x8f)
    else none

unfoldable pub utf8_from : Follow → Bytes → Bool
utf8_from (zero, low, high) [] = true
utf8_from (suc n, low, high) [] = false
utf8_from (zero, low, high) (b ∷ bs) = elim (lead b) [
  | none ↦ false
  | some follow ↦ utf8_from follow bs
]
utf8_from (suc n, low, high) (b ∷ bs) = (leb low b && leb b high) && utf8_from (n, 0x80, 0xbf) bs

unfoldable pub is_utf8 : Bytes → Bool
is_utf8 bs = utf8_from (0, 0, 0) bs

lead-low : (x : ℕ) → x < 128 → lead x ≡ some (0, 0, 0)
unfolding lead
lead-low x h = let small = lt→ltb x 128 h in rw (lead, small) refl

-- ASCII in front changes nothing.
pub is_utf8-ascii_append : (xs ys : Bytes) → All (λ b. b < 128) xs → is_utf8 (xs ++ ys) ≡ is_utf8 ys
unfolding is_utf8 utf8_from
is_utf8-ascii_append [] ys h = refl
is_utf8-ascii_append (x ∷ xs) ys h =
    let low = lead-low x h.0 in rw (utf8_from, low) (is_utf8-ascii_append xs ys h.1)
