-- ===== src/Core/OggIndex/Walk.antt =====
-- One page of the walk of `serve_ogg_window`.
use musefs.Base.{
  ℕ, zero, suc, ◌+◌, ◌-◌, ◌≤◌, ◌<◌, ◌≡◌, refl, sym, ap, ◌∙◌, inl, inr, Bool-cases, Option, none,
  some, List, [], ◌∷◌, ◌++◌, All, length, length-append, take, ◌==◌, arith,
}
use musefs.Base.Int.{ℤ}
use musefs.Base.Slices.{slice, slice-append_left, take-append_le, take-append_ge, take-all}
use musefs.Base.Words.{Bytes, u64_max, checked_add_u64}
use musefs.Base.Results.{ok, ok_or}
use musefs.Format.Bytes.{byte}
use musefs.Core.OggIndex.{Backing, take_header}
use musefs.Core.OggIndex.Pages.{
  AudioPage, IsPage, region, patched_header, fresh_header-IsOk, start_unique,
}

-- A read inside the file returns its bytes.
pub record ReadsExact (file : Bytes) (backing : Backing) : Type 0 where
  pub in_range :
      (off n : ℕ) → off + n ≤ length file → backing.read_exact_at off n ≡ ok (slice file off n)

byte-front : (a x : Bytes) (i : ℕ) → i < length a → byte (a ++ x) i ≡ byte a i
byte-front [] x i h = absurd (omega arith)
byte-front (b ∷ a) x zero h = refl
byte-front (b ∷ a) x (suc i) h = byte-front a x i (omega arith)

pub checked-fits :
    {E : Type 0} (e : E) (a b : ℕ) → a + b ≤ u64_max → ok_or (checked_add_u64 a b) e ≡ ok (a + b)
checked-fits e a b h = ground arith

-- The header found in what is read of a page.
module _ (header payload rest : Bytes) (r : ℕ) (fits : length header ≤ r) where
  abbrev pub found : Bytes
  found = take r (header ++ (payload ++ rest))

  found-split : found ≡ header ++ take (r - length header) (payload ++ rest)
  found-split = take-append_ge r (r - length header) header (payload ++ rest) (omega arith)

  pub found-byte : 26 < length header → byte found 26 ≡ byte header 26
  found-byte long =
      ap (λ t. byte t 26) found-split
      ∙ byte-front header (take (r - length header) (payload ++ rest)) 26 long

  pub found-table : (n : ℕ) → 27 + n ≤ length header → slice found 27 n ≡ slice header 27 n
  found-table n inside =
      ap (λ t. slice t 27 n) found-split
      ∙ slice-append_left header (take (r - length header) (payload ++ rest)) 27 n inside

  pub found-header : take (length header) found ≡ header
  found-header =
      ap (take (length header)) found-split
      ∙ take-append_le (length header) header (take (r - length header) (payload ++ rest))
          (omega arith)
      ∙ take-all (length header) header (omega arith)

  pub found-length : length header ≤ length found
  found-length = omega (
    arith,
    ap length found-split,
    length-append header (take (r - length header) (payload ++ rest)),
  )

-- What is carried names a page of the region and holds its patched header.
abbrev pub IsCarried : ℤ → List AudioPage → Option (ℕ × Bytes) → Type 0
IsCarried delta pages none = Unit
IsCarried delta pages (some (rel, h)) =
    (before : List AudioPage) × (p : AudioPage) × (after : List AudioPage) × (pages
      ≡ before ++ (p ∷ after))
    × (rel ≡ length (region before))
    × (h ≡ patched_header delta p)

module _ (delta : ℤ) (before after : List AudioPage) (p : AudioPage)
    (good : All IsPage (before ++ (p ∷ after))) (is_page : IsPage p) where
  abbrev pages : List AudioPage
  pages = before ++ (p ∷ after)

  -- The header that is served, carried or fresh, is the patched one.
  pub take_header-patched :
      (carried : Option (ℕ × Bytes))
      → IsCarried delta pages carried
      → (left : Option (ℕ × Bytes)) × (take_header carried (length (region before)) p.header delta
          ≡ ok (patched_header delta p, left))
        × IsCarried delta pages left
  unfolding take_header
  take_header-patched none valid =
      let fresh = (fresh_header-IsOk p delta is_page).0 in (none, rw (take_header, fresh) refl, tt)
  take_header-patched (some (rel, h)) (before', p', after', split, at_rel, h_is) =
      elim (Bool-cases (rel == length (region before))) [
        | inr elsewhere ↦
            let fresh = (fresh_header-IsOk p delta is_page).0 in
            (
              some (rel, h),
              rw (take_header, elsewhere, fresh) refl,
              (before', p', after', split, at_rel, h_is),
            )
        | inl here ↦
            let same_start : length (region before) ≡ length (region before') =
              ground (arith, at_rel) in
            let same = start_unique before before' after after' p p' good split same_start in
            let h_is' : h ≡ patched_header delta p = h_is ∙ ap (patched_header delta) (sym same) in
            (none, rw (take_header, here) (ap (λ t. ok (t, none)) h_is'), tt)
      ]
