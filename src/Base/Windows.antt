-- ===== src/Base/Windows.antt =====
-- The part of a list that falls into a range of positions.
use musefs.Base.{
  ℕ, zero, suc, ◌+◌, ◌-◌, min, max, ◌≡◌, refl, sym, ap, ◌∙◌, Bool-cases, inl, inr, List, [], ◌++◌,
  length, arith, ltb, ltb_false→le, if◌then◌else◌,
}
use musefs.Base.Slices.{slice, slice-append, slice-min, sub_zero}

module _ {ℓ} {A : Type ℓ} where
  -- The elements at the positions `p0 .. end` of a list that starts at the position `cs`.
  abbrev pub window : List A → ℕ → ℕ → ℕ → List A
  window xs p0 end cs = slice xs (p0 - cs) (end - max p0 cs)

  pub window-append :
      (xs ys : List A) (p0 end cs : ℕ)
      → window (xs ++ ys) p0 end cs
        ≡ slice xs (max p0 cs - cs) (min end (cs + length xs) - max p0 cs)
          ++ window ys p0 end (cs + length xs)
  window-append xs ys p0 end cs =
      let here : p0 - cs ≡ max p0 cs - cs = omega arith in
      let there : p0 - cs - length xs ≡ p0 - (cs + length xs) = omega arith in
      let left : end - max p0 cs - (length xs - (p0 - cs)) ≡ end - max p0 (cs + length xs) =
        omega arith in
      slice-append xs ys (p0 - cs) (end - max p0 cs)
      ∙ ap (λ t. t ++ slice ys (p0 - cs - length xs) (end - max p0 cs - (length xs - (p0 - cs))))
          (sym (
              slice-min xs (p0 - cs) (min end (cs + length xs) - max p0 cs) (end - max p0 cs)
                (omega arith))
            ∙ ap (λ a. slice xs a (min end (cs + length xs) - max p0 cs)) here)
      ∙ ap
          (λ a.
            slice xs (max p0 cs - cs) (min end (cs + length xs) - max p0 cs)
            ++ slice ys a (end - max p0 cs - (length xs - (p0 - cs))))
          there
      ∙ ap
          (λ n.
            slice xs (max p0 cs - cs) (min end (cs + length xs) - max p0 cs)
            ++ slice ys (p0 - (cs + length xs)) n)
          left

  slice-nil : (a n : ℕ) → slice {A = A} [] a n ≡ []
  slice-nil zero zero = refl
  slice-nil zero (suc n) = refl
  slice-nil (suc a) zero = refl
  slice-nil (suc a) (suc n) = refl

  pub window-nil : (p0 end cs : ℕ) → window [] p0 end cs ≡ []
  window-nil p0 end cs = slice-nil (p0 - cs) (end - max p0 cs)

module _ {ℓ} {A : Type ℓ} where
  pub window-start : (xs : List A) (p0 n : ℕ) → window xs p0 (p0 + n) 0 ≡ slice xs p0 n
  window-start xs p0 n =
      let size : p0 + n - max p0 0 ≡ n = omega arith in
      ap (λ a. slice xs a (p0 + n - max p0 0)) (sub_zero p0) ∙ ap (slice xs p0) size

module _ {ℓ} {A : Type ℓ} where
  -- The test of an overlap before it is copied.
  pub slice-if :
      (xs : List A) (lo hi a : ℕ)
      → (if ltb lo hi then slice xs a (hi - lo) else []) ≡ slice xs a (hi - lo)
  slice-if xs lo hi a = elim (Bool-cases (ltb lo hi)) [
    | inl over ↦ rw over refl
    | inr clear ↦
        let none : hi - lo ≡ 0 = omega (arith, ltb_false→le lo hi clear) in rw (clear, none) refl
  ]
