-- ===== src/Base/Slices.antt =====
-- `take` and `drop` against `++`, and slices `xs[a..a + n]` of a list.
use musefs.Base.{
  ℕ, zero, suc, ◌+◌, ◌-◌, ◌≤◌, ◌≡◌, refl, ap, ◌∙◌, arith, List, [], ◌∷◌, ◌++◌, length, take, drop,
  length-take, length-drop, min, sym,
}

module _ {ℓ} {A : Type ℓ} where
  -- `xs[a..a + n]`, cut at the end of `xs`.
  abbrev pub slice : List A → ℕ → ℕ → List A
  slice xs a n = take n (drop a xs)

  pub take-all : (n : ℕ) (xs : List A) → length xs ≤ n → take n xs ≡ xs
  take-all zero [] h = refl
  take-all zero (x ∷ xs) h = absurd (omega arith)
  take-all (suc n) [] h = refl
  take-all (suc n) (x ∷ xs) h = ap (◌∷◌ x) (take-all n xs (omega arith))

  pub drop-all : (n : ℕ) (xs : List A) → length xs ≤ n → drop n xs ≡ []
  drop-all zero [] h = refl
  drop-all zero (x ∷ xs) h = absurd (omega arith)
  drop-all (suc n) [] h = refl
  drop-all (suc n) (x ∷ xs) h = drop-all n xs (omega arith)

  pub take-append_le : (n : ℕ) (xs ys : List A) → n ≤ length xs → take n (xs ++ ys) ≡ take n xs
  take-append_le zero xs ys h = refl
  take-append_le (suc n) [] ys h = absurd (omega arith)
  take-append_le (suc n) (x ∷ xs) ys h = ap (◌∷◌ x) (take-append_le n xs ys (omega arith))

  pub drop-append_le :
      (n : ℕ) (xs ys : List A) → n ≤ length xs → drop n (xs ++ ys) ≡ drop n xs ++ ys
  drop-append_le zero xs ys h = refl
  drop-append_le (suc n) [] ys h = absurd (omega arith)
  drop-append_le (suc n) (x ∷ xs) ys h = drop-append_le n xs ys (omega arith)

  -- The number of elements past `xs` is a variable with an equation, so that `omega` finds it.
  pub take-append_ge :
      (m n : ℕ) (xs ys : List A) → m ≡ length xs + n → take m (xs ++ ys) ≡ xs ++ take n ys
  take-append_ge m n [] ys h = let e : m ≡ n = omega arith in ap (λ k. take k ys) e
  take-append_ge zero n (x ∷ xs) ys h = absurd (omega arith)
  take-append_ge (suc m) n (x ∷ xs) ys h = ap (◌∷◌ x) (take-append_ge m n xs ys (omega arith))

  pub drop-append_ge :
      (m n : ℕ) (xs ys : List A) → m ≡ length xs + n → drop m (xs ++ ys) ≡ drop n ys
  drop-append_ge m n [] ys h = let e : m ≡ n = omega arith in ap (λ k. drop k ys) e
  drop-append_ge zero n (x ∷ xs) ys h = absurd (omega arith)
  drop-append_ge (suc m) n (x ∷ xs) ys h = drop-append_ge m n xs ys (omega arith)

  pub drop-drop : (a b c : ℕ) (xs : List A) → c ≡ a + b → drop a (drop b xs) ≡ drop c xs
  drop-drop a zero c xs h = let e : a ≡ c = omega arith in ap (λ k. drop k xs) e
  drop-drop zero (suc b) zero [] h = refl
  drop-drop (suc a) (suc b) zero [] h = refl
  drop-drop zero (suc b) (suc c) [] h = refl
  drop-drop (suc a) (suc b) (suc c) [] h = refl
  drop-drop a (suc b) zero (x ∷ xs) h = absurd (omega arith)
  drop-drop a (suc b) (suc c) (x ∷ xs) h = drop-drop a b c xs (omega arith)

  pub take-take : (a b : ℕ) (xs : List A) → a ≤ b → take a (take b xs) ≡ take a xs
  take-take zero b xs h = refl
  take-take (suc a) zero xs h = absurd (omega arith)
  take-take (suc a) (suc b) [] h = refl
  take-take (suc a) (suc b) (x ∷ xs) h = ap (◌∷◌ x) (take-take a b xs (omega arith))

  pub drop-take : (a b n : ℕ) (xs : List A) → a + n ≡ b → drop a (take b xs) ≡ take n (drop a xs)
  drop-take zero b n xs h = let e : b ≡ n = omega arith in ap (λ k. take k xs) e
  drop-take (suc a) zero n xs h = absurd (omega arith)
  drop-take (suc a) (suc b) zero [] h = refl
  drop-take (suc a) (suc b) (suc n) [] h = refl
  drop-take (suc a) (suc b) n (x ∷ xs) h = drop-take a b n xs (omega arith)

module _ {ℓ} {A : Type ℓ} where
  pub length-slice : (xs : List A) (a n : ℕ) → a + n ≤ length xs → length (slice xs a n) ≡ n
  length-slice xs a n h = omega (arith, length-take n (drop a xs), length-drop a xs)

  -- A slice that ends before `ys` begins.
  pub slice-append_left :
      (xs ys : List A) (a n : ℕ) → a + n ≤ length xs → slice (xs ++ ys) a n ≡ slice xs a n
  slice-append_left xs ys a n h =
      ap (take n) (drop-append_le a xs ys (omega arith))
      ∙ take-append_le n (drop a xs) ys (omega (arith, length-drop a xs))

  -- A slice that begins past `xs`.
  pub slice-append_right :
      (xs ys : List A) (a b n : ℕ) → a ≡ length xs + b → slice (xs ++ ys) a n ≡ slice ys b n
  slice-append_right xs ys a b n h = ap (take n) (drop-append_ge a b xs ys h)

  -- A slice of a slice.
  pub slice-slice :
      (xs : List A) (a n b m c : ℕ)
      → b + m ≤ n
      → c ≡ b + a
      → slice (slice xs a n) b m ≡ slice xs c m
  slice-slice xs a n b m c h e =
      ap (take m) (drop-take b n (n - b) (drop a xs) (omega arith))
      ∙ take-take m (n - b) (drop b (drop a xs)) (omega arith)
      ∙ ap (take m) (drop-drop b a c xs e)

module _ {ℓ} {A : Type ℓ} where
  pub take-min : (m n : ℕ) (xs : List A) → m ≡ min n (length xs) → take m xs ≡ take n xs
  take-min zero zero xs h = refl
  take-min zero (suc n) [] h = refl
  take-min zero (suc n) (x ∷ xs) h = absurd (omega arith)
  take-min (suc m) zero xs h = absurd (omega arith)
  take-min (suc m) (suc n) [] h = refl
  take-min (suc m) (suc n) (x ∷ xs) h = ap (◌∷◌ x) (take-min m n xs (omega arith))

  -- A slice does not reach past the end.
  pub slice-min :
      (xs : List A) (a m n : ℕ) → m ≡ min n (length xs - a) → slice xs a m ≡ slice xs a n
  slice-min xs a m n h = take-min m n (drop a xs) (omega (arith, length-drop a xs))

  take-append : (n : ℕ) (xs ys : List A) → take n (xs ++ ys) ≡ take n xs ++ take (n - length xs) ys
  take-append zero xs ys = let e : 0 - length xs ≡ 0 = omega arith in ap (λ k. take k ys) (sym e)
  take-append (suc n) [] ys = let e : suc n - 0 ≡ suc n = omega arith in ap (λ k. take k ys) (sym e)
  take-append (suc n) (x ∷ xs) ys =
      let e : suc n - suc (length xs) ≡ n - length xs = omega arith in
      ap (◌∷◌ x) (take-append n xs ys ∙ ap (λ k. take n xs ++ take k ys) (sym e))

  drop-append : (n : ℕ) (xs ys : List A) → drop n (xs ++ ys) ≡ drop n xs ++ drop (n - length xs) ys
  drop-append n [] ys =
      let e : n - 0 ≡ n = omega arith in
      ap (λ k. drop k ys) (sym e)
      ∙ ap (λ t. t ++ drop (n - 0) ys) (sym (drop-all n [] (omega arith)))
  drop-append zero (x ∷ xs) ys =
      let e : 0 - suc (length xs) ≡ 0 = omega arith in ap (λ k. x ∷ (xs ++ drop k ys)) (sym e)
  drop-append (suc n) (x ∷ xs) ys =
      let e : suc n - suc (length xs) ≡ n - length xs = omega arith in
      drop-append n xs ys ∙ ap (λ k. drop n xs ++ drop k ys) (sym e)

  -- A slice across the place where two lists meet.
  pub slice-append :
      (xs ys : List A) (a n : ℕ)
      → slice (xs ++ ys) a n ≡ slice xs a n ++ slice ys (a - length xs) (n - (length xs - a))
  slice-append xs ys a n =
      ap (take n) (drop-append a xs ys)
      ∙ take-append n (drop a xs) (drop (a - length xs) ys)
      ∙ ap (λ k. slice xs a n ++ take (n - k) (drop (a - length xs) ys)) (length-drop a xs)

pub sub_zero : (n : ℕ) → n - 0 ≡ n
sub_zero n = omega arith
