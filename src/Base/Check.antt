-- ===== src/Base/Check.antt =====
-- A test of every element.
use musefs.Base.{◌≡◌, inl, inr, Bool, Bool-cases, true, ◌&&◌, List, [], ◌∷◌, All}

module _ {ℓ} {A : Type ℓ} where
  unfoldable pub every : (A → Bool) → List A → Bool
  every p [] = true
  every p (x ∷ xs) = p x && every p xs

  -- What the test decides holds of every element.
  pub every-All {κ} :
      (P : A → Type κ) (p : A → Bool) (xs : List A)
      → ((x : A) → p x ≡ true → P x)
      → every p xs ≡ true
      → All P xs
  unfolding every
  every-All P p [] sound h = tt
  every-All P p (x ∷ xs) sound h = elim (Bool-cases (p x)) [
    | inl yes_here ↦ (sound x yes_here, every-All P p xs sound (rw yes_here at h))
    | inr no_here ↦ cc (rw no_here at h)
  ]
