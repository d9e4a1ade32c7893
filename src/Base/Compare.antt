-- ===== src/Base/Compare.antt =====
-- Equality of byte strings, and the bytes of a text literal.
use Prim.Native.Char.{code}
use Prim.Native.String.{String}
use musefs.Base.{◌≡◌, refl, ◌↔◌, Bool, true, false, ◌&&◌, [], ◌∷◌, ◌==◌, arith}
use musefs.Base.Words.{Bytes}

-- The code points of an ASCII literal.
abbrev pub ascii : String → Bytes
ascii String.[] = []
ascii (String.◌∷◌ c s) = code c ∷ ascii s

infix 50 ◌==bytes◌
unfoldable pub ◌==bytes◌ : Bytes → Bytes → Bool
[] ==bytes [] = true
[] ==bytes (y ∷ ys) = false
(x ∷ xs) ==bytes [] = false
(x ∷ xs) ==bytes (y ∷ ys) = x == y && xs ==bytes ys

pub ==bytes_iff : (a b : Bytes) → ((a ==bytes b) ≡ true) ↔ (a ≡ b)
unfolding ◌==bytes◌
==bytes_iff [] [] = (λ _. refl, λ _. refl)
==bytes_iff [] (y ∷ ys) = (λ h. cc, λ h. cc)
==bytes_iff (x ∷ xs) [] = (λ h. cc, λ h. cc)
==bytes_iff (x ∷ xs) (y ∷ ys) =
    (λ h. ground (arith, (==bytes_iff xs ys).0), λ h. ground (arith, (==bytes_iff xs ys).1))
