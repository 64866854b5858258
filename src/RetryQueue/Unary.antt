-- ===== src/RetryQueue/Unary.antt =====
-- Texts of identifiers that meet the laws of `Texts`: a number is so many ones and one more.
use web_hooks.Base.{ℕ, zero, suc, ◌≡◌, ◌≢◌, refl, [], ◌∷◌, All, arith, ap, length}
use web_hooks.RetryQueue.{Text, Texts}

unfoldable pub ones : ℕ → Text
ones zero = b'1' ∷ []
ones (suc n) = b'1' ∷ ones n

pub ones_plain : (n : ℕ) → (ones n ≢ []) × All (λ c. c ≢ b'|') (ones n)
unfolding ones
ones_plain zero = (λ e. cc, (omega arith, tt))
ones_plain (suc n) = (λ e. cc, (omega arith, (ones_plain n).1))

length-ones : (n : ℕ) → length (ones n) ≡ suc n
unfolding ones
length-ones zero = refl
length-ones (suc n) = ap suc (length-ones n)

pub ones_injective : (m n : ℕ) → ones m ≡ ones n → m ≡ n
ones_injective m n e = omega (arith, length-ones m, length-ones n, ap length e)

abbrev pub unary : Texts
unary = record {
  uuid_text = ones;
  crc32 = λ u. u;
  number_text = ones;
  uuid_text_plain = ones_plain;
  number_text_plain = ones_plain;
  uuid_text_injective = ones_injective;
}
