-- ===== src/Signing/Tests.antt =====
-- Signatures at concrete inputs: a number as so many ones and one more, and as digest as
-- many as the secret and the text have code points.
use web_hooks.Base.{
  ℕ, zero, suc, ◌+◌, ◌≤◌, ◌≡◌, ◌≢◌, ◌↔◌, true, some, length, refl, [], ◌∷◌, All, arith,
}
use web_hooks.RetryQueue.{Text}
use web_hooks.RetryQueue.Unary.{ones}
use web_hooks.Signing.{is_ascii, compute_signature, verify_signature}
use web_hooks.Signing.Verify.{verify_signature_iff}

abbrev digest : Text → Text → Text
digest secret text = ones (length secret + length text)

ones-is_ascii : (n : ℕ) → is_ascii (ones n) ≡ true
unfolding ones
ones-is_ascii zero = refl
ones-is_ascii (suc n) = ones-is_ascii n

ones_no_point : (n : ℕ) → All (λ c. c ≢ b'.') (ones n)
unfolding ones
ones_no_point zero = ((λ e. omega arith), tt)
ones_no_point (suc n) = ((λ e. omega arith), ones_no_point n)

abbrev stamp : ℕ
stamp = 4

abbrev content : Text
content = b'x' ∷ []

verify_signature_iff_example :
    (verify_signature ones digest
        (b's' ∷ [])
        4
        (b'x' ∷ [])
        (compute_signature ones digest (b's' ∷ []) 4 (b'x' ∷ []))
        300
        200
      ≡ some true)
    ↔ ((200 ≤ 4 + 300)
        × (4 ≤ 200 + 300)
        × (compute_signature ones digest (b's' ∷ []) 4 (b'x' ∷ [])
            ≡ compute_signature ones digest (b's' ∷ []) 4 (b'x' ∷ [])))
verify_signature_iff_example =
    verify_signature_iff ones digest (b's' ∷ []) 4 (b'x' ∷ [])
      (compute_signature ones digest (b's' ∷ []) 4 (b'x' ∷ [])) 300 200
      (λ key text. ones-is_ascii (length key + length text))
