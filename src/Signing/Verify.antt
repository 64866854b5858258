-- ===== src/Signing/Verify.antt =====
-- The signed text determines what is signed, and a signature verifies exactly if it is the one that
-- was computed and is not too old.
use web_hooks.Base.{ℕ, ◌+◌, ◌≤◌, ◌≡◌, ◌≢◌, ◌↔◌, refl, true, some, [], ◌∷◌, ◌++◌, All, arith}
use web_hooks.RetryQueue.{Text}
use web_hooks.Signing.{
  is_ascii, compare_digest, compare_texts, signed_payload, compute_signature, verify_signature,
}

pub compare_digest_refl : (t : Text) → compare_digest t t ≡ true
unfolding compare_digest
compare_digest_refl [] = refl
compare_digest_refl (c ∷ t) = ground (arith, compare_digest_refl t)

pub compare_digest_sound : (t u : Text) → compare_digest t u ≡ true → t ≡ u
unfolding compare_digest
compare_digest_sound [] [] h = refl
compare_digest_sound [] (d ∷ u) h = absurd (cc)
compare_digest_sound (c ∷ t) [] h = absurd (cc)
compare_digest_sound (c ∷ t) (d ∷ u) h = ground (arith, compare_digest_sound t u)

-- The text before the first point of two texts, and what follows it.
cut_at_point :
    (t u body other : Text)
    → All (λ c. c ≢ b'.') t
    → All (λ c. c ≢ b'.') u
    → t ++ (b'.' ∷ body) ≡ u ++ (b'.' ∷ other)
    → (t ≡ u) × (body ≡ other)
cut_at_point [] [] body other h k e = ground (arith, e)
cut_at_point [] (d ∷ u) body other h k e = absurd (ground (arith, e, k.0))
cut_at_point (c ∷ t) [] body other h k e = absurd (ground (arith, e, h.0))
cut_at_point (c ∷ t) (d ∷ u) body other h k e =
    let rest = cut_at_point t u body other h.1 k.1 (ground (arith, e)) in ground (arith, e, rest)

-- The decimal text of a number has no point, and determines the number.
module _ (number_text : ℕ → Text) (no_point : (n : ℕ) → All (λ c. c ≢ b'.') (number_text n))
    (number_text_injective : (m n : ℕ) → number_text m ≡ number_text n → m ≡ n)
    (hmac : Text → Text → Text) where
  -- The signed text determines the timestamp and the body: a captured body under a fresh timestamp,
  -- or a timestamp moved into the body, is another text.
  pub signed_payload_injective :
      (timestamp other_timestamp : ℕ) (body other : Text)
      → signed_payload number_text hmac timestamp body
        ≡ signed_payload number_text hmac other_timestamp other
      → (timestamp ≡ other_timestamp) × (body ≡ other)
  unfolding signed_payload
  signed_payload_injective m n body other e =
      let both =
        cut_at_point (number_text m) (number_text n) body other (no_point m) (no_point n) e in
      (number_text_injective m n both.0, both.1)

is_ascii-signed :
    (number_text : ℕ → Text) (hmac : Text → Text → Text) (secret : Text) (timestamp : ℕ)
    (body : Text)
    → ((key text : Text) → is_ascii (hmac key text) ≡ true)
    → is_ascii (compute_signature number_text hmac secret timestamp body) ≡ true
unfolding compute_signature
is_ascii-signed number_text hmac secret timestamp body ascii = ascii secret _

-- A signature is accepted exactly if it is the signature of this secret, timestamp and body, and the
-- receiver's clock is within the tolerance of the timestamp, before or after it. The condition is
-- that the hexadecimal text of an HMAC is ASCII.
pub verify_signature_iff :
    (number_text : ℕ → Text) (hmac : Text → Text → Text) (secret : Text) (timestamp : ℕ)
    (body signature : Text) (tolerance_seconds now : ℕ)
    → ((key text : Text) → is_ascii (hmac key text) ≡ true)
    → (verify_signature number_text hmac secret timestamp body signature tolerance_seconds now
        ≡ some true)
      ↔ ((now ≤ timestamp + tolerance_seconds)
          × (timestamp ≤ now + tolerance_seconds)
          × (signature ≡ compute_signature number_text hmac secret timestamp body))
unfolding verify_signature compare_texts
verify_signature_iff number_text hmac secret timestamp body signature tolerance now ascii =
    let computed = compute_signature number_text hmac secret timestamp body in
    ground (
      arith,
      compare_digest_refl computed,
      compare_digest_sound computed signature,
      is_ascii-signed number_text hmac secret timestamp body ascii,
    )
