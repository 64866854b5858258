-- ===== src/Signing.antt =====
-- relay/signing.py: the signature of a delivery and its verification. HMAC-SHA256 in hexadecimal and
-- the decimal text of a number are parameters; timestamps are not negative.
pub mod Verify
mod Tests
use web_hooks.Base.{
  ℕ, ◌+◌, ◌-◌, Bool, true, false, ◌&&◌, Option, none, some, [], ◌∷◌, ◌++◌, ◌==◌, ltb, if◌then◌else◌,
}
use web_hooks.RetryQueue.{Text}

abbrev pub default_tolerance_seconds : ℕ
default_tolerance_seconds = 300

-- "v1" and "="
abbrev pub signature_prefix : Text
signature_prefix = b'v' ∷ b'1' ∷ b'=' ∷ []

-- Whether two texts are equal, code point by code point.
unfoldable pub compare_digest : Text → Text → Bool
compare_digest [] [] = true
compare_digest [] (d ∷ u) = false
compare_digest (c ∷ t) [] = false
compare_digest (c ∷ t) (d ∷ u) = (c == d) && compare_digest t u

abbrev pub is_ascii : Text → Bool
is_ascii [] = true
is_ascii (c ∷ t) = ltb c 128 && is_ascii t

-- `hmac.compare_digest` on texts: a TypeError, `none`, unless both are ASCII.
unfoldable pub compare_texts : Text → Text → Option Bool
unfolding compare_digest
compare_texts t u = if is_ascii t && is_ascii u then some (compare_digest t u) else none

-- `abs(current - timestamp)`; `-` stops at 0.
abbrev pub distance : ℕ → ℕ → ℕ
distance a b = (a - b) + (b - a)

module _ (number_text : ℕ → Text) (hmac : Text → Text → Text) where
  unfoldable pub signed_payload : ℕ → Text → Text
  signed_payload timestamp body = number_text timestamp ++ (b'.' ∷ body)

  unfoldable pub compute_signature : Text → ℕ → Text → Text
  unfolding signed_payload
  compute_signature secret timestamp body =
      signature_prefix ++ hmac secret (signed_payload timestamp body)

  -- Whether the signature is accepted, and none where the comparison raises.
  unfoldable pub verify_signature :
      Text → ℕ → Text → Text → (tolerance_seconds now : ℕ) → Option Bool
  unfolding compute_signature compare_texts
  verify_signature secret timestamp body signature tolerance_seconds now =
      if ltb tolerance_seconds (distance now timestamp)
      then some false
      else compare_texts (compute_signature secret timestamp body) signature
