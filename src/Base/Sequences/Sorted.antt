-- ===== src/Base/Sequences/Sorted.antt =====
-- The order that `sort_by` gives, and what an index into a sorted list finds.
use package.web_hooks.Base.{
  ℕ, zero, suc, ◌≤◌, ◌<◌, ◌≡◌, refl, some, List, [], ◌∷◌, length, leb, All, Bool-cases, leb→le, inl,
  inr, arith, ◌∙◌, ap, subst,
}
use package.web_hooks.Base.Sequences.{insert_by, sort_by, nth, last?}

module _ {A : Type 0} (key : A → ℕ) where
  abbrev pub IsSorted : List A → Type 0
  IsSorted [] = Unit {0}
  IsSorted (a ∷ as_) = All (λ b. key a ≤ key b) as_ × IsSorted as_

  All-insert_by :
      (P : A → Type 0) (a : A) (bs : List A) → P a → All P bs → All P (insert_by key a bs)
  unfolding insert_by
  All-insert_by P a [] p h = (p, tt)
  All-insert_by P a (b ∷ bs) p (q, h) = elim (Bool-cases (leb (key a) (key b))) [
    | inl e ↦ rw (e, insert_by) (p, (q, h))
    | inr e ↦ rw (e, insert_by) (q, All-insert_by P a bs p h)
  ]

  All-le_trans : (m n : ℕ) (bs : List A) → m ≤ n → All (λ b. n ≤ key b) bs → All (λ b. m ≤ key b) bs
  All-le_trans m n [] h hs = tt
  All-le_trans m n (b ∷ bs) h (k, hs) = (omega (arith, h, k), All-le_trans m n bs h hs)

  insert_by-IsSorted : (a : A) (bs : List A) → IsSorted bs → IsSorted (insert_by key a bs)
  unfolding insert_by
  insert_by-IsSorted a [] h = (tt, tt)
  insert_by-IsSorted a (b ∷ bs) (h, hs) = elim (Bool-cases (leb (key a) (key b))) [
    | inl e ↦
        let le = leb→le (key a) (key b) e in
        rw (e, insert_by) ((le, All-le_trans (key a) (key b) bs le h), (h, hs))
    | inr e ↦
        rw (e, insert_by)
          (
            All-insert_by (λ c. key b ≤ key c) a bs (ground (arith, e)) h,
            insert_by-IsSorted a bs hs,
          )
  ]

  pub sort_by-IsSorted : (bs : List A) → IsSorted (sort_by key bs)
  unfolding sort_by
  sort_by-IsSorted [] = tt
  sort_by-IsSorted (b ∷ bs) = insert_by-IsSorted b (sort_by key bs) (sort_by-IsSorted bs)

  pub All-sort_by : (P : A → Type 0) (bs : List A) → All P bs → All P (sort_by key bs)
  unfolding sort_by
  All-sort_by P [] h = tt
  All-sort_by P (b ∷ bs) (p, h) = All-insert_by P b (sort_by key bs) p (All-sort_by P bs h)

  -- What holds of every element of the sorted list holds of every element of the list.
  All-insert_by_back :
      (P : A → Type 0) (a : A) (bs : List A) → All P (insert_by key a bs) → P a × All P bs
  unfolding insert_by
  All-insert_by_back P a [] (p, h) = (p, tt)
  All-insert_by_back P a (b ∷ bs) h = elim (Bool-cases (leb (key a) (key b))) [
    | inl e ↦ rw (e, insert_by) at h
    | inr e ↦
        let g : All P (b ∷ insert_by key a bs) = rw (e, insert_by) at h in
        let (p, rest) = All-insert_by_back P a bs g.1 in (p, (g.0, rest))
  ]

  pub All-sort_by_back : (P : A → Type 0) (bs : List A) → All P (sort_by key bs) → All P bs
  unfolding sort_by
  All-sort_by_back P [] h = tt
  All-sort_by_back P (b ∷ bs) h =
      let (p, rest) = All-insert_by_back P b (sort_by key bs) h in (p, All-sort_by_back P bs rest)

  length-insert_by : (a : A) (bs : List A) → length (insert_by key a bs) ≡ suc (length bs)
  unfolding insert_by
  length-insert_by a [] = refl
  length-insert_by a (b ∷ bs) = ground (arith, length-insert_by a bs)

  pub length-sort_by : (bs : List A) → length (sort_by key bs) ≡ length bs
  unfolding sort_by
  length-sort_by [] = refl
  length-sort_by (b ∷ bs) = length-insert_by b (sort_by key bs) ∙ ap suc (length-sort_by bs)

  All-nth : (P : A → Type 0) (bs : List A) (i : ℕ) (b : A) → All P bs → nth bs i ≡ some b → P b
  unfolding nth
  All-nth P [] i b h e = absurd (cc)
  All-nth P (c ∷ bs) zero b (p, h) e = let same : c ≡ b = cc in subst P same p
  All-nth P (c ∷ bs) (suc i) b (p, h) e = All-nth P bs i b h e

  -- In a sorted list a later index finds a greater key.
  pub nth_monotone :
      (bs : List A) (i j : ℕ) (a b : A)
      → IsSorted bs
      → i ≤ j
      → nth bs i ≡ some a
      → nth bs j ≡ some b
      → key a ≤ key b
  unfolding nth
  nth_monotone [] i j a b s h ea eb = absurd (cc)
  nth_monotone (c ∷ bs) zero zero a b s h ea eb =
      let same : a ≡ b = cc in subst (λ x. key a ≤ key x) same (omega arith)
  nth_monotone (c ∷ bs) zero (suc j) a b (all_, s) h ea eb =
      let same : c ≡ a = cc in
      subst (λ x. key x ≤ key b) same (All-nth (λ x. key c ≤ key x) bs j b all_ eb)
  nth_monotone (c ∷ bs) (suc i) zero a b s h ea eb = absurd (omega (arith, h))
  nth_monotone (c ∷ bs) (suc i) (suc j) a b (all_, s) h ea eb =
      nth_monotone bs i j a b s (omega (arith, h)) ea eb

  pub nth-some : (bs : List A) (i : ℕ) → i < length bs → (b : A) × (nth bs i ≡ some b)
  unfolding nth
  nth-some [] i h = absurd (omega (arith, h))
  nth-some (b ∷ bs) zero h = (b, refl)
  nth-some (b ∷ bs) (suc i) h = nth-some bs i (omega (arith, h))

  -- The last element stands at the last index.
  pub last?-nth : (b : A) (bs : List A) → last? (b ∷ bs) ≡ nth (b ∷ bs) (length bs)
  unfolding last? nth
  last?-nth b [] = refl
  last?-nth b (c ∷ bs) = last?-nth c bs

  pub All-from_nth :
      (P : A → Type 0) (bs : List A) → ((i : ℕ) (b : A) → nth bs i ≡ some b → P b) → All P bs
  unfolding nth
  All-from_nth P [] h = tt
  All-from_nth P (b ∷ bs) h = (h 0 b refl, All-from_nth P bs (λ i c e. h (suc i) c e))
