-- ===== src/Db/Concrete.antt =====
-- An implementation of tables by lists, which shows that the laws can hold together. The rows stand
-- in the order of their writes, the last first; an older version of a row is hidden by a newer.
use web_hooks.Base.{
  ℕ, ◌≡◌, ◌≢◌, refl, Bool, true, Option, none, some, List, [], ◌∷◌, ◌==◌, if◌then◌else◌, All, Elem,
  arith, inl, inr, Bool-cases, ap,
}
use package.web_hooks.Db.{Table}

module _ {Row : Type 0} (key : Row → ℕ) where
  unfoldable pub find : ℕ → List Row → Option Row
  find k [] = none
  find k (r ∷ t) = if key r == k then some r else find k t

  unfoldable pub without : ℕ → List Row → List Row
  without k [] = []
  without k (r ∷ t) = if key r == k then without k t else r ∷ without k t

  unfoldable pub select : (Row → Bool) → List Row → List Row
  select p [] = []
  select p (r ∷ t) = let rest = without (key r) (select p t) in if p r then r ∷ rest else rest

  pub find_key : (k : ℕ) (r : Row) (t : List Row) → find k t ≡ some r → key r ≡ k
  unfolding find
  find_key k r [] h = absurd (cc)
  find_key k r (q ∷ t) h = ground (arith, find_key k r t)

  Sound : (Row → Bool) → List Row → Row → Type 0
  Sound p t r = (p r ≡ true) × (find (key r) t ≡ some r)

  All-without :
      (P Q : Row → Type 0) (k : ℕ) (l : List Row)
      → ((r : Row) → key r ≢ k → P r → Q r)
      → All P l
      → All Q (without k l)
  unfolding without
  All-without P Q k [] f h = tt
  All-without P Q k (r ∷ l) f h = elim (Bool-cases (key r == k)) [
    | inl e ↦ rw e (All-without P Q k l f h.1)
    | inr e ↦ rw e (f r (ground arith) h.0, All-without P Q k l f h.1)
  ]

  pub select_sound :
      (p : Row → Bool) (t : List Row)
      → All (λ r. (p r ≡ true) × (find (key r) t ≡ some r)) (select p t)
  unfolding select Sound find
  select_sound p [] = tt
  select_sound p (r ∷ t) =
      let rest =
        All-without (Sound p t) (Sound p (r ∷ t)) (key r) (select p t)
          (λ q e s. (s.0, ground (arith, s.1))) (select_sound p t) in
      elim (Bool-cases (p r)) [ inl e ↦ rw e ((e, ground arith), rest) | inr e ↦ rw e rest ]

  Elem-without : (k : ℕ) (r : Row) (l : List Row) → key r ≢ k → Elem r l → Elem r (without k l)
  unfolding without
  Elem-without k r [] e h = h
  Elem-without k r (q ∷ l) e (inl same) = ground (arith, same, ap key same)
  Elem-without k r (q ∷ l) e (inr h) = ground (arith, Elem-without k r l e h)

  pub select_complete :
      (p : Row → Bool) (k : ℕ) (r : Row) (t : List Row)
      → find k t ≡ some r
      → p r ≡ true
      → Elem r (select p t)
  unfolding select find
  select_complete p k r [] h e = absurd (cc)
  select_complete p k r (q ∷ t) h e = elim (Bool-cases (key q == k)) [
    | inl here ↦ ground (arith, here)
    | inr there ↦
        let found : find k t ≡ some r = ground (arith, there) in
        let kept =
          Elem-without (key q) r (select p t) (ground (arith, find_key k r t found))
            (select_complete p k r t found e) in
        ground (arith, kept)
  ]

  pub find-save :
      (k : ℕ) (r : Row) (t : List Row) → find k (r ∷ t) ≡ (if key r == k then some r else find k t)
  unfolding find
  find-save k r t = refl

  pub find-no_rows : (k : ℕ) → find k [] ≡ none
  unfolding find
  find-no_rows k = refl

  -- The implementation with its laws.
  abbrev pub lists : Table Row key
  lists = record {
    Rows = List Row;
    no_rows = [];
    find = find;
    select = select;
    save = ◌∷◌;
    find-no_rows = find-no_rows;
    find-save = find-save;
    find_key = find_key;
    select_sound = select_sound;
    select_complete = select_complete;
  }
