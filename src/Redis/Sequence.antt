-- ===== src/Redis/Sequence.antt =====
-- An implementation of Redis lists, which shows that their laws can hold together.
use web_hooks.Base.{
  ℕ, ◌≡◌, refl, ◌==◌, if◌then◌else◌, List, [], ◌∷◌, ◌++◌, head?, Elem, arith, ap, inl, inr,
  Bool-cases,
}
use package.web_hooks.Redis.{Queues}

-- LREM key 1 a: the first occurrence goes.
unfoldable pub remove : ℕ → List ℕ → List ℕ
remove a [] = []
remove a (x ∷ xs) = if x == a then xs else x ∷ remove a xs

pub remove_head : (a : ℕ) (q rest : List ℕ) → q ≡ a ∷ rest → remove a q ≡ rest
unfolding remove
remove_head a [] rest h = absurd (cc)
remove_head a (x ∷ xs) rest h = ground arith

pub remove_absent : (a : ℕ) (q : List ℕ) → ¬ Elem a q → remove a q ≡ q
unfolding remove
remove_absent a [] h = refl
remove_absent a (x ∷ xs) h = elim (Bool-cases (x == a)) [
  | inl e ↦ absurd (h (inl (ground arith)))
  | inr e ↦ rw e (ap (◌∷◌ x) (remove_absent a xs (λ m. h (inr m))))
]

-- The implementation with its laws.
abbrev pub queues : Queues ℕ
queues = record {
  Queue = List ℕ;
  none_yet = [];
  rpush = λ a q. q ++ a ∷ [];
  lindex0 = head?;
  lrem1 = remove;
  items = λ q. q;
  items-none_yet = refl;
  items-rpush = λ a q. refl;
  lindex0-items = λ q. refl;
  items-lrem1_head = remove_head;
  items-lrem1_absent = remove_absent;
}
