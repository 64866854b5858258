-- ===== src/Ordering/Fifo.antt =====
-- The queue of an ordered endpoint: what is enqueued is served in its order, and a delivery that
-- has not settled stays in front.
use mathlib.Core.List.{append-nil, append_assoc}
use web_hooks.Base.{ℕ, zero, suc, ◌≡◌, refl, none, some, List, [], ◌∷◌, ◌++◌, length, ap}
use web_hooks.Redis.{Queues}
use web_hooks.Ordering.{enqueue_ordered, peek_head, pop_head}

module _ (Q : Queues ℕ) where
  open Q use {Queue, none_yet, items, items-none_yet, items-rpush, lindex0-items, items-lrem1_head}

  pub enqueue_all : List ℕ → Queue → Queue
  enqueue_all [] q = q
  enqueue_all (d ∷ ds) q = enqueue_all ds (enqueue_ordered Q d q)

  -- `n` rounds of a worker that settles the head, and what it settled.
  pub drain : ℕ → Queue → List ℕ
  drain zero q = []
  drain (suc n) q = elim (peek_head Q q) [ none ↦ [] | some d ↦ d ∷ drain n (pop_head Q d q) ]

  items-enqueue_all : (ds : List ℕ) (q : Queue) → items (enqueue_all ds q) ≡ items q ++ ds
  unfolding enqueue_all enqueue_ordered
  items-enqueue_all [] q = rw append-nil
  items-enqueue_all (d ∷ ds) q = rw (items-enqueue_all ds _, items-rpush d q, append_assoc)

  drain-items : (ds : List ℕ) (q : Queue) → items q ≡ ds → drain (length ds) q ≡ ds
  unfolding drain
  drain-items [] q h = refl
  drain-items (d ∷ ds) q h =
      let head : peek_head Q q ≡ some d = unfold peek_head in rw (lindex0-items q, h) in
      let rest : items (pop_head Q d q) ≡ ds = unfold pop_head in items-lrem1_head d q ds h in
      rw (head, drain) (ap (◌∷◌ d) (drain-items ds (pop_head Q d q) rest))

  -- Deliveries that were pushed one after another onto an endpoint's empty queue are settled in
  -- that order, each once, by workers that settle the head.
  pub drain-enqueue_all : (ds : List ℕ) → drain (length ds) (enqueue_all ds none_yet) ≡ ds
  drain-enqueue_all ds = drain-items ds _ (rw (items-enqueue_all ds none_yet, items-none_yet))
