-- ===== src/RetryQueue/Moves.antt =====
-- The scheduler's script moves what is due, each delivery once, and loses nothing.
use web_hooks.Base.{
  ℕ, ◌+◌, ◌≤◌, ◌<◌, ◌≡◌, refl, ◌≢◌, false, none, some, List, [], ◌∷◌, arith, All, Elem, ◌∙◌, inl,
  inr, length, length-append, ◌++◌, append_nil, append_assoc, ap, sym, ℕ_discrete, Option-cases,
  subst,
}
use web_hooks.Redis.{SortedSets}
use web_hooks.RetryQueue.{
  Text, Uuid, Texts, StreamEntry, split, entry_of, encode_member, schedule_retry, Moved,
  move_member, move_members, move_due_to_streams, enqueue_delivery,
}
use web_hooks.RetryQueue.Codec.{entry_of-encode_member}

pub Text-discrete : Discrete Text
Text-discrete = hlevel ℕ_discrete

module _ (S : SortedSets Text) where
  open S use {
    ZSet, zadd, zrem, zcard, zscore, zrangebyscore, zscore-zrem_self, zscore-zrem_ne,
    zcard-zrem_old, zscore-zadd_self, zscore-zadd_ne,
  }

  -- Every member of the queue is the encoding of a delivery.
  pub record Decodes (z : ZSet) : Type 0 where
    pub entry : (t : Text) → zscore t z ≢ none → (e : StreamEntry) × (entry_of (split t) ≡ some e)

  zrem-Decodes : (t : Text) (z : ZSet) → Decodes z → Decodes (zrem t z)
  zrem-Decodes t z w = record { entry = λ u h. w.entry u (still u h) }
    where
      still : (u : Text) → zscore u (zrem t z) ≢ none → zscore u z ≢ none
      still u h = elim (Text-discrete t u) [
        | yes same ↦
            absurd (h (subst (λ v. zscore v (zrem t z) ≡ none) same (zscore-zrem_self t z)))
        | no other ↦ rw (← zscore-zrem_ne t u z other) h
      ]

  -- What a run of the script keeps, from `m` to `n`.
  pub record Conserves (m n : Moved S) : Type 0 where
    pub decodes : Decodes n.retries
    pub ran : n.failed ≡ false
    pub counted : n.moved + length m.added ≡ m.moved + length n.added
    pub kept : zcard n.retries + n.moved ≡ zcard m.retries + m.moved

  move_member-Conserves :
      (m : Moved S) (t : Text)
      → Decodes m.retries
      → m.failed ≡ false
      → Conserves m (move_member S m t)
  unfolding move_member
  move_member-Conserves m t w ok = elim (Option-cases (zscore t m.retries)) [
    | inl e ↦ rw (e, move_member) (record { decodes = w; ran = ok; counted = refl; kept = refl })
    | inr (s, e) ↦
        let (entry, h) = w.entry t (λ p. cc) in
        rw (e, h, move_member)
          (record {
            decodes = zrem-Decodes t m.retries w;
            ran = ok;
            counted = omega (arith, length-append m.added (entry ∷ []));
            kept = omega (arith, zcard-zrem_old t m.retries (λ p. cc));
          })
  ]

  move_members-Conserves :
      (m : Moved S) (ts : List Text)
      → Decodes m.retries
      → m.failed ≡ false
      → Conserves m (move_members S m ts)
  unfolding move_members move_member
  move_members-Conserves m [] w ok = record { decodes = w; ran = ok; counted = refl; kept = refl }
  move_members-Conserves m (t ∷ ts) w ok =
      let one = move_member-Conserves m t w ok in
      let all = move_members-Conserves (move_member S m t) ts one.decodes one.ran in
      rw one.ran (record {
        decodes = all.decodes;
        ran = all.ran;
        counted = omega (arith, one.counted, all.counted);
        kept = omega (arith, one.kept, all.kept);
      })

  move_member-zscore_ne :
      (m : Moved S) (t u : Text) → t ≢ u → zscore u (move_member S m t).retries ≡ zscore u m.retries
  unfolding move_member
  move_member-zscore_ne m t u h = ground (arith, zscore-zrem_ne t u m.retries h)

  move_member-zscore_self : (m : Moved S) (t : Text) → zscore t (move_member S m t).retries ≡ none
  unfolding move_member
  move_member-zscore_self m t = ground (arith, zscore-zrem_self t m.retries)

  gone_stays_gone :
      (m : Moved S) (t u : Text)
      → zscore u m.retries ≡ none
      → zscore u (move_member S m t).retries ≡ none
  gone_stays_gone m t u h = elim (Text-discrete t u) [
    | yes same ↦
        subst (λ v. zscore v (move_member S m t).retries ≡ none) same (move_member-zscore_self m t)
    | no other ↦ move_member-zscore_ne m t u other ∙ h
  ]

  move_members_gone :
      (m : Moved S) (ts : List Text) (u : Text)
      → zscore u m.retries ≡ none
      → zscore u (move_members S m ts).retries ≡ none
  unfolding move_members
  move_members_gone m [] u h = h
  move_members_gone m (t ∷ ts) u h =
      ground (arith, gone_stays_gone m t u h, move_members_gone (move_member S m t) ts u)

  -- The entries are those that the members encode, one for each, in their order.
  abbrev pub Streams : List Text → List StreamEntry → Type 0
  Streams [] [] = Unit {0}
  Streams [] (e ∷ es) = ⊥
  Streams (t ∷ ts) [] = ⊥
  Streams (t ∷ ts) (e ∷ es) = (entry_of (split t) ≡ some e) × Streams ts es

  -- What a run takes from the queue: members with `P`, which are gone afterwards.
  record Takes (P : Text → Type 0) (m n : Moved S) : Type 0 where
    taken : List Text
    entries : List StreamEntry
    appended : n.added ≡ m.added ++ entries
    streams : Streams taken entries
    chosen : All P taken
    gone : All (λ t. zscore t n.retries ≡ none) taken

  one_more :
      (P : Text → Type 0) (m m' n : Moved S) (t : Text) (e : StreamEntry)
      → entry_of (split t) ≡ some e
      → P t
      → zscore t n.retries ≡ none
      → m'.added ≡ m.added ++ e ∷ []
      → Takes P m' n
      → Takes P m n
  one_more P m m' n t e h p g a k = record {
    taken = t ∷ k.taken;
    entries = e ∷ k.entries;
    appended = k.appended ∙ ap (λ x. x ++ k.entries) a ∙ append_assoc m.added (e ∷ []) k.entries;
    streams = (h, k.streams);
    chosen = (p, k.chosen);
    gone = (g, k.gone);
  }

  move_members_next :
      (m : Moved S) (t : Text) (ts : List Text)
      → (move_member S m t).failed ≡ false
      → move_members S m (t ∷ ts) ≡ move_members S (move_member S m t) ts
  unfolding move_members
  move_members_next m t ts h = rw h refl

  move_member_absent : (m : Moved S) (t : Text) → zscore t m.retries ≡ none → move_member S m t ≡ m
  unfolding move_member
  move_member_absent m t e = rw (e, move_member) refl

  move_member-added :
      (m : Moved S) (t : Text) (e : StreamEntry) {due_at : ℕ}
      → zscore t m.retries ≡ some due_at
      → entry_of (split t) ≡ some e
      → (move_member S m t).added ≡ m.added ++ e ∷ []
  unfolding move_member
  move_member-added m t e waits h = rw (waits, h, move_member) refl

  move_members-Takes :
      (P : Text → Type 0) (m : Moved S) (ts : List Text)
      → Decodes m.retries
      → m.failed ≡ false
      → All P ts
      → Takes P m (move_members S m ts)
  unfolding move_members
  move_members-Takes P m [] w ok a = record {
    taken = [];
    entries = [];
    appended = sym (append_nil m.added);
    streams = tt;
    chosen = tt;
    gone = tt;
  }
  move_members-Takes P m (t ∷ ts) w ok a =
      let one = move_member-Conserves m t w ok in
      let rest = move_members-Takes P (move_member S m t) ts one.decodes one.ran a.1 in
      let left = move_members_gone (move_member S m t) ts t (move_member-zscore_self m t) in
      subst (Takes P m) (sym (move_members_next m t ts one.ran))
        (elim (Option-cases (zscore t m.retries)) [
          | inl e ↦
              subst (λ x. Takes P x (move_members S (move_member S m t) ts))
                (move_member_absent m t e) rest
          | inr (s, e) ↦
              let (entry, h) = w.entry t (λ p. cc) in
              one_more P m (move_member S m t) _ t entry h a.0 left
                (move_member-added m t entry e h) rest
        ])

  -- On a queue of encoded deliveries the script does not fail, adds one stream entry for each
  -- delivery that it takes from the queue, and reports their number: what it moved and what still
  -- waits are together what waited before. Every delivery that it takes was due and waits no longer,
  -- and the entries are those that these deliveries' members encode, in their order.
  pub move_due-conserves :
      (limit now : ℕ) (retries : ZSet)
      → Decodes retries
      → ((move_due_to_streams S limit now retries).failed ≡ false)
        × (length (move_due_to_streams S limit now retries).added
            ≡ (move_due_to_streams S limit now retries).moved)
        × (zcard (move_due_to_streams S limit now retries).retries
              + (move_due_to_streams S limit now retries).moved
            ≡ zcard retries)
        × Decodes (move_due_to_streams S limit now retries).retries
        × (taken : List Text) × Streams taken (move_due_to_streams S limit now retries).added
        × All (λ t. (due_at : ℕ) × (zscore t retries ≡ some due_at) × (due_at ≤ now)) taken
        × All (λ t. zscore t (move_due_to_streams S limit now retries).retries ≡ none) taken
  unfolding move_due_to_streams
  move_due-conserves limit now retries w =
      let begin : Moved S = record { retries = retries; added = []; moved = 0; failed = false } in
      let due = zrangebyscore now limit retries in
      let c = move_members-Conserves begin due w refl in
      let k = move_members-Takes _ begin due w refl (S.zrangebyscore_due now limit retries) in
      (
        c.ran,
        omega (arith, c.counted),
        omega (arith, c.kept),
        c.decodes,
        k.taken,
        rw k.appended k.streams,
        k.chosen,
        k.gone,
      )

  move_members_taken :
      (m : Moved S) (ts : List Text) (u : Text)
      → Decodes m.retries
      → m.failed ≡ false
      → Elem u ts
      → zscore u (move_members S m ts).retries ≡ none
  unfolding move_members move_member
  move_members_taken m [] u w ok h = absurd h
  move_members_taken m (t ∷ ts) u w ok (inl e) =
      let one = move_member-Conserves m t w ok in
      let taken =
        subst (λ v. zscore v (move_member S m t).retries ≡ none) e (move_member-zscore_self m t) in
      rw one.ran (move_members_gone (move_member S m t) ts u taken)
  move_members_taken m (t ∷ ts) u w ok (inr r) =
      let one = move_member-Conserves m t w ok in
      rw one.ran (move_members_taken (move_member S m t) ts u one.decodes one.ran r)

  move_members_untouched :
      (m : Moved S) (ts : List Text) (u : Text)
      → ¬ Elem u ts
      → zscore u (move_members S m ts).retries ≡ zscore u m.retries
  unfolding move_members
  move_members_untouched m [] u h = refl
  move_members_untouched m (t ∷ ts) u h = ground (
    arith,
    move_member-zscore_ne m t u (λ e. h (inl e)),
    move_members_untouched (move_member S m t) ts u (λ e. h (inr e)),
  )

  due_only :
      (now s : ℕ) (z : ZSet) (u : Text) (ts : List Text)
      → zscore u z ≡ some s
      → now < s
      → All (λ m. (r : ℕ) × (zscore m z ≡ some r) × (r ≤ now)) ts
      → ¬ Elem u ts
  due_only now s z u [] e h a f = f
  due_only now s z u (t ∷ ts) e h a (inl same) =
      let score = subst (λ v. zscore v z ≡ some a.0.0) same a.0.1 in ground (arith, score, a.0.2)
  due_only now s z u (t ∷ ts) e h a (inr f) = due_only now s z u ts e h a.1 f

  abbrev begin : ZSet → Moved S
  begin retries = record { retries = retries; added = []; moved = 0; failed = false }

  -- A delivery that is not due at `now` waits on with its time unchanged.
  pub move_due_waits :
      (limit now : ℕ) (retries : ZSet) (member : Text) {due_at : ℕ}
      → zscore member retries ≡ some due_at
      → now < due_at
      → zscore member (move_due_to_streams S limit now retries).retries ≡ some due_at
  unfolding move_due_to_streams
  move_due_waits limit now retries member {due_at} e h =
      move_members_untouched (begin retries) _ member
        (due_only now due_at retries member _ e h (S.zrangebyscore_due now limit retries))
      ∙ e

  -- On a queue of encoded deliveries, if one round finds fewer than `limit` that are due, then every
  -- delivery that is due leaves the queue.
  pub move_due_leaves :
      (limit now : ℕ) (retries : ZSet) (member : Text) {due_at : ℕ}
      → Decodes retries
      → zscore member retries ≡ some due_at
      → due_at ≤ now
      → length (zrangebyscore now limit retries) < limit
      → zscore member (move_due_to_streams S limit now retries).retries ≡ none
  unfolding move_due_to_streams
  move_due_leaves limit now retries member {due_at} w e h short =
      move_members_taken (begin retries) _ member w refl
        (S.zrangebyscore_all now limit member retries e h short)

-- A queue that only `schedule_retry` and `remove_from_retry_queue` have written to is a queue of
-- encoded deliveries.
module _ (T : Texts) (S : SortedSets Text) where
  open S use {ZSet, zscore, zscore-zadd_ne}

  pub schedule_retry-Decodes :
      (shards : ℕ) (d e p : Uuid) (delay now : ℕ) (z : ZSet)
      → Decodes S z
      → Decodes S (schedule_retry T S shards d e p delay now z).0
  unfolding schedule_retry
  schedule_retry-Decodes shards d e p delay now z w = record { entry = added }
    where
      member : Text
      member = encode_member T shards d e p

      added :
          (t : Text)
          → zscore t (S.zadd (now + delay) member z) ≢ none
          → (x : StreamEntry) × (entry_of (split t) ≡ some x)
      added t h = elim (Text-discrete member t) [
        | yes same ↦ (
          enqueue_delivery T shards d e p,
          subst (λ u. entry_of (split u) ≡ some (enqueue_delivery T shards d e p)) same
              (entry_of-encode_member T shards d e p),
        )
        | no other ↦ w.entry t (rw (← zscore-zadd_ne (now + delay) member t z other) h)
      ]
