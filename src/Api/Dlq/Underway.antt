-- ===== src/Api/Dlq/Underway.antt =====
-- A dead delivery that is replayed is under way again: pending, on its stream, and with no old retry.
use web_hooks.Base.{ℕ, ◌≡◌, refl, inl, inr, none, some, List, [], ◌∷◌, ◌++◌, Elem}
use web_hooks.Db.{Delivery}
use web_hooks.Services.{Services, World}
use web_hooks.RetryQueue.{Uuid, Text, StreamEntry, enqueue_delivery, encode_member}
use package.web_hooks.Api.{Reply, answered, refused, revived}

pub Elem-append_left : {A : Type 0} (x : A) (l r : List A) → Elem x l → Elem x (l ++ r)
Elem-append_left x [] r h = absurd h
Elem-append_left x (y ∷ l) r (inl e) = inl e
Elem-append_left x (y ∷ l) r (inr h) = inr (Elem-append_left x l r h)

pub Elem-append_last : {A : Type 0} (x : A) (l : List A) → Elem x (l ++ x ∷ [])
Elem-append_last x [] = inl refl
Elem-append_last x (y ∷ l) = inr (Elem-append_last x l)

module _ (V : Services) (stream_shards : ℕ) (d : Delivery) where
  open V.text_sets use {zscore, zrem, zscore-zrem_self, zscore-zrem_ne}

  abbrev pub entry_of_delivery : Delivery → StreamEntry
  entry_of_delivery q = enqueue_delivery V.texts stream_shards q.id q.event_id q.endpoint_id

  abbrev pub member_of_delivery : Delivery → Text
  member_of_delivery q = encode_member V.texts stream_shards q.id q.event_id q.endpoint_id

  -- The delivery is pending with no attempts, its entry is on the stream, and no retry is scheduled.
  abbrev pub UnderWay : World V → Type 0
  UnderWay w =
      (V.deliveries_table.find d.id w.deliveries ≡ some (revived d))
      × Elem (entry_of_delivery d) w.streamed
      × (zscore (member_of_delivery d) w.retries ≡ none)

  abbrev Seen : Type 1
  Seen = V.deliveries_table.Rows → V.text_sets.ZSet → List StreamEntry → Type 0

  abbrev pub Replayed : Reply (List Uuid) → World V → Type 0
  Replayed (refused n) w = ⊥
  Replayed (answered ids) w = Elem d.id ids × UnderWay w
