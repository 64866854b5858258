-- ===== src/RetryQueue/Codec.antt =====
-- A member of the retry queue decodes to what was encoded: encode_member against the script's
-- string.gmatch.
use mathlib.Core.List.{append-nil, append_assoc}
use web_hooks.Base.{ℕ, ◌≡◌, refl, ◌≢◌, some, List, [], ◌∷◌, ◌++◌, arith, All, ap, sym, ◌∙◌}
use web_hooks.RetryQueue.{
  Text, Uuid, Texts, separator, join, emit, split_from, split, entry_of, shard_for,
  enqueue_delivery, encode_member,
}

abbrev pub IsPlain : Text → Type 0
IsPlain t = (t ≢ []) × All (λ c. c ≢ separator) t

split_from-plain :
    (run t rest : Text)
    → All (λ c. c ≢ separator) t
    → split_from run (t ++ rest) ≡ split_from (run ++ t) rest
unfolding split_from
split_from-plain run [] rest h = rw append-nil
split_from-plain run (c ∷ t) rest h =
    ground (arith, h.0, split_from-plain (run ++ c ∷ []) t rest h.1, append_assoc run (c ∷ []) t)

emit-plain : (t : Text) (parts : List Text) → t ≢ [] → emit t parts ≡ t ∷ parts
emit-plain [] parts h = absurd (h refl)
emit-plain (c ∷ t) parts h = refl

-- The parts that were joined come back, provided that each is non-empty and holds no separator.
pub split-join : (ts : List Text) → All IsPlain ts → split (join ts) ≡ ts
unfolding split join split_from
split-join [] h = refl
split-join (t ∷ []) h =
    ap (split_from []) (sym (append-nil t)) ∙ split_from-plain [] t [] h.0.1 ∙ emit-plain t [] h.0.0
split-join (t ∷ u ∷ ts) h =
    split_from-plain [] t (separator ∷ join (u ∷ ts)) h.0.1
    ∙ emit-plain t (split (join (u ∷ ts))) h.0.0
    ∙ ap (◌∷◌ t) (split-join (u ∷ ts) h.1)

module _ (T : Texts) (stream_shards : ℕ) where
  open T use {uuid_text_plain, number_text_plain}

  -- What the scheduler adds to a stream for a scheduled retry is what `enqueue_delivery` would add:
  -- the same three identifiers, on the stream of the same shard.
  pub entry_of-encode_member :
      (delivery_id event_id endpoint_id : Uuid)
      → entry_of (split (encode_member T stream_shards delivery_id event_id endpoint_id))
        ≡ some (enqueue_delivery T stream_shards delivery_id event_id endpoint_id)
  unfolding encode_member entry_of enqueue_delivery
  entry_of-encode_member d e p =
      let parts =
        split-join
          (T.uuid_text d
            ∷ T.uuid_text e
            ∷ T.uuid_text p
            ∷ T.number_text (shard_for T stream_shards p)
            ∷ [])
          (
            uuid_text_plain d,
            (uuid_text_plain e, (uuid_text_plain p, (number_text_plain _, tt))),
          ) in
      rw parts
