-- ===== src/RetryQueue.antt =====
-- relay/delivery/retry_queue.py and the shard functions of relay/delivery/enqueue.py: the sorted set
-- of deliveries that wait for their next attempt. Texts are lists of code points.
pub mod Codec
pub mod Moves
pub mod Unary
mod Tests
use web_hooks.Base.{
  ℕ, ◌+◌, ◌%◌, ◌≡◌, ◌≢◌, Bool, true, false, Option, none, some, List, [], ◌∷◌, ◌++◌, All, ◌==◌,
  if◌then◌else◌,
}
use web_hooks.Redis.{SortedSets}

abbrev pub Text : Type 0
Text = List ℕ

-- A UUID is its 128-bit number.
abbrev pub Uuid : Type 0
Uuid = ℕ

-- What the code uses of `uuid`, `zlib` and `str`: a UUID's text, its checksum, a number's text.
-- Both texts are non-empty and hold no `|`, and the text of a UUID determines it.
pub record Texts : Type 0 where
  pub uuid_text : Uuid → Text
  pub crc32 : Uuid → ℕ
  pub number_text : ℕ → Text
  pub uuid_text_plain : (u : Uuid) → (uuid_text u ≢ []) × All (λ c. c ≢ b'|') (uuid_text u)
  pub number_text_plain : (n : ℕ) → (number_text n ≢ []) × All (λ c. c ≢ b'|') (number_text n)
  pub uuid_text_injective : (u v : Uuid) → uuid_text u ≡ uuid_text v → u ≡ v

-- "relay:deliveries:" as code points.
abbrev pub stream_prefix : Text
stream_prefix =
    b'r' ∷ b'e' ∷ b'l' ∷ b'a' ∷ b'y' ∷ b':' ∷ b'd' ∷ b'e' ∷ b'l' ∷ b'i' ∷ b'v' ∷ b'e' ∷ b'r' ∷ b'i'
    ∷ b'e' ∷ b's' ∷ b':' ∷ []

abbrev pub separator : ℕ
separator = b'|'

-- The fields of a stream entry, and the key of the stream that it is added to.
pub record StreamEntry : Type 0 where
  pub stream : Text
  pub delivery_id : Text
  pub event_id : Text
  pub endpoint_id : Text

-- `"|".join(parts)`
unfoldable pub join : List Text → Text
join [] = []
join (t ∷ []) = t
join (t ∷ u ∷ ts) = t ++ (separator ∷ join (u ∷ ts))

-- A finished run of characters is a part, unless it is empty.
abbrev pub emit : Text → List Text → List Text
emit [] parts = parts
emit (c ∷ cs) parts = (c ∷ cs) ∷ parts

-- `string.gmatch(member, '[^|]+')`: the maximal runs without the separator. `run` is the run so far.
unfoldable pub split_from : Text → Text → List Text
split_from run [] = emit run []
split_from run (c ∷ cs) =
    let ends = emit run (split_from [] cs) in
    let goes_on = split_from (run ++ c ∷ []) cs in if c == separator then ends else goes_on

unfoldable pub split : Text → List Text
unfolding split_from
split member = split_from [] member

-- XADD 'relay:deliveries:' .. parts[4] with parts[1], parts[2] and parts[3]; a member with fewer
-- parts makes the script fail.
unfoldable pub entry_of : List Text → Option StreamEntry
entry_of (d ∷ e ∷ p ∷ s ∷ rest) =
    some (record { stream = stream_prefix ++ s; delivery_id = d; event_id = e; endpoint_id = p })
entry_of _ = none

module _ (T : Texts) where
  open T use {uuid_text, crc32, number_text}

  unfoldable pub shard_for : ℕ → Uuid → ℕ
  shard_for stream_shards endpoint_id = crc32 endpoint_id % stream_shards

  unfoldable pub stream_key : ℕ → Text
  stream_key shard = stream_prefix ++ number_text shard

  -- `enqueue_delivery`: the entry that it adds.
  unfoldable pub enqueue_delivery : ℕ → Uuid → Uuid → Uuid → StreamEntry
  unfolding shard_for stream_key
  enqueue_delivery stream_shards delivery_id event_id endpoint_id = record {
    stream = stream_key (shard_for stream_shards endpoint_id);
    delivery_id = uuid_text delivery_id;
    event_id = uuid_text event_id;
    endpoint_id = uuid_text endpoint_id;
  }

  unfoldable pub encode_member : ℕ → Uuid → Uuid → Uuid → Text
  unfolding shard_for
  encode_member stream_shards delivery_id event_id endpoint_id = join (
      uuid_text delivery_id
      ∷ uuid_text event_id
      ∷ uuid_text endpoint_id
      ∷ number_text (shard_for stream_shards endpoint_id)
      ∷ [])

  module _ (S : SortedSets Text) where
    open S use {ZSet, zadd, zrem, zcard, zscore}

    -- The queue with the member added, and the moment when it becomes due.
    unfoldable pub schedule_retry : ℕ → Uuid → Uuid → Uuid → ℕ → ℕ → ZSet → ZSet × ℕ
    schedule_retry stream_shards delivery_id event_id endpoint_id delay now retries =
        let due_at = now + delay in
        (zadd due_at (encode_member stream_shards delivery_id event_id endpoint_id) retries, due_at)

    unfoldable pub retry_queue_depth : ZSet → ℕ
    retry_queue_depth retries = zcard retries

    unfoldable pub remove_from_retry_queue : ℕ → Uuid → Uuid → Uuid → ZSet → ZSet
    remove_from_retry_queue stream_shards delivery_id event_id endpoint_id retries =
        zrem (encode_member stream_shards delivery_id event_id endpoint_id) retries

module _ (S : SortedSets Text) where
  open S use {ZSet, zrem, zscore, zrangebyscore}

  -- What the script has done so far: the queue, the entries added (oldest first), and `moved`; a
  -- failed script has kept what it did before the failure.
  pub record Moved : Type 0 where
    pub retries : ZSet
    pub added : List StreamEntry
    pub moved : ℕ
    pub failed : Bool

  -- One round of the loop: only a ZREM that removes the member leads to an XADD.
  unfoldable pub move_member : Moved → Text → Moved
  move_member m member = elim (zscore member m.retries) [
    | none ↦ m
    | some _ ↦ elim (entry_of (split member)) [
      | none ↦ record m { retries = zrem member m.retries; failed = true }
      | some entry ↦ record m {
        retries = zrem member m.retries;
        added = m.added ++ entry ∷ [];
        moved = m.moved + 1;
      }
    ]
  ]

  unfoldable pub move_members : Moved → List Text → Moved
  move_members m [] = m
  move_members m (t ∷ ts) =
      let m' = move_member m t in let rest = move_members m' ts in if m'.failed then m' else rest

  -- MOVE_DUE_LUA, which move_due_to_streams runs.
  unfoldable pub move_due_to_streams : ℕ → ℕ → ZSet → Moved
  unfolding move_members move_member entry_of
  move_due_to_streams limit now retries =
      move_members (record { retries = retries; added = []; moved = 0; failed = false })
        (zrangebyscore now limit retries)
