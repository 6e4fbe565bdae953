-- ===== src/Gateway/Client.antt =====
-- src/net/mqtt_sn.rs: a client of the gateway, its topic and message identifiers.
use lumen_mq.Prelude.{
  ℕ, zero, suc, ◌+◌, ◌%◌, Bool, true, false, Option, some, none, [], Str, if◌then◌else◌, leb, eqb,
  nat_key, list_key,
}
use lumen_mq.Prelude.Assoc.{Assoc, lookup, insert, remove}

abbrev pub topic_id_min : ℕ
topic_id_min = 1

abbrev pub topic_id_max : ℕ
topic_id_max = 0xFFFE

-- `peer` is the socket address as a number; an instant is a number of nanoseconds.
pub record SnClient : Type 0 where
  pub client_id : Str
  pub epoch : ℕ
  pub clean : Bool
  pub keep_alive_secs : ℕ
  pub last_seen : ℕ
  pub peer : ℕ
  pub topic_to_id : Assoc Str ℕ
  pub id_to_topic : Assoc ℕ Str
  pub next_msg_id : ℕ
  pub next_topic_id : ℕ
  pub sleeping : Bool
  pub sleep_until : Option ℕ

abbrev pub new_client : ℕ → Str → ℕ → Bool → ℕ → ℕ → SnClient
new_client now client_id epoch clean keep_alive_secs peer = record {
  client_id = client_id;
  epoch = epoch;
  clean = clean;
  keep_alive_secs = keep_alive_secs;
  last_seen = now;
  peer = peer;
  topic_to_id = [];
  id_to_topic = [];
  next_msg_id = 1;
  next_topic_id = topic_id_min;
  sleeping = false;
  sleep_until = none;
}

abbrev pub touch : ℕ → SnClient → SnClient
touch now c = record c { last_seen = now }

abbrev pub following : ℕ → ℕ
following v = if leb topic_id_max v then topic_id_min else v + 1

abbrev pub is_taken : ℕ → SnClient → Bool
is_taken v c = elim (lookup v c.id_to_topic) [ none ↦ false | some _ ↦ true ]

abbrev pub with_topic : ℕ → Str → SnClient → SnClient
with_topic v topic c = record c {
  topic_to_id = insert topic v c.topic_to_id;
  id_to_topic = insert v topic c.id_to_topic;
}

-- The loop of `assign_topic_id`, with the tries that are left.
unfoldable pub assign_from : ℕ → Str → SnClient → ℕ × SnClient
unfolding lookup insert
assign_from zero topic c = (topic_id_min, c)
assign_from (suc tries) topic c =
    let v = c.next_topic_id in
    let moved = record c { next_topic_id = following v } in
    let rest = assign_from tries topic moved in
    if eqb v 0 then rest else if is_taken v c then rest else (v, with_topic v topic moved)

unfoldable pub assign_topic_id : Str → SnClient → ℕ × SnClient
unfolding lookup assign_from
assign_topic_id topic c = elim (lookup topic c.topic_to_id) [
  | some id ↦ (id, c)
  | none ↦ assign_from 65535 topic c
]

abbrev pub topic_name_of : ℕ → SnClient → Option Str
topic_name_of topic_id c = lookup topic_id c.id_to_topic

unfoldable pub allocate_msg_id : SnClient → ℕ × SnClient
allocate_msg_id c =
    let next = (c.next_msg_id + 1) % 65536 in
    (c.next_msg_id, record c { next_msg_id = if eqb next 0 then 1 else next })

abbrev without : Str → Option ℕ → SnClient → SnClient
without topic none c = c
without topic (some id) c = record c {
  topic_to_id = remove topic c.topic_to_id;
  id_to_topic = remove id c.id_to_topic;
}

-- The mapping removed, as an UNSUBSCRIBE does.
unfoldable pub forget_topic : Str → SnClient → SnClient
unfolding lookup remove
forget_topic topic c = without topic (lookup topic c.topic_to_id) c
