-- ===== src/Ws/Hub.antt =====
-- `Hub` of crates/ws/src/hub.rs: topics, their members and the fan-out between them. The channels
-- are a parameter; the locks make each operation atomic, apart from the sends of `publish` and
-- `kill`, which come after the lock is let go. Spans and the stamps of the events (virtual time,
-- run, trace) are left out.
pub mod Topics
pub mod Fanout
pub mod Presence
use servr.Common.{
  ℕ, suc, ◌+◌, Bool, true, false, not, Option, none, some, List, [], ◌∷◌, ◌++◌, map, Bytes, length,
  lookup, insert, remove, bytes_eq, nat_eq, ◌==◌, select, leb, if◌then◌else◌,
}

pub data Outbound : Type 0 where
  text : Bytes → Outbound
  close : Bytes → Outbound

-- Unbounded channels of `tokio::sync::mpsc`: `C` holds all of them, `open_channel` is
-- `unbounded_channel` and gives the sender's end, by whose name the receiver's goes too, and a send
-- fails when the receiver is gone. `recv` gives nothing while it waits, and no message at the end.
pub record Mpsc : Type 1 where
  pub C : Type 0
  pub Tx : Type 0
  pub open_channel : C → C × Tx
  pub send : C → Tx → Outbound → C × Bool  -- whether it is `Ok`
  pub recv : C → Tx → C × Option (Option Outbound)

pub data Dir : Type 0 where
  inward outward : Dir

-- `EventKind::WsFrame`.
pub record WsFrame : Type 0 where
  pub topic : Bytes
  pub conn : ℕ
  pub dir : Dir
  pub bytes : ℕ

module _ (mpsc : Mpsc) where
  open mpsc use {C, Tx, open_channel, send}

  pub record Member : Type 0 where
    pub tx : Tx
    pub conn_trace : Option (ℕ × ℕ)

  abbrev pub Members : Type 0
  Members = List (ℕ × Member)

  pub record Hub : Type 0 where
    pub topics : List (Bytes × Members)
    pub channels : C
    pub frames : List WsFrame

  unfoldable pub new : C → Hub
  new channels = record { topics = []; channels = channels; frames = [] }

  -- `entry(topic).or_default()`
  abbrev pub members_of : List (Bytes × Members) → Bytes → Members
  members_of topics topic = elim (lookup topic topics) [ none ↦ [] | some members ↦ members ]

  unfoldable pub join : Hub → Bytes → ℕ → Option (ℕ × ℕ) → Hub × Tx
  join h topic conn conn_trace =
      let (channels, tx) = open_channel h.channels in
      let member : Member = record { tx = tx; conn_trace = conn_trace } in
      (
        record h {
          topics = insert topic (insert conn member (members_of h.topics topic)) h.topics;
          channels = channels;
        },
        tx,
      )

  abbrev pub is_empty {ℓ} : {A : Type ℓ} → List A → Bool
  is_empty [] = true
  is_empty (x ∷ xs) = false

  unfoldable pub leave : Hub → Bytes → ℕ → Hub
  leave h topic conn = elim (lookup topic h.topics) [
    | none ↦ h
    | some members ↦
        let left = remove conn members in
        let kept = insert topic left h.topics in
        record h { topics = if is_empty left then remove topic kept else kept }
  ]

  -- `frame_span` and the event of `emit`.
  unfoldable pub frame_span : Hub → Bytes → ℕ → Dir → ℕ → Hub
  frame_span h topic conn dir bytes = record h {
    frames = h.frames ++ record { topic = topic; conn = conn; dir = dir; bytes = bytes } ∷ [];
  }

  abbrev pub is_other : Option ℕ → ℕ × Member → Bool
  is_other none (id, m) = true
  is_other (some from) (id, m) = not (id == from)

  -- The sends of `publish`, with how many were taken.
  unfoldable pub deliver_all : Hub → Bytes → Bytes → Members → Hub × ℕ
  unfolding frame_span
  deliver_all h topic body [] = (h, 0)
  deliver_all h topic body ((conn, m) ∷ targets) =
      let (channels, took) = send h.channels m.tx (text body) in
      let sent = record h { channels = channels } in
      let spanned = frame_span sent topic conn outward (length body) in
      let (after, delivered) = deliver_all (if took then spanned else sent) topic body targets in
      (after, if took then suc delivered else delivered)

  unfoldable pub publish : Hub → Bytes → Bytes → Option ℕ → Hub × ℕ
  unfolding deliver_all
  publish h topic body from = elim (lookup topic h.topics) [
    | none ↦ (h, 0)
    | some members ↦ deliver_all h topic body (select (is_other from) members)
  ]

  unfoldable pub close_all : C → Bytes → Members → C × ℕ
  close_all channels reason [] = (channels, 0)
  close_all channels reason ((conn, m) ∷ members) =
      let (next, took) = send channels m.tx (close reason) in
      let (after, closed) = close_all next reason members in
      (after, if took then suc closed else closed)

  unfoldable pub kill : Hub → Bytes → Bytes → Hub × ℕ
  unfolding close_all
  kill h topic reason = elim (lookup topic h.topics) [
    | none ↦ (h, 0)
    | some members ↦
        let (channels, closed) = close_all h.channels reason members in
        (record h { topics = remove topic h.topics; channels = channels }, closed)
  ]

  -- `sort_by_key(|c| c.0)`: each id goes in front of the first that is not less.
  unfoldable pub insert_sorted : ℕ → List ℕ → List ℕ
  insert_sorted conn [] = conn ∷ []
  insert_sorted conn (c ∷ conns) =
      if leb conn c then conn ∷ c ∷ conns else c ∷ insert_sorted conn conns

  unfoldable pub sorted_conns : Members → List ℕ
  unfolding insert_sorted
  sorted_conns [] = []
  sorted_conns ((conn, m) ∷ members) = insert_sorted conn (sorted_conns members)

  -- The order of the topics in the `BTreeMap` is left out.
  unfoldable pub presence : Hub → List (Bytes × List ℕ)
  unfolding sorted_conns
  presence h = map (λ (topic, members). (topic, sorted_conns members)) h.topics

  unfoldable pub count_members : List (Bytes × Members) → ℕ
  count_members [] = 0
  count_members ((topic, members) ∷ topics) = length members + count_members topics

  unfoldable pub connections : Hub → ℕ
  connections h = count_members h.topics
