-- ===== src/Ws/Hub/Fanout.antt =====
-- Whom a publish or a kill of crates/ws/src/hub.rs reaches.
use servr.Common.{
  ℕ, suc, ◌&&◌, true, if◌then◌else◌, ◌≡◌, refl, sym, ap, ◌∙◌, Bool, Option, none, some, List, [],
  ◌∷◌, ◌++◌, map, append_assoc, append-nil, Bytes, length, lookup, bytes_eq, select, lookup-remove,
  remove, bytes_beq_iff, Bool-cases, Option-cases, inl, inr, arith,
}
use servr.Ws.Hub.{
  Mpsc, Member, Members, Hub, WsFrame, Outbound, text, close, outward, is_other, publish,
  deliver_all, kill, close_all, frame_span, members_of,
}

-- What tokio promises of its channels, by the receivers that are there, the messages that wait in a
-- channel, and whether two ends are of one channel: a send is taken exactly when the receiver is
-- there, and then its message waits behind the others; a receiver takes the first.
pub record IsChannel (mpsc : Mpsc) (open_at : mpsc.C → mpsc.Tx → Bool)
    (inbox : mpsc.C → mpsc.Tx → List Outbound) (same : mpsc.Tx → mpsc.Tx → Bool) : Type 0 where
  pub taken : (c : mpsc.C) (tx : mpsc.Tx) (o : Outbound) → (mpsc.send c tx o).1 ≡ open_at c tx
  pub stays :
      (c : mpsc.C) (tx u : mpsc.Tx) (o : Outbound) → open_at (mpsc.send c tx o).0 u ≡ open_at c u
  pub puts :
      (c : mpsc.C) (tx u : mpsc.Tx) (o : Outbound)
      → inbox (mpsc.send c tx o).0 u
        ≡ inbox c u ++ (if open_at c tx && same tx u then o ∷ [] else [])
  pub itself : (tx : mpsc.Tx) → same tx tx ≡ true
  pub opens : (c : mpsc.C) (u : mpsc.Tx) → inbox (mpsc.open_channel c).0 u ≡ inbox c u
  pub receives :
      (c : mpsc.C) (tx : mpsc.Tx) (o : Outbound) (rest : List Outbound)
      → inbox c tx ≡ o ∷ rest
      → ((mpsc.recv c tx).1 ≡ some (some o)) × (inbox (mpsc.recv c tx).0 tx ≡ rest)

module _ (mpsc : Mpsc) (open_at : mpsc.C → mpsc.Tx → Bool)
    (inbox : mpsc.C → mpsc.Tx → List Outbound) (same : mpsc.Tx → mpsc.Tx → Bool)
    (channel : IsChannel mpsc open_at inbox same) where
  open mpsc use {C, Tx, send}
  open channel use {taken, stays, puts, itself}

  abbrev pub listens : C → ℕ × Member mpsc → Bool
  listens c (conn, m) = open_at c m.tx

  abbrev pub frame_to : Bytes → Bytes → ℕ × Member mpsc → WsFrame
  frame_to topic body (conn, m) = record {
    topic = topic;
    conn = conn;
    dir = outward;
    bytes = length body;
  }

  select_stays :
      (c : C) (tx : Tx) (o : Outbound) (ms : Members mpsc)
      → select (listens (send c tx o).0) ms ≡ select (listens c) ms
  select_stays c tx o [] = refl
  select_stays c tx o ((conn, m) ∷ ms) = ground (arith, stays c tx m.tx o, select_stays c tx o ms)

  -- The message once for each of the members whose channel it is.
  abbrev pub copies : Outbound → Tx → Members mpsc → List Outbound
  copies o u members = map (λ _. o) (select (λ (conn, m). same m.tx u) members)

  copies-first :
      (o : Outbound) (c : C) (u : Tx) (conn : ℕ) (m : Member mpsc) (ms : Members mpsc)
      → inbox (send c m.tx o).0 u ++ copies o u (select (listens c) ms)
        ≡ inbox c u ++ copies o u (select (listens c) ((conn, m) ∷ ms))
  copies-first o c u conn m ms = elim (Bool-cases (open_at c m.tx)) [
    | inl e ↦ elim (Bool-cases (same m.tx u)) [
      | inl f ↦
          rw (puts c m.tx u o, e, f)
            (append_assoc (inbox c u) (o ∷ []) (copies o u (select (listens c) ms)))
      | inr f ↦
          rw (puts c m.tx u o, e, f)
            (append_assoc (inbox c u) [] (copies o u (select (listens c) ms)))
    ]
    | inr e ↦
        rw (puts c m.tx u o, e) (append_assoc (inbox c u) [] (copies o u (select (listens c) ms)))
  ]

  deliver_all_puts :
      (h : Hub mpsc) (topic body : Bytes) (targets : Members mpsc) (u : Tx)
      → inbox (deliver_all mpsc h topic body targets).0.channels u
        ≡ inbox h.channels u ++ copies (text body) u (select (listens h.channels) targets)
  unfolding deliver_all frame_span
  deliver_all_puts h topic body [] u = sym (append-nil (inbox h.channels u))
  deliver_all_puts h topic body ((conn, m) ∷ targets) u =
      let (channels, took) = send h.channels m.tx (text body) in
      let sent = record h { channels = channels } in
      let spanned = frame_span mpsc sent topic conn outward (length body) in
      let others = select_stays h.channels m.tx (text body) targets in
      let later =
        ap (λ ms. inbox channels u ++ copies (text body) u ms) others
        ∙ copies-first (text body) h.channels u conn m targets in
      elim (Bool-cases took) [
        | inl e ↦ rw (deliver_all, e) (deliver_all_puts spanned topic body targets u ∙ later)
        | inr e ↦ rw (deliver_all, e) (deliver_all_puts sent topic body targets u ∙ later)
      ]

  deliver_all_reaches :
      (h : Hub mpsc) (topic body : Bytes) (targets : Members mpsc)
      → let reached = select (listens h.channels) targets in
        let (h', delivered) = deliver_all mpsc h topic body targets in
        (delivered ≡ length reached) × (h'.frames ≡ h.frames ++ map (frame_to topic body) reached)
  unfolding deliver_all frame_span
  deliver_all_reaches h topic body [] = (refl, sym (append-nil h.frames))
  deliver_all_reaches h topic body ((conn, m) ∷ targets) =
      let (channels, took) = send h.channels m.tx (text body) in
      let sent = record h { channels = channels } in
      let spanned = frame_span mpsc sent topic conn outward (length body) in
      let same = select_stays h.channels m.tx (text body) targets in
      let was = taken h.channels m.tx (text body) in
      elim (Bool-cases took) [
        | inl e ↦
            let (n, f) = deliver_all_reaches spanned topic body targets in
            rw (deliver_all, e, sym was ∙ e)
              (
                ap suc (n ∙ ap length same),
                f
                    ∙ append_assoc h.frames _ _
                    ∙ ap
                        (λ ms.
                          h.frames ++ frame_to topic body (conn, m) ∷ map (frame_to topic body) ms)
                        same,
              )
        | inr e ↦
            let (n, f) = deliver_all_reaches sent topic body targets in
            rw (deliver_all, e, sym was ∙ e)
              (n ∙ ap length same, f ∙ ap (λ ms. h.frames ++ map (frame_to topic body) ms) same)
      ]

  nobody :
      (h : Hub mpsc) (topic : Bytes)
      → lookup topic h.topics ≡ none
      → members_of mpsc h.topics topic ≡ []
  nobody h topic e = rw (members_of, e) refl

  somebody :
      (h : Hub mpsc) (topic : Bytes) (ms : Members mpsc)
      → lookup topic h.topics ≡ some ms
      → members_of mpsc h.topics topic ≡ ms
  somebody h topic ms e = rw (members_of, e) refl

  removed :
      (topics : List (Bytes × Members mpsc)) (topic : Bytes)
      → members_of mpsc (remove topic topics) topic ≡ []
  removed topics topic = ground (arith, lookup-remove topic topic topics, bytes_beq_iff topic topic)

  -- Over channels that keep their promises, a publish reaches exactly the members of the topic that
  -- still listen, without the sender: behind the messages that wait in a channel `u` stands the
  -- text, once for each of these members whose channel it is, so that nobody else is sent
  -- anything. One outward frame is emitted for each of them, and the count returned is theirs.
  pub publish_reaches :
      (h : Hub mpsc) (topic body : Bytes) (from : Option ℕ) (u : Tx)
      → let reached =
          select
            (listens h.channels)
            (select (is_other mpsc from) (members_of mpsc h.topics topic)) in
        let (h', delivered) = publish mpsc h topic body from in
        (delivered ≡ length reached)
        × (h'.frames ≡ h.frames ++ map (frame_to topic body) reached)
        × (inbox h'.channels u ≡ inbox h.channels u ++ copies (text body) u reached)
  unfolding publish
  publish_reaches h topic body from u = elim (Option-cases (lookup topic h.topics)) [
    | inl e ↦
        rw (publish, e, nobody h topic e)
          (refl, sym (append-nil h.frames), sym (append-nil (inbox h.channels u)))
    | inr (ms, e) ↦
        let targets = select (is_other mpsc from) ms in
        let (n, f) = deliver_all_reaches h topic body targets in
        rw (publish, e, somebody h topic ms e) (n, f, deliver_all_puts h topic body targets u)
  ]

  close_all_puts :
      (c : C) (reason : Bytes) (ms : Members mpsc) (u : Tx)
      → inbox (close_all mpsc c reason ms).0 u
        ≡ inbox c u ++ copies (close reason) u (select (listens c) ms)
  unfolding close_all
  close_all_puts c reason [] u = sym (append-nil (inbox c u))
  close_all_puts c reason ((conn, m) ∷ ms) u =
      let next = (send c m.tx (close reason)).0 in
      close_all_puts next reason ms u
      ∙ ap (λ xs. inbox next u ++ copies (close reason) u xs)
          (select_stays c m.tx (close reason) ms)
      ∙ copies-first (close reason) c u conn m ms

  close_all_reaches :
      (c : C) (reason : Bytes) (ms : Members mpsc)
      → (close_all mpsc c reason ms).1 ≡ length (select (listens c) ms)
  unfolding close_all
  close_all_reaches c reason [] = refl
  close_all_reaches c reason ((conn, m) ∷ ms) = ground (
    arith,
    close_all_reaches (send c m.tx (close reason)).0 reason ms,
    select_stays c m.tx (close reason) ms,
    taken c m.tx (close reason),
  )

  -- Over channels that keep their promises, a kill returns the number of the topic's members that
  -- still listen, puts a close with the reason behind what waits in the channel of each of them, and
  -- leaves nobody on the topic.
  pub kill_reaches :
      (h : Hub mpsc) (topic reason : Bytes) (u : Tx)
      → let reached = select (listens h.channels) (members_of mpsc h.topics topic) in
        let (h', closed) = kill mpsc h topic reason in
        (closed ≡ length reached)
        × (members_of mpsc h'.topics topic ≡ [])
        × (inbox h'.channels u ≡ inbox h.channels u ++ copies (close reason) u reached)
  unfolding kill
  kill_reaches h topic reason u = elim (Option-cases (lookup topic h.topics)) [
    | inl e ↦ rw (kill, e, nobody h topic e) (refl, refl, sym (append-nil (inbox h.channels u)))
    | inr (ms, e) ↦
        rw (kill, e, somebody h topic ms e)
          (
            close_all_reaches h.channels reason ms,
            removed h.topics topic,
            close_all_puts h.channels reason ms u,
          )
  ]
