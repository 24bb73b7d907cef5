-- ===== src/Ws/Hub/Topics.antt =====
-- Who the hub of crates/ws/src/hub.rs holds on which topic, after any operations.
use servr.Common.{
  ℕ, ◌≡◌, refl, sym, ap, subst, ◌∙◌, Bool, true, false, ◌&&◌, Option, none, some, List, [], ◌∷◌,
  Bytes, lookup, insert, remove, bytes_eq, nat_eq, ◌==◌, bytes_beq, bytes_beq_iff, lookup-insert,
  lookup-remove, select, length, Bool-cases, Option-cases, inl, inr, if◌then◌else◌, arith,
}
use servr.Ws.Hub.{
  Mpsc, Member, Members, Hub, text, outward, is_other, members_of, join, leave, is_empty, publish,
  deliver_all, kill, frame_span,
}

module _ (mpsc : Mpsc) where
  open mpsc use {C}

  pub data Call : Type 0 where
    joins : Bytes → ℕ → Option (ℕ × ℕ) → Call
    leaves : Bytes → ℕ → Call
    publishes : Bytes → Bytes → Option ℕ → Call
    kills : Bytes → Bytes → Call

  unfoldable pub call : Hub mpsc → Call → Hub mpsc
  call h (joins topic conn t) = (join mpsc h topic conn t).0
  call h (leaves topic conn) = leave mpsc h topic conn
  call h (publishes topic body from) = (publish mpsc h topic body from).0
  call h (kills topic reason) = (kill mpsc h topic reason).0

  unfoldable pub run_calls : Hub mpsc → List Call → Hub mpsc
  run_calls h [] = h
  run_calls h (c ∷ cs) = run_calls (call h c) cs

  -- Whether a connection is on a topic, read off the hub.
  abbrev pub present : Hub mpsc → Bytes → ℕ → Bool
  present h topic conn = elim (lookup conn (members_of mpsc h.topics topic)) [
    | none ↦ false
    | some m ↦ true
  ]

  -- Whether it should be, from the calls alone, newest last: the abstract view of presence.
  unfoldable pub after_call : Bool → Bytes → ℕ → Call → Bool
  after_call was topic conn (joins t c _) = if bytes_beq t topic && c == conn then true else was
  after_call was topic conn (leaves t c) = if bytes_beq t topic && c == conn then false else was
  after_call was topic conn (publishes t b from) = was
  after_call was topic conn (kills t reason) = if bytes_beq t topic then false else was

  unfoldable pub after_calls : Bool → Bytes → ℕ → List Call → Bool
  after_calls was topic conn [] = was
  after_calls was topic conn (c ∷ cs) = after_calls (after_call was topic conn c) topic conn cs

  deliver_all_topics :
      (h : Hub mpsc) (topic body : Bytes) (targets : Members mpsc)
      → (deliver_all mpsc h topic body targets).0.topics ≡ h.topics
  unfolding deliver_all frame_span
  deliver_all_topics h topic body [] = refl
  deliver_all_topics h topic body ((conn, m) ∷ targets) =
      let (channels, took) = mpsc.send h.channels m.tx (text body) in
      let sent = record h { channels = channels } in
      elim (Bool-cases took) [
        | inl e ↦
            rw (deliver_all, e)
              (deliver_all_topics (frame_span mpsc sent topic conn outward (length body)) topic body
                targets)
        | inr e ↦ rw (deliver_all, e) (deliver_all_topics sent topic body targets)
      ]

  publish_topics :
      (h : Hub mpsc) (topic body : Bytes) (from : Option ℕ)
      → (publish mpsc h topic body from).0.topics ≡ h.topics
  unfolding publish
  publish_topics h topic body from = elim (Option-cases (lookup topic h.topics)) [
    | inl e ↦ rw (publish, e) refl
    | inr (ms, e) ↦
        rw (publish, e) (deliver_all_topics h topic body (select (is_other mpsc from) ms))
  ]

  pub call-present :
      (h : Hub mpsc) (topic : Bytes) (conn : ℕ) (c : Call)
      → present (call h c) topic conn ≡ after_call (present h topic conn) topic conn c
  unfolding call after_call join leave kill
  call-present h topic conn (joins t c s) =
      let ms = members_of mpsc h.topics t in
      let m : Member mpsc = record { tx = (mpsc.open_channel h.channels).1; conn_trace = s } in
      ground (
        arith,
        bytes_beq_iff t topic,
        lookup-insert t topic (insert c m ms) h.topics,
        lookup-insert c conn m ms,
      )
  call-present h topic conn (leaves t c) = elim (Option-cases (lookup t h.topics)) [
    | inl e ↦ ground (arith, bytes_beq_iff t topic, e)
    | inr (ms, e) ↦ ground (
      arith,
      e,
      bytes_beq_iff t topic,
      lookup-insert t topic (remove c ms) h.topics,
      lookup-remove t topic (insert t (remove c ms) h.topics),
      lookup-remove c conn ms,
    )
  ]
  call-present h topic conn (publishes t b from) =
      ap
        (λ topics. elim (lookup conn (members_of mpsc topics topic)) [
          | none ↦ false
          | some m ↦ true
        ])
        (publish_topics h t b from)
  call-present h topic conn (kills t reason) =
      ground (arith, bytes_beq_iff t topic, lookup-remove t topic h.topics)

  -- Presence is what the calls say: after any calls a connection is on a topic exactly when the
  -- last call that concerns it there, a join, a leave or a kill of the topic, is its join, or
  -- there is none and it was on the topic before.
  pub run_calls-present :
      (cs : List Call) (h : Hub mpsc) (topic : Bytes) (conn : ℕ)
      → present (run_calls h cs) topic conn ≡ after_calls (present h topic conn) topic conn cs
  unfolding run_calls after_calls
  run_calls-present [] h topic conn = refl
  run_calls-present (c ∷ cs) h topic conn =
      run_calls-present cs (call h c) topic conn
      ∙ ap (λ b. after_calls b topic conn cs) (call-present h topic conn c)

  abbrev Occupied : Option (Members mpsc) → Type 0
  Occupied none = Unit
  Occupied (some ms) = is_empty mpsc ms ≡ false

  -- Every topic has a member.
  abbrev pub NoEmptyTopic : Hub mpsc → Type 0
  NoEmptyTopic h = (t : Bytes) → Occupied (lookup t h.topics)

  insert_occupied :
      (k : ℕ) (m : Member mpsc) (ms : Members mpsc) → is_empty mpsc (insert k m ms) ≡ false
  insert_occupied k m [] = refl
  insert_occupied k m (x ∷ ms) = ground arith

  call-NoEmptyTopic : (h : Hub mpsc) (c : Call) → NoEmptyTopic h → NoEmptyTopic (call h c)
  unfolding call join leave kill
  call-NoEmptyTopic h (joins t c s) n topic =
      let ms = members_of mpsc h.topics t in
      let m : Member mpsc = record { tx = (mpsc.open_channel h.channels).1; conn_trace = s } in
      ground
        (arith, n topic, lookup-insert t topic (insert c m ms) h.topics, insert_occupied c m ms)
  call-NoEmptyTopic h (leaves t c) n topic = elim (Option-cases (lookup t h.topics)) [
    | inl e ↦ ground (arith, e, n topic)
    | inr (ms, e) ↦ ground (
      arith,
      e,
      n topic,
      lookup-insert t topic (remove c ms) h.topics,
      lookup-remove t topic (insert t (remove c ms) h.topics),
    )
  ]
  call-NoEmptyTopic h (publishes t b from) n topic =
      subst (λ topics. Occupied (lookup topic topics)) (sym (publish_topics h t b from)) (n topic)
  call-NoEmptyTopic h (kills t reason) n topic =
      ground (arith, n topic, lookup-remove t topic h.topics)

  -- After any calls no topic is without a member, if none was before: a topic goes with its last
  -- member, or when it is killed.
  pub run_calls-NoEmptyTopic :
      (cs : List Call) (h : Hub mpsc) → NoEmptyTopic h → NoEmptyTopic (run_calls h cs)
  unfolding run_calls
  run_calls-NoEmptyTopic [] h n = n
  run_calls-NoEmptyTopic (c ∷ cs) h n =
      run_calls-NoEmptyTopic cs (call h c) (call-NoEmptyTopic h c n)
