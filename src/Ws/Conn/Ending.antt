-- ===== src/Ws/Conn/Ending.antt =====
-- How a connection of crates/ws/src/conn.rs ends, and what a kill of its topic comes to for the client.
use servr.Common.{
  ◌&&◌, ◌==◌, ◌≤◌, bytes_beq, bytes_beq_iff, ℕ, ◌≡◌, refl, sym, ap, subst, ◌∙◌, Bool, true, false,
  Option, none, some, List, [], ◌∷◌, ◌++◌, map, Bytes, All, append_assoc, bytes_eq, nat_eq, lookup,
  length, select, leb, if◌then◌else◌, Option-cases, Bool-cases, inl, inr, arith,
}
use servr.Ws.Hub.{
  Mpsc, Member, Members, Hub, Outbound, text, close, join, leave, publish, kill, members_of,
}
use servr.Ws.Hub.Topics.{
  Call, joins, leaves, publishes, kills, call, run_calls, present, after_call, call-present,
}
use servr.Ws.Hub.Fanout.{IsChannel, listens, copies, publish_reaches, kill_reaches}
use servr.Ws.Conn.{
  left, close_code, Inbound, is_over, finish_close, text_frame, close_frame, Round, Pumped,
  on_ready, round, pump, taken, then_sent, after_round, attend, serve,
}

none-ne-some : {A : Type 0} {a : A} → ¬ (◌≡◌ {A = Option A} none (some a))
none-ne-some e = cc

some_inj : {A : Type 0} {a b : A} → some a ≡ some b → a ≡ b
some_inj e = cc

-- The wait ends within the timeout, whatever the peer sends and however often.
finish_close_bounded : (arrivals : List (ℕ × Inbound)) → (finish_close arrivals).0 ≤ 2000
unfolding finish_close
finish_close_bounded [] = ground arith
finish_close_bounded ((at, inbound) ∷ later) =
    let rest = finish_close_bounded later in
    elim (Bool-cases (leb 2000 at)) [
      | inl e ↦ rw (finish_close, e) (ground arith)
      | inr e ↦ elim (Bool-cases (is_over inbound)) [
        | inl o ↦ rw (finish_close, e, o) (ground arith)
        | inr o ↦ rw (finish_close, e, o) rest
      ]
    ]

module _ (mpsc : Mpsc) where
  leave-present :
      (h : Hub mpsc) (topic : Bytes) (conn : ℕ)
      → present mpsc (leave mpsc h topic conn) topic conn ≡ false
  leave-present h topic conn =
      let here : (bytes_beq topic topic && conn == conn) ≡ true =
        ground (arith, bytes_beq_iff topic topic) in
      unfold call after_call in (call-present mpsc h topic conn (leaves topic conn) ∙ rw here refl)

  attend_lem :
      (h : Hub mpsc) (rx : mpsc.Tx) (topic : Bytes) (conn : ℕ) (rounds : List (Round mpsc))
      (b : Bool)
      → let p = pump mpsc h rx topic conn rounds in
        p.closed_by_server ≡ some b
        → attend mpsc h rx topic conn rounds ≡ record p { hub = leave mpsc p.hub topic conn }
  unfolding attend
  attend_lem h rx topic conn rounds b e =
      ap (left mpsc topic conn (pump mpsc h rx topic conn rounds)) e

  attend-none :
      (h : Hub mpsc) (rx : mpsc.Tx) (topic : Bytes) (conn : ℕ) (rounds : List (Round mpsc))
      → (pump mpsc h rx topic conn rounds).closed_by_server ≡ none
      → (attend mpsc h rx topic conn rounds).closed_by_server ≡ none
  unfolding attend
  attend-none h rx topic conn rounds e = rw (attend, e) refl

  -- However the loop ends, the hub holds the connection no longer.
  pub serve_absent :
      (h : Hub mpsc) (topic : Bytes) (conn : ℕ) (trace : Option (ℕ × ℕ))
      (rounds : List (Round mpsc)) (by_server : Bool)
      → (serve mpsc h topic conn trace rounds).closed_by_server ≡ some by_server
      → present mpsc (serve mpsc h topic conn trace rounds).hub topic conn ≡ false
  unfolding serve
  serve_absent h topic conn trace rounds by_server e =
      let (joined, rx) = join mpsc h topic conn trace in
      let p = pump mpsc joined rx topic conn rounds in
      elim (Option-cases p.closed_by_server) [
        | inl n ↦
            let never = attend-none joined rx topic conn rounds n in
            absurd (none-ne-some (sym never ∙ e))
        | inr (b, f) ↦
            rw (attend_lem joined rx topic conn rounds b f) (leave-present p.hub topic conn)
      ]

  module _ (open_at : mpsc.C → mpsc.Tx → Bool) (inbox : mpsc.C → mpsc.Tx → List Outbound)
      (same : mpsc.Tx → mpsc.Tx → Bool) (channel : IsChannel mpsc open_at inbox same) where
    -- The messages that wait in a channel begin with these.
    abbrev Front : Hub mpsc → mpsc.Tx → List Outbound → Type 0
    Front h u first = (rest : List Outbound) × (inbox h.channels u ≡ first ++ rest)

    Front-append :
        (h h' : Hub mpsc) (u : mpsc.Tx) (first more : List Outbound)
        → inbox h'.channels u ≡ inbox h.channels u ++ more
        → Front h u first
        → Front h' u first
    Front-append h h' u first more e (rest, f) =
        (rest ++ more, e ∙ ap (λ os. os ++ more) f ∙ append_assoc first rest more)

    join-channels :
        (h : Hub mpsc) (topic : Bytes) (conn : ℕ) (trace : Option (ℕ × ℕ)) (u : mpsc.Tx)
        → inbox (join mpsc h topic conn trace).0.channels u ≡ inbox h.channels u
    unfolding join
    join-channels h topic conn trace u = channel.opens h.channels u

    leave-channels :
        (h : Hub mpsc) (topic : Bytes) (conn : ℕ) → (leave mpsc h topic conn).channels ≡ h.channels
    unfolding leave
    leave-channels h topic conn = elim (Option-cases (lookup topic h.topics)) [
      | inl e ↦ rw (leave, e) refl
      | inr (ms, e) ↦ rw (leave, e) refl
    ]

    -- No call takes or reorders what waits in a channel.
    call-Front :
        (h : Hub mpsc) (c : Call mpsc) (u : mpsc.Tx) (first : List Outbound)
        → Front h u first
        → Front (call mpsc h c) u first
    unfolding call
    call-Front h (joins topic conn trace) u first f =
        (f.0, join-channels h topic conn trace u ∙ f.1)
    call-Front h (leaves topic conn) u first f =
        (f.0, ap (λ c. inbox c u) (leave-channels h topic conn) ∙ f.1)
    call-Front h (publishes topic body from) u first f =
        let reaches = publish_reaches mpsc open_at inbox same channel h topic body from u in
        Front-append h (publish mpsc h topic body from).0 u first _ reaches.2 f
    call-Front h (kills topic reason) u first f =
        let reaches = kill_reaches mpsc open_at inbox same channel h topic reason u in
        Front-append h (kill mpsc h topic reason).0 u first _ reaches.2 f

    run_calls-Front :
        (h : Hub mpsc) (cs : List (Call mpsc)) (u : mpsc.Tx) (first : List Outbound)
        → Front h u first
        → Front (run_calls mpsc h cs) u first
    unfolding run_calls
    run_calls-Front h [] u first f = f
    run_calls-Front h (c ∷ cs) u first f =
        run_calls-Front (call mpsc h c) cs u first (call-Front h c u first f)

    -- A member that listens is sent the message once at least.
    copies-member :
        (o : Outbound) (c : mpsc.C) (conn : ℕ) (m : Member mpsc) (ms : Members mpsc)
        → lookup conn ms ≡ some m
        → open_at c m.tx ≡ true
        → (more : List Outbound) × (copies mpsc open_at inbox same channel o m.tx
              (select (listens mpsc open_at inbox same channel c) ms)
            ≡ o ∷ more)
    copies-member o c conn m [] e h = absurd (none-ne-some e)
    copies-member o c conn m ((i, n) ∷ ms) e h = elim (Bool-cases (i == conn)) [
      | inl g ↦
          let it : n ≡ m = some_inj (rw g at e) in
          let listening : open_at c n.tx ≡ true =
            subst (λ (x : Member mpsc). open_at c x.tx ≡ true) (sym it) h in
          let own : same n.tx m.tx ≡ true =
            subst (λ (x : Member mpsc). same x.tx m.tx ≡ true) (sym it) (channel.itself m.tx) in
          (
            copies mpsc open_at inbox same channel o m.tx
                (select (listens mpsc open_at inbox same channel c) ms),
            rw (listening, own) refl,
          )
      | inr g ↦
          let later : lookup conn ms ≡ some m = rw g at e in
          let (more, rest) = copies-member o c conn m ms later h in
          elim (Bool-cases (open_at c n.tx)) [
            | inl listening ↦ elim (Bool-cases (same n.tx m.tx)) [
              | inl own ↦ (
                copies mpsc open_at inbox same channel o m.tx
                    (select (listens mpsc open_at inbox same channel c) ms),
                rw (listening, own) refl,
              )
              | inr other ↦ (more, rw (listening, other) rest)
            ]
            | inr deaf ↦ (more, rw deaf rest)
          ]
    ]

    -- Right after the kill the close stands behind what waited in the member's channel.
    kill-Front :
        (h : Hub mpsc) (topic reason : Bytes) (conn : ℕ) (m : Member mpsc)
        → lookup conn (members_of mpsc h.topics topic) ≡ some m
        → open_at h.channels m.tx ≡ true
        → Front (kill mpsc h topic reason).0 m.tx (inbox h.channels m.tx ++ close reason ∷ [])
    kill-Front h topic reason conn m here listening =
        let reaches = kill_reaches mpsc open_at inbox same channel h topic reason m.tx in
        let (more, first) =
          copies-member (close reason) h.channels conn m (members_of mpsc h.topics topic) here
            listening in
        (
          more,
          reaches.2
              ∙ ap (λ os. inbox h.channels m.tx ++ os) first
              ∙ sym (append_assoc (inbox h.channels m.tx) (close reason ∷ []) more),
        )

    -- The hub as the loop finds it in a round, and as it leaves it with the first message taken.
    abbrev found : Hub mpsc → Round mpsc → Hub mpsc
    found h r = run_calls mpsc h r.others

    abbrev took : Hub mpsc → mpsc.Tx → Hub mpsc
    took h rx = record h { channels = (mpsc.recv h.channels rx).0 }

    round_first :
        (h : Hub mpsc) (rx : mpsc.Tx) (topic : Bytes) (conn : ℕ) (r : Round mpsc) (o : Outbound)
        (rest : List Outbound)
        → inbox (found h r).channels rx ≡ o ∷ rest
        → round mpsc h rx topic conn r
          ≡ on_ready mpsc (took (found h r) rx) topic conn r.sends r.echo (some (some o)) r.inbound
    unfolding round
    round_first h rx topic conn r o rest e =
        ap (λ out. on_ready mpsc (took (found h r) rx) topic conn r.sends r.echo out r.inbound)
          (channel.receives (found h r).channels rx o rest e).0

    pump_last :
        (h : Hub mpsc) (rx : mpsc.Tx) (topic : Bytes) (conn : ℕ) (r : Round mpsc)
        (rounds : List (Round mpsc)) (b : Bool)
        → (round mpsc h rx topic conn r).closed_by_server ≡ some b
        → pump mpsc h rx topic conn (r ∷ rounds) ≡ round mpsc h rx topic conn r
    unfolding pump
    pump_last h rx topic conn r rounds b e =
        let p = round mpsc h rx topic conn r in
        ap (after_round mpsc p (pump mpsc p.hub rx topic conn rounds)) e

    pump_on :
        (h : Hub mpsc) (rx : mpsc.Tx) (topic : Bytes) (conn : ℕ) (r : Round mpsc)
        (rounds : List (Round mpsc))
        → let p = round mpsc h rx topic conn r in
          p.closed_by_server ≡ none
          → pump mpsc h rx topic conn (r ∷ rounds)
            ≡ then_sent mpsc p.sent (pump mpsc p.hub rx topic conn rounds)
    unfolding pump
    pump_on h rx topic conn r rounds e =
        let p = round mpsc h rx topic conn r in
        ap (after_round mpsc p (pump mpsc p.hub rx topic conn rounds)) e

    abbrev pub AllSend : List (Round mpsc) → Type 0
    AllSend rounds = All (λ (r : Round mpsc). r.sends ≡ true) rounds

    -- What the server sends and how it ends, where it closes with the reason after the texts.
    pub record Closes (bodies : List Bytes) (reason : Bytes) (p : Pumped mpsc) : Type 0 where
      pub by_server : p.closed_by_server ≡ some true
      pub frames : p.sent ≡ map text_frame bodies ++ close_frame close_code reason ∷ []
      pub soon : p.waited_ms ≤ 2000

    then_sent-Closes :
        (body : Bytes) (bodies : List Bytes) (reason : Bytes) (p : Pumped mpsc)
        → Closes bodies reason p
        → Closes (body ∷ bodies) reason (then_sent mpsc (text_frame body ∷ []) p)
    then_sent-Closes body bodies reason p c = record {
      by_server = c.by_server;
      frames = ap (λ fs. text_frame body ∷ fs) c.frames;
      soon = c.soon;
    }

    pump-Closes :
        (h : Hub mpsc) (rx : mpsc.Tx) (topic : Bytes) (conn : ℕ) (bodies : List Bytes)
        (reason : Bytes) (r : Round mpsc) (post : List (Round mpsc))
        → Front (found h r) rx (map text bodies ++ close reason ∷ [])
        → AllSend (r ∷ post)
        → length bodies ≤ length post
        → Closes bodies reason (pump mpsc h rx topic conn (r ∷ post))
    unfolding on_ready
    pump-Closes h rx topic conn [] reason r post (rest, f) s enough =
        let step = round_first h rx topic conn r (close reason) rest f in
        let ends = ap (λ (p : Pumped mpsc). p.closed_by_server) step in
        subst (Closes [] reason) (sym (pump_last h rx topic conn r post true ends ∙ step)) (record {
          by_server = refl;
          frames = ap (λ b. taken mpsc b (close_frame close_code reason)) s.0;
          soon = finish_close_bounded r.echo;
        })
    pump-Closes h rx topic conn (body ∷ bodies) reason r [] (rest, f) s enough =
        absurd (omega arith)
    pump-Closes h rx topic conn (body ∷ bodies) reason r (r' ∷ post) (rest, f) s enough =
        let waiting = (map text bodies ++ close reason ∷ []) ++ rest in
        let step = round_first h rx topic conn r (text body) waiting f in
        let goes =
          ap (λ (p : Pumped mpsc). p.closed_by_server) step
          ∙ ap (λ (b : Bool). if b then none else some false) s.0 in
        let next = took (found h r) rx in
        let front =
          run_calls-Front next r'.others rx (map text bodies ++ close reason ∷ [])
            (rest, (channel.receives (found h r).channels rx (text body) waiting f).1) in
        let later = pump-Closes next rx topic conn bodies reason r' post front s.1 (omega arith) in
        let whole =
          pump_on h rx topic conn r (r' ∷ post) goes
          ∙ ap
              (λ (p : Pumped mpsc).
                then_sent mpsc p.sent (pump mpsc p.hub rx topic conn (r' ∷ post)))
              step
          ∙ ap
              (λ b.
                then_sent mpsc (taken mpsc b (text_frame body))
                  (pump mpsc next rx topic conn (r' ∷ post)))
              s.0 in
        subst (Closes (body ∷ bodies) reason) (sym whole)
          (then_sent-Closes body bodies reason (pump mpsc next rx topic conn (r' ∷ post)) later)

    -- A connection that is served, whose member listens, with any texts waiting in its channel. In
    -- a round another task kills its topic, and others go on as they like, then and in the rounds
    -- that follow, of which there are as many as texts waited and in which the sink takes what it
    -- is given. The client is then sent the texts, and after them, as its last frame, a close with
    -- the reason of the kill, whatever it sends meanwhile. The server has closed the connection and
    -- has waited two seconds at most for the echo, and the hub holds the connection no longer. The
    -- channels must keep their promises.
    pub serve-Closes :
        (h : Hub mpsc) (topic : Bytes) (conn : ℕ) (m : Member mpsc) (bodies : List Bytes)
        (reason : Bytes) (others : List (Call mpsc)) (r : Round mpsc) (post : List (Round mpsc))
        → lookup conn (members_of mpsc h.topics topic) ≡ some m
        → open_at h.channels m.tx ≡ true
        → inbox h.channels m.tx ≡ map text bodies
        → r.others ≡ kills topic reason ∷ others
        → AllSend (r ∷ post)
        → length bodies ≤ length post
        → let p = attend mpsc h m.tx topic conn (r ∷ post) in
          Closes bodies reason p × (present mpsc p.hub topic conn ≡ false)
    unfolding run_calls call
    serve-Closes h topic conn m bodies reason others r post here listening waits killed s enough =
        let stands : Front (kill mpsc h topic reason).0 m.tx
            (map text bodies ++ close reason ∷ []) =
          subst (λ os. Front (kill mpsc h topic reason).0 m.tx (os ++ close reason ∷ [])) waits
            (kill-Front h topic reason conn m here listening) in
        let first =
          subst (λ cs. Front (run_calls mpsc h cs) m.tx (map text bodies ++ close reason ∷ []))
            (sym killed)
            (run_calls-Front (kill mpsc h topic reason).0 others m.tx
              (map text bodies ++ close reason ∷ []) stands) in
        let c = pump-Closes h m.tx topic conn bodies reason r post first s enough in
        let p = pump mpsc h m.tx topic conn (r ∷ post) in
        rw (attend_lem h m.tx topic conn (r ∷ post) true c.by_server) (
          record { by_server = c.by_server; frames = c.frames; soon = c.soon },
          leave-present p.hub topic conn,
        )
