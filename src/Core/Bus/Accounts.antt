-- ===== src/Core/Bus/Accounts.antt =====
-- What a subscriber of the bus of crates/core/src/bus.rs sees of the sequence of events.
use servr.Common.{
  ℕ, zero, suc, ◌+◌, ◌%◌, ◌≤◌, ◌<◌, ◌≡◌, refl, sym, ap, subst, ◌∙◌, ◌==◌, ltb, if◌then◌else◌,
  Option, none, some, List, [], ◌∷◌, ◌++◌, ◌⊎◌, inl, inr, length, append-nil, get_elem?, All,
  u64_mod, arith,
}
use servr.Core.Chrono.{Chrono}
use servr.Core.Event.{Event, gap}
use servr.Core.Bus.{
  Broadcast, Recv, received, lagged, pending, closed, Bus, stamp, send_stamped, gap_event, Polled,
  item, waiting, finished, poll, subscribe, new, Keeps,
}

module _ (chrono : Chrono) (broadcast : Broadcast (Event chrono))
    (sent : broadcast.Channel → List (Event chrono)) (place : broadcast.Receiver → ℕ)
    (keeps : Keeps chrono broadcast sent place) where
  open chrono use {DateTime}
  open broadcast use {Channel, Receiver, recv}

  abbrev E : Type 0
  E = Event chrono

  -- The two steps of emissions by any tasks, the second for one of the events that have their number
  -- and are not sent yet, and polls of one subscriber at a virtual time.
  pub data Call : Type 0 where
    stamps : E → Call
    sends : ℕ → Call
    polls : DateTime → Call

  -- The bus, the events not sent yet, the subscriber, and what its stream has yielded, oldest first.
  pub record Session : Type 0 where
    pub bus : Bus chrono broadcast
    pub flying : List E
    pub rx : Receiver
    pub seen : List E

  abbrev pub yielded : Polled chrono broadcast → List E
  yielded (item e) = e ∷ []
  yielded waiting = []
  yielded finished = []

  abbrev pub drop_at : ℕ → List E → List E
  drop_at i [] = []
  drop_at zero (e ∷ es) = es
  drop_at (suc i) (e ∷ es) = e ∷ drop_at i es

  abbrev pub sends_one : Session → ℕ → Option E → Session
  sends_one s i none = s
  sends_one s i (some e) = record s {
    bus = send_stamped chrono broadcast s.bus e;
    flying = drop_at i s.flying;
  }

  unfoldable pub call : Session → Call → Session
  unfolding stamp send_stamped
  call s (stamps e) =
      let (b, stamped) = stamp chrono broadcast s.bus e in
      record s { bus = b; flying = s.flying ++ stamped ∷ [] }
  call s (sends i) = sends_one s i (get_elem? s.flying i)
  call s (polls now) =
      let (b, rx, p) = poll chrono broadcast s.bus s.rx now in
      record s { bus = b; rx = rx; seen = s.seen ++ yielded p }

  unfoldable pub run_calls : Session → List Call → Session
  run_calls s [] = s
  run_calls s (c ∷ cs) = run_calls (call s c) cs

  -- The stream from place `p` of all that was sent to place `q`: an event is the one that stands at
  -- the next place, and a gap skips as many places as it says.
  abbrev pub next_place : ℕ → E → ℕ
  next_place p e = elim e.kind [ gap n ↦ p + n | _ ↦ suc p ]

  abbrev pub StandsAt : List E → ℕ → E → Type 0
  StandsAt all p e = elim e.kind [ gap n ↦ Unit | _ ↦ get_elem? all p ≡ some e ]

  abbrev pub Accounts : List E → ℕ → List E → ℕ → Type 0
  Accounts all p [] q = p ≡ q
  Accounts all p (e ∷ es) q = StandsAt all p e × Accounts all (next_place p e) es q

  -- How many events have the number.
  abbrev pub count : ℕ → List E → ℕ
  count k [] = 0
  count k (e ∷ es) = if e.id == k then suc (count k es) else count k es

  -- No one but a lagging subscriber makes a gap.
  abbrev pub IsPlain : E → Type 0
  IsPlain e = elim e.kind [ gap n ↦ ⊥ | _ ↦ Unit ]

  abbrev AllPlain : List E → Type 0
  AllPlain es = (i : ℕ) (e : E) → get_elem? es i ≡ some e → IsPlain e

  get_elem?_keeps :
      (es : List E) (x e : E) (i : ℕ)
      → get_elem? es i ≡ some e
      → get_elem? (es ++ x ∷ []) i ≡ some e
  get_elem?_keeps [] x e i h = cc
  get_elem?_keeps (y ∷ es) x e zero h = h
  get_elem?_keeps (y ∷ es) x e (suc i) h = get_elem?_keeps es x e i h

  get_elem?_append :
      (es : List E) (x e : E) (i : ℕ)
      → get_elem? (es ++ x ∷ []) i ≡ some e
      → (get_elem? es i ≡ some e) ⊎ (x ≡ e)
  get_elem?_append [] x e zero h = inr (ground arith)
  get_elem?_append [] x e (suc i) h = cc
  get_elem?_append (y ∷ es) x e zero h = inl h
  get_elem?_append (y ∷ es) x e (suc i) h = get_elem?_append es x e i h

  append-AllPlain : (es : List E) (x : E) → AllPlain es → IsPlain x → AllPlain (es ++ x ∷ [])
  append-AllPlain es x p n i e h = elim (get_elem?_append es x e i h) [
    | inl old ↦ p i e old
    | inr same ↦ subst IsPlain same n
  ]

  get_elem?-drop_at :
      (es : List E) (i j : ℕ) (e : E)
      → get_elem? (drop_at i es) j ≡ some e
      → (k : ℕ) × (get_elem? es k ≡ some e)
  get_elem?-drop_at [] i j e h = cc
  get_elem?-drop_at (x ∷ es) zero j e h = (suc j, h)
  get_elem?-drop_at (x ∷ es) (suc i) zero e h = (zero, h)
  get_elem?-drop_at (x ∷ es) (suc i) (suc j) e h =
      let (k, found) = get_elem?-drop_at es i j e h in (suc k, found)

  count-append : (k : ℕ) (es fs : List E) → count k (es ++ fs) ≡ count k es + count k fs
  count-append k [] fs = omega arith
  count-append k (e ∷ es) fs = ground (arith, count-append k es fs)

  count-drop_at :
      (k i : ℕ) (es : List E) (e : E)
      → get_elem? es i ≡ some e
      → count k (drop_at i es) + count k (e ∷ []) ≡ count k es
  count-drop_at k i [] e h = cc
  count-drop_at k zero (x ∷ es) e h =
      let same : x ≡ e = ground arith in
      subst (λ y. count k es + count k (y ∷ []) ≡ count k (x ∷ es)) same (ground arith)
  count-drop_at k (suc i) (x ∷ es) e h = ground (arith, count-drop_at k i es e h)

  StandsAt-append :
      (all : List E) (x : E) (p : ℕ) (e : E) → StandsAt all p e → StandsAt (all ++ x ∷ []) p e
  StandsAt-append all x p e h = ground (arith, get_elem?_keeps all x e p)

  Accounts-append :
      (all : List E) (x : E) (p : ℕ) (es : List E) (q : ℕ)
      → Accounts all p es q
      → Accounts (all ++ x ∷ []) p es q
  Accounts-append all x p [] q a = a
  Accounts-append all x p (e ∷ es) q (h, a) =
      (StandsAt-append all x p e h, Accounts-append all x (next_place p e) es q a)

  append-Accounts :
      (all : List E) (p : ℕ) (es : List E) (e : E) (q : ℕ)
      → Accounts all p es q
      → StandsAt all q e
      → Accounts all p (es ++ e ∷ []) (next_place q e)
  append-Accounts all p [] e q a n =
      (subst (λ x. StandsAt all x e) (sym a) n, ap (λ x. next_place x e) a)
  append-Accounts all p (x ∷ es) e q (h, a) n = (h, append-Accounts all (next_place p x) es e q a n)

  -- A session that is in order: `start` is where the subscriber came in.
  pub record InOrder (start : ℕ) (s : Session) : Type 0 where
    pub plain : AllPlain (sent s.bus.tx)
    pub flying_plain : AllPlain s.flying
    pub numbered :
        (k : ℕ) → count k (sent s.bus.tx) + count k s.flying ≡ (if ltb k s.bus.seq then 1 else 0)
    pub accounted : Accounts (sent s.bus.tx) start s.seen (place s.rx)

  stamps-InOrder :
      (start : ℕ) (s : Session) (e : E)
      → InOrder start s
      → IsPlain e
      → s.bus.seq + 1 < u64_mod
      → InOrder start (call s (stamps e))
  unfolding call stamp
  stamps-InOrder start s e o n small =
      let next : (s.bus.seq + 1) % u64_mod ≡ s.bus.seq + 1 = omega arith in
      record {
        plain = o.plain;
        flying_plain = append-AllPlain s.flying (record e { id = s.bus.seq }) o.flying_plain n;
        numbered = λ k.
            rw (next, count-append k s.flying (record e { id = s.bus.seq } ∷ []))
              (ground (arith, o.numbered k));
        accounted = o.accounted;
      }

  sends-InOrder :
      (start : ℕ) (s : Session) (i : ℕ) (got : Option E)
      → get_elem? s.flying i ≡ got
      → InOrder start s
      → InOrder start (sends_one s i got)
  unfolding send_stamped
  sends-InOrder start s i none g o = o
  sends-InOrder start s i (some e) g o =
      let adds = keeps.send_adds s.bus.tx e in
      record {
        plain = rw adds (append-AllPlain (sent s.bus.tx) e o.plain (o.flying_plain i e g));
        flying_plain = λ j x h.
            let (k, found) = get_elem?-drop_at s.flying i j x h in o.flying_plain k x found;
        numbered = λ k.
            rw (adds, count-append k (sent s.bus.tx) (e ∷ []))
              (omega (arith, o.numbered k, count-drop_at k i s.flying e g));
        accounted =
            rw adds (Accounts-append (sent s.bus.tx) e start s.seen (place s.rx) o.accounted);
      }

  plain_stands :
      (all : List E) (p : ℕ) (e : E)
      → IsPlain e
      → get_elem? all p ≡ some e
      → StandsAt all p e × (next_place p e ≡ suc p)
  plain_stands all p e n h = ground arith

  polls-InOrder :
      (start : ℕ) (s : Session) (now : DateTime) (got : Recv E)
      → (recv s.bus.tx s.rx).1 ≡ got
      → InOrder start s
      → InOrder start (call s (polls now))
  unfolding call poll gap_event
  polls-InOrder start s now (received e) g o =
      let (here, moved) = keeps.receives s.bus.tx s.rx e g in
      let (is, after) =
        plain_stands (sent s.bus.tx) (place s.rx) e (o.plain (place s.rx) e here) here in
      rw (call, poll, g)
        (record {
          plain = o.plain;
          flying_plain = o.flying_plain;
          numbered = o.numbered;
          accounted =
              rw (moved ∙ sym after)
                (append-Accounts (sent s.bus.tx) start s.seen e (place s.rx) o.accounted is);
        })
  polls-InOrder start s now (lagged n) g o =
      rw (call, poll, g)
        (record {
          plain = o.plain;
          flying_plain = o.flying_plain;
          numbered = o.numbered;
          accounted = rw (keeps.lags s.bus.tx s.rx n g) (
              append-Accounts (sent s.bus.tx) start s.seen
                (gap_event chrono broadcast s.bus.run now s.bus.seq n) (place s.rx) o.accounted tt);
        })
  polls-InOrder start s now pending g o =
      rw (call, poll, g)
        (record {
          plain = o.plain;
          flying_plain = o.flying_plain;
          numbered = o.numbered;
          accounted = rw (keeps.waits s.bus.tx s.rx g, append-nil s.seen) o.accounted;
        })
  polls-InOrder start s now closed g o =
      rw (call, poll, g)
        (record {
          plain = o.plain;
          flying_plain = o.flying_plain;
          numbered = o.numbered;
          accounted = rw (keeps.ends s.bus.tx s.rx g, append-nil s.seen) o.accounted;
        })

  -- Nobody emits a gap of its own.
  abbrev pub PlainCall : Call → Type 0
  PlainCall (stamps e) = IsPlain e
  PlainCall (sends i) = Unit
  PlainCall (polls now) = Unit

  call-seq : (s : Session) (c : Call) → s.bus.seq + 1 < u64_mod → (call s c).bus.seq ≤ s.bus.seq + 1
  unfolding call stamp send_stamped poll
  call-seq s (stamps e) small =
      let next : (s.bus.seq + 1) % u64_mod ≡ s.bus.seq + 1 = omega arith in omega (arith, next)
  call-seq s (sends i) small = sent_one (get_elem? s.flying i)
    where
      sent_one : (got : Option E) → (sends_one s i got).bus.seq ≤ s.bus.seq + 1
      sent_one none = omega arith
      sent_one (some e) = omega arith
  call-seq s (polls now) small = polled (recv s.bus.tx s.rx).1 refl
    where
      polled :
          (got : Recv E)
          → (recv s.bus.tx s.rx).1 ≡ got
          → (call s (polls now)).bus.seq ≤ s.bus.seq + 1
      polled (received e) g = rw (call, poll, g) (omega arith)
      polled (lagged n) g = rw (call, poll, g) (omega arith)
      polled pending g = rw (call, poll, g) (omega arith)
      polled closed g = rw (call, poll, g) (omega arith)

  call-InOrder :
      (start : ℕ) (s : Session) (c : Call)
      → InOrder start s
      → PlainCall c
      → s.bus.seq + 1 < u64_mod
      → InOrder start (call s c)
  unfolding call
  call-InOrder start s (stamps e) o n small = stamps-InOrder start s e o n small
  call-InOrder start s (sends i) o n small = sends-InOrder start s i (get_elem? s.flying i) refl o
  call-InOrder start s (polls now) o n small =
      polls-InOrder start s now (recv s.bus.tx s.rx).1 refl o

  run_calls-InOrder :
      (start : ℕ) (s : Session) (cs : List Call)
      → InOrder start s
      → All PlainCall cs
      → s.bus.seq + length cs < u64_mod
      → InOrder start (run_calls s cs) × ((run_calls s cs).bus.seq ≤ s.bus.seq + length cs)
  unfolding run_calls
  run_calls-InOrder start s [] o n small = (o, omega arith)
  run_calls-InOrder start s (c ∷ cs) o n small =
      let grows = call-seq s c (omega arith) in
      let (last, most) =
        run_calls-InOrder start (call s c) cs (call-InOrder start s c o n.0 (omega arith)) n.1
          (omega (arith, grows)) in
      (last, omega (arith, grows, most))

  -- A subscriber that comes in now.
  unfoldable pub join : Session → Session
  unfolding subscribe
  join s = record s { rx = subscribe chrono broadcast s.bus; seen = [] }

  join-InOrder :
      (start : ℕ) (s : Session) → InOrder start s → InOrder (length (sent s.bus.tx)) (join s)
  unfolding join subscribe
  join-InOrder start s o = record {
    plain = o.plain;
    flying_plain = o.flying_plain;
    numbered = o.numbered;
    accounted = sym (keeps.starts s.bus.tx);
  }

  unfoldable pub boot : Channel → ℕ → Session
  unfolding new subscribe
  boot c run =
      let b = new chrono broadcast c run in
      record { bus = b; flying = []; rx = subscribe chrono broadcast b; seen = [] }

  nothing-AllPlain : AllPlain []
  nothing-AllPlain i e h = cc

  boot-InOrder : (c : Channel) (run : ℕ) → sent c ≡ [] → InOrder 0 (boot c run)
  unfolding boot new subscribe
  boot-InOrder c run e = record {
    plain = rw e nothing-AllPlain;
    flying_plain = nothing-AllPlain;
    numbered = λ k. rw e (ground arith);
    accounted = sym (keeps.starts c ∙ ap length e);
  }

  -- Nothing is lost silently: tasks emit in any interleaving of the two steps of their emissions, and
  -- a subscriber joins a new bus after any of these steps. Over a broadcast channel that keeps its
  -- promises its stream accounts for every event sent from then on up to its place: it yields the
  -- events in the order in which they were sent, and each gap says how many it skips there. Of the
  -- numbers, each one below the bus's next is carried by exactly one event, which was sent or is
  -- still to be sent, and no other number by any. It holds for fewer than 2 ^ 64 steps that emit
  -- no gaps themselves.
  pub stream-Accounts :
      (c : Channel) (run : ℕ) (before after : List Call) (k : ℕ)
      → sent c ≡ []
      → All PlainCall before
      → All PlainCall after
      → length before + length after < u64_mod
      → let joined = join (run_calls (boot c run) before) in
        let s = run_calls joined after in
        Accounts (sent s.bus.tx) (length (sent joined.bus.tx)) s.seen (place s.rx)
        × (count k (sent s.bus.tx) + count k s.flying ≡ (if ltb k s.bus.seq then 1 else 0))
  unfolding boot join
  stream-Accounts c run before after k e n m small =
      let (o, most) =
        run_calls-InOrder 0 (boot c run) before (boot-InOrder c run e) n (omega arith) in
      let s = run_calls (boot c run) before in
      let last =
        (run_calls-InOrder (length (sent s.bus.tx)) (join s) after (join-InOrder 0 s o) m
          (omega (arith, most))).0 in
      (last.accounted, last.numbered k)
