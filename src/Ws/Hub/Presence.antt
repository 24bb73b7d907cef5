-- ===== src/Ws/Hub/Presence.antt =====
-- What `presence` of crates/ws/src/hub.rs shows of a hub, after any operations.
use servr.Common.{
  ℕ, ◌≡◌, refl, ◌∙◌, Bool, true, false, ◌||◌, none, some, List, [], ◌∷◌, Bytes, map, lookup,
  bytes_eq, nat_eq, ◌==◌, leb, any_of, arith,
}
use servr.Ws.Hub.{Mpsc, Members, Hub, insert_sorted, sorted_conns, presence, members_of}
use servr.Ws.Hub.Topics.{Call, run_calls, present, after_calls, run_calls-present}

abbrev mem : ℕ → List ℕ → Bool
mem k ks = any_of (λ i. i == k) ks

-- Each id is at most the next.
abbrev pub IsAscending : List ℕ → Type 0
IsAscending [] = Unit
IsAscending (x ∷ []) = Unit
IsAscending (x ∷ y ∷ ys) = (leb x y ≡ true) × IsAscending (y ∷ ys)

module _ (mpsc : Mpsc) where
  abbrev pub listed : Hub mpsc → Bytes → List ℕ
  listed h topic = elim (lookup topic (presence mpsc h)) [ none ↦ [] | some conns ↦ conns ]

  mem-insert_sorted :
      (conn k : ℕ) (ks : List ℕ) → mem k (insert_sorted mpsc conn ks) ≡ (conn == k || mem k ks)
  unfolding insert_sorted
  mem-insert_sorted conn k [] = ground arith
  mem-insert_sorted conn k (c ∷ ks) = ground (arith, mem-insert_sorted conn k ks)

  insert_sorted-IsAscending :
      (conn : ℕ) (ks : List ℕ) → IsAscending ks → IsAscending (insert_sorted mpsc conn ks)
  unfolding insert_sorted
  insert_sorted-IsAscending conn [] s = tt
  insert_sorted-IsAscending conn (c ∷ []) s = ground arith
  insert_sorted-IsAscending conn (c ∷ d ∷ ks) s =
      ground (arith, insert_sorted-IsAscending conn (d ∷ ks) s.1)

  mem-sorted_conns :
      (k : ℕ) (ms : Members mpsc)
      → mem k (sorted_conns mpsc ms) ≡ elim (lookup k ms) [ none ↦ false | some m ↦ true ]
  unfolding sorted_conns
  mem-sorted_conns k [] = refl
  mem-sorted_conns k ((conn, m) ∷ ms) =
      ground (arith, mem-insert_sorted conn k (sorted_conns mpsc ms), mem-sorted_conns k ms)

  sorted_conns-IsAscending : (ms : Members mpsc) → IsAscending (sorted_conns mpsc ms)
  unfolding sorted_conns
  sorted_conns-IsAscending [] = tt
  sorted_conns-IsAscending ((conn, m) ∷ ms) =
      insert_sorted-IsAscending conn (sorted_conns mpsc ms) (sorted_conns-IsAscending ms)

  lookup-shown :
      (topic : Bytes) (topics : List (Bytes × Members mpsc))
      → elim (lookup topic (map (λ (t, ms). (t, sorted_conns mpsc ms)) topics)) [
        | none ↦ []
        | some conns ↦ conns
      ]
        ≡ sorted_conns mpsc (members_of mpsc topics topic)
  unfolding sorted_conns
  lookup-shown topic [] = refl
  lookup-shown topic ((t, ms) ∷ topics) = ground (arith, lookup-shown topic topics)

  listed_lem :
      (h : Hub mpsc) (topic : Bytes)
      → listed h topic ≡ sorted_conns mpsc (members_of mpsc h.topics topic)
  unfolding presence
  listed_lem h topic = lookup-shown topic h.topics

  -- After any calls `presence` shows, under each topic and in ascending order, exactly the
  -- connections whose last call that concerns them there, a join, a leave or a kill of the topic,
  -- is a join, and those without such a call that were on the topic before.
  pub presence-run_calls :
      (cs : List (Call mpsc)) (h : Hub mpsc) (topic : Bytes)
      → IsAscending (listed (run_calls mpsc h cs) topic)
        × ((conn : ℕ)
            → mem conn (listed (run_calls mpsc h cs) topic)
              ≡ after_calls mpsc (present mpsc h topic conn) topic conn cs)
  presence-run_calls cs h topic =
      let after = run_calls mpsc h cs in
      rw (listed_lem after topic) (
        sorted_conns-IsAscending (members_of mpsc after.topics topic),
        λ conn.
            mem-sorted_conns conn (members_of mpsc after.topics topic)
            ∙ run_calls-present mpsc cs h topic conn,
      )
