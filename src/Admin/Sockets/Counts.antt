-- ===== src/Admin/Sockets/Counts.antt =====
-- The numbers that the WebSocket routes of crates/admin/src/lib.rs answer with.
use servr.Common.{ℕ, suc, ◌+◌, ◌≡◌, refl, ap, ◌∙◌, List, [], ◌∷◌, Bytes, length, map, arith}
use servr.Ws.Hub.{
  Mpsc, Members, Hub, insert_sorted, sorted_conns, presence, connections, count_members,
}
use servr.Admin.Sockets.{ws_presence}

abbrev pub total : List (Bytes × List ℕ) → ℕ
total [] = 0
total ((topic, conns) ∷ topics) = length conns + total topics

module _ (mpsc : Mpsc) where
  length-insert_sorted :
      (conn : ℕ) (ks : List ℕ) → length (insert_sorted mpsc conn ks) ≡ suc (length ks)
  unfolding insert_sorted
  length-insert_sorted conn [] = refl
  length-insert_sorted conn (c ∷ ks) = ground (arith, length-insert_sorted conn ks)

  length-sorted_conns : (ms : Members mpsc) → length (sorted_conns mpsc ms) ≡ length ms
  unfolding sorted_conns
  length-sorted_conns [] = refl
  length-sorted_conns ((conn, m) ∷ ms) =
      length-insert_sorted conn (sorted_conns mpsc ms) ∙ ap suc (length-sorted_conns ms)

  count_lem :
      (topics : List (Bytes × Members mpsc))
      → count_members mpsc topics
        ≡ total (map (λ (topic, members). (topic, sorted_conns mpsc members)) topics)
  unfolding count_members
  count_lem [] = refl
  count_lem ((topic, members) ∷ topics) =
      omega (arith, length-sorted_conns members, count_lem topics)

  -- The number of connections in the answer is that of all those listed under its topics.
  pub connections-presence :
      (h : Hub mpsc) → (ws_presence mpsc h).connections ≡ total (ws_presence mpsc h).topics
  unfolding ws_presence connections presence
  connections-presence h = count_lem h.topics
