-- ===== src/Stream/Chat/Reply.antt =====
-- What a client assembles of a streamed reply of crates/stream/src/chat.rs.
use servr.Common.{
  ◌==◌, ltb, ℕ, zero, suc, ◌+◌, ◌<◌, ◌≡◌, inl, refl, ap, ◌∙◌, sym, arith, true, false, ℤ, Option,
  none, List, [], ◌∷◌, ◌++◌, map, Text, length, append-nil, append_assoc,
}
use servr.Core.Chrono.{Chrono}
use servr.Stream.Chunks.{words, tokenize, Item, chunk, injected, wait_until, due_at, at_end}
use servr.Stream.Words.{concat, words_of_tokens}
use servr.Stream.Pace.{chunks, drain-received, received, limit}
use servr.Stream.Chat.{
  ChatRequest, role, content, nothing, Piece, chunk_piece, done, pieces, piece_at, reply_text,
  model, streamed_reply,
}

-- A client joins the contents of the deltas.
abbrev pub content_of : Piece → Text
content_of done = []
content_of (chunk_piece m c role f) = []
content_of (chunk_piece m c (content t) f) = t
content_of (chunk_piece m c nothing f) = []

abbrev pub assembled : List (Item Piece) → Text
assembled [] = []
assembled (chunk seq p ∷ items) = content_of p ++ assembled items
assembled (injected seq ∷ items) = assembled items

abbrev pub contents : List Piece → Text
contents [] = []
contents (p ∷ ps) = content_of p ++ contents ps

contents-map :
    (m : Text) (c : ℤ) (ts : List Text) (rest : List Piece)
    → contents (map (λ token. chunk_piece m c (content token) none) ts ++ rest)
      ≡ concat ts ++ contents rest
contents-map m c [] rest = refl
contents-map m c (t ∷ ts) rest =
    ap (λ (u : Text). t ++ u) (contents-map m c ts rest)
    ∙ sym (append_assoc t (concat ts) (contents rest))

contents-pieces :
    (m : Text) (c : ℤ) (text : Text) → contents (pieces m c text) ≡ concat (tokenize text)
unfolding pieces
contents-pieces m c text = contents-map m c (tokenize text) _ ∙ append-nil (concat (tokenize text))

-- The pieces from the `seq`-th on.
abbrev gather : (ℕ → Piece) → ℕ → ℕ → List Piece
gather f zero seq = []
gather f (suc n) seq = f seq ∷ gather f n (suc seq)

gather_shift :
    (p : Piece) (ps : List Piece) (n seq : ℕ)
    → gather (piece_at (p ∷ ps)) n (suc seq) ≡ gather (piece_at ps) n seq
gather_shift p ps zero seq = refl
gather_shift p ps (suc n) seq =
    ap (λ (qs : List Piece). piece_at ps seq ∷ qs) (gather_shift p ps n (suc seq))

gather-piece_at : (ps : List Piece) → gather (piece_at ps) (length ps) 0 ≡ ps
gather-piece_at [] = refl
gather-piece_at (p ∷ ps) =
    ap (λ (qs : List Piece). p ∷ qs) (gather_shift p ps (length ps) 0 ∙ gather-piece_at ps)

module _ (chrono : Chrono) where
  assembled-chunks :
      (f : ℕ → Piece) (total : ℕ) (fail_at : Option ℕ) (start : chrono.DateTime)
      (delay_ms n seq : ℕ)
      → assembled (chunks chrono total fail_at start delay_ms f n seq) ≡ contents (gather f n seq)
  assembled-chunks f total fail_at start delay_ms zero seq = refl
  assembled-chunks f total fail_at start delay_ms (suc n) seq =
      ap (λ (u : Text). content_of (f seq) ++ u)
        (assembled-chunks f total fail_at start delay_ms n (suc seq))

  -- A streamed chat completion that is not set to fail, read to its end by a client, with the clock
  -- read late enough for every chunk: the deltas joined are the tokens of the reply joined, and
  -- have the words of the reply in their order, and the stream has ended.
  pub assembled-streamed_reply :
      (r : ChatRequest) (created : ℤ) (start : chrono.DateTime)
      (readings : ℕ → List chrono.DateTime) (fuel : ℕ)
      → r.fail_at ≡ none
      → ((k : ℕ)
          → k < length (pieces (model r) created (reply_text r))
          → wait_until chrono (readings k) (due_at chrono start k r.delay_ms) ≡ true)
      → let got =
          streamed_reply chrono r created start
            (length (pieces (model r) created (reply_text r)) + suc (suc fuel))
            readings in
        let client = assembled got.items in
        (client ≡ concat (tokenize (reply_text r)))
        × (words client ≡ words (reply_text r))
        × (got.stop ≡ at_end)
  unfolding streamed_reply
  assembled-streamed_reply r created start readings fuel never released =
      let ps = pieces (model r) created (reply_text r) in
      let total = length ps in
      let all : limit total r.fail_at ≡ total = rw never refl in
      let run =
        drain-received chrono total r.fail_at start r.delay_ms (piece_at ps) readings total fuel
          (omega arith) released (inl (sym all)) in
      let is_last : (total == limit total r.fail_at) ≡ true = ground arith in
      let complete : ltb (limit total r.fail_at) total ≡ false = ground arith in
      let got : received chrono total r.fail_at start r.delay_ms (piece_at ps) total
          ≡ chunks chrono total r.fail_at start r.delay_ms (piece_at ps) total 0 =
        rw (is_last, complete)
          (append-nil (chunks chrono total r.fail_at start r.delay_ms (piece_at ps) total 0)) in
      let joined =
        ap assembled (run.0 ∙ got)
        ∙ assembled-chunks (piece_at ps) total r.fail_at start r.delay_ms total 0
        ∙ ap contents (gather-piece_at ps)
        ∙ contents-pieces (model r) created (reply_text r) in
      (joined, ap words joined ∙ words_of_tokens (reply_text r), run.1 ∙ rw is_last refl)
