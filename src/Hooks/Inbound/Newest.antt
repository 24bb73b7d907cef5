-- ===== src/Hooks/Inbound/Newest.antt =====
-- What the inbox of crates/hooks/src/inbound.rs keeps: the newest captures since the last clear.
use servr.Common.{
  ℕ, zero, suc, ◌+◌, ◌-◌, ◌≤◌, ◌≡◌, refl, sym, ap, ◌∙◌, Option, none, some, List, [], ◌∷◌, ◌++◌,
  Bytes, length, length-append, drop, lookup, insert, remove, bytes_eq, bytes_beq, bytes_beq_iff,
  lookup-insert, lookup-remove, ltb, Bool-cases, inl, inr, if◌then◌else◌, arith,
}
use servr.Core.Chrono.{Chrono}
use servr.Core.State.{unwrap_or}
use servr.Hooks.Inbound.{
  Reader, Capture, Inbox, new, capacity, captures, trim, record_request, capture, clear, parse_body,
  header_map,
}

-- The last `n` elements.
abbrev pub newest {ℓ} : {A : Type ℓ} → ℕ → List A → List A
newest n xs = drop (length xs - n) xs

module _ {A : Type 0} where
  drop-append : (k : ℕ) (xs ys : List A) → k ≤ length xs → drop k (xs ++ ys) ≡ drop k xs ++ ys
  drop-append zero xs ys h = refl
  drop-append (suc k) [] ys h = absurd (omega arith)
  drop-append (suc k) (x ∷ xs) ys h = drop-append k xs ys (omega arith)

  drop_one : (k : ℕ) (xs : List A) → drop 1 (drop k xs) ≡ drop (suc k) xs
  drop_one zero xs = refl
  drop_one (suc k) [] = refl
  drop_one (suc k) (x ∷ xs) = drop_one k xs

  length-drop : (k : ℕ) (xs : List A) → k ≤ length xs → length (drop k xs) + k ≡ length xs
  length-drop zero xs h = omega arith
  length-drop (suc k) [] h = absurd (omega arith)
  length-drop (suc k) (x ∷ xs) h = omega (arith, length-drop k xs (omega arith))

  -- Trimming after every element is as good as trimming once.
  newest-newest :
      (n : ℕ) (xs : List A) (x : A)
      → newest (suc n) (newest (suc n) xs ++ x ∷ []) ≡ newest (suc n) (xs ++ x ∷ [])
  newest-newest n xs x = elim (Bool-cases (ltb (length xs) (suc n))) [
    | inl few ↦ let none_dropped : length xs - suc n ≡ 0 = ground arith in rw none_dropped refl
    | inr many ↦
        let k = length xs - suc n in
        let kept = length-drop k xs (omega arith) in
        let one_more : length (drop k xs ++ x ∷ []) - suc n ≡ 1 =
          ground (arith, kept, length-append (drop k xs) (x ∷ [])) in
        let next : length (xs ++ x ∷ []) - suc n ≡ suc k =
          ground (arith, length-append xs (x ∷ [])) in
        rw (one_more, next)
          (ap (drop 1) (sym (drop-append k xs (x ∷ []) (omega arith))) ∙ drop_one k (xs ++ x ∷ []))
  ]

module _ (chrono : Chrono) (reader : Reader) where
  open chrono use {DateTime}

  pub data Call : Type 0 where
    posts : Bytes → List (Bytes × Option Bytes) → Bytes → DateTime → Call
    clears : Option Bytes → Call

  unfoldable pub call : Inbox chrono reader → Call → Inbox chrono reader
  call inbox (posts id headers body now) = (capture chrono reader inbox id headers body now).0
  call inbox (clears name) = clear chrono reader inbox name

  unfoldable pub run_calls : Inbox chrono reader → List Call → Inbox chrono reader
  run_calls inbox [] = inbox
  run_calls inbox (c ∷ cs) = run_calls (call inbox c) cs

  -- All requests to an endpoint since its last clear, oldest first, with no bound.
  unfoldable pub history :
      Bytes → List (Capture chrono reader) → List Call → List (Capture chrono reader)
  history endpoint past [] = past
  history endpoint past (posts id headers body now ∷ cs) =
      let c : Capture chrono reader = record {
        at = now;
        headers = header_map headers;
        body = parse_body chrono reader body;
        body_sha256 = reader.sha256 body;
      } in
      history endpoint (if bytes_beq id endpoint then past ++ c ∷ [] else past) cs
  history endpoint past (clears none ∷ cs) = history endpoint [] cs
  history endpoint past (clears (some name) ∷ cs) =
      history endpoint (if bytes_beq name endpoint then [] else past) cs

  trim_lem : (kept : List (Capture chrono reader)) → trim chrono reader kept ≡ newest capacity kept
  unfolding trim
  trim_lem kept = elim (Bool-cases (ltb capacity (length kept))) [
    | inl e ↦ rw (trim, e) refl
    | inr e ↦ let all : length kept - capacity ≡ 0 = ground arith in rw (trim, e, all) refl
  ]

  insert_captures :
      (id endpoint : Bytes) (kept : List (Capture chrono reader))
      (m : List (Bytes × List (Capture chrono reader)))
      → unwrap_or (lookup endpoint (insert id kept m)) []
        ≡ (if bytes_beq id endpoint then kept else unwrap_or (lookup endpoint m) [])
  insert_captures id endpoint kept m = ground (arith, lookup-insert id endpoint kept m)

  remove_captures :
      (id endpoint : Bytes) (m : List (Bytes × List (Capture chrono reader)))
      → unwrap_or (lookup endpoint (remove id m)) []
        ≡ (if bytes_beq id endpoint then [] else unwrap_or (lookup endpoint m) [])
  remove_captures id endpoint m = ground (arith, lookup-remove id endpoint m)

  -- What one call makes of the newest captures of an endpoint.
  call-captures :
      (inbox : Inbox chrono reader) (c : Call) (endpoint : Bytes)
      (past : List (Capture chrono reader))
      → captures chrono reader inbox endpoint ≡ newest capacity past
      → captures chrono reader (call inbox c) endpoint
        ≡ newest capacity (history endpoint past (c ∷ []))
  unfolding call capture record_request clear captures history
  call-captures inbox (posts id headers body now) endpoint past h =
      let c : Capture chrono reader = record {
        at = now;
        headers = header_map headers;
        body = parse_body chrono reader body;
        body_sha256 = reader.sha256 body;
      } in
      let kept = unwrap_or (lookup id inbox.endpoints) [] ++ c ∷ [] in
      elim (Bool-cases (bytes_beq id endpoint)) [
        | inl e ↦
            rw (insert_captures id endpoint (trim chrono reader kept) inbox.endpoints, e, history)
              (trim_lem kept
                ∙ ap (λ i. newest capacity (unwrap_or (lookup i inbox.endpoints) [] ++ c ∷ []))
                    ((bytes_beq_iff id endpoint).0 e)
                ∙ ap (λ xs. newest capacity (xs ++ c ∷ [])) h
                ∙ newest-newest 499 past c)
        | inr e ↦
            rw (insert_captures id endpoint (trim chrono reader kept) inbox.endpoints, e, history) h
      ]
  call-captures inbox (clears none) endpoint past h = refl
  call-captures inbox (clears (some name)) endpoint past h =
      elim (Bool-cases (bytes_beq name endpoint)) [
        | inl e ↦ rw (remove_captures name endpoint inbox.endpoints, e, history) refl
        | inr e ↦ rw (remove_captures name endpoint inbox.endpoints, e, history) h
      ]

  history_step :
      (endpoint : Bytes) (past : List (Capture chrono reader)) (c : Call) (cs : List Call)
      → history endpoint past (c ∷ cs) ≡ history endpoint (history endpoint past (c ∷ [])) cs
  unfolding history
  history_step endpoint past (posts id headers body now) cs = refl
  history_step endpoint past (clears none) cs = refl
  history_step endpoint past (clears (some name)) cs = refl

  run_calls-captures :
      (cs : List Call) (inbox : Inbox chrono reader) (endpoint : Bytes)
      (past : List (Capture chrono reader))
      → captures chrono reader inbox endpoint ≡ newest capacity past
      → captures chrono reader (run_calls inbox cs) endpoint
        ≡ newest capacity (history endpoint past cs)
  unfolding run_calls
  run_calls-captures [] inbox endpoint past h = unfold history in h
  run_calls-captures (c ∷ cs) inbox endpoint past h =
      run_calls-captures cs (call inbox c) endpoint (history endpoint past (c ∷ []))
        (call-captures inbox c endpoint past h)
      ∙ ap (newest capacity) (sym (history_step endpoint past c cs))

  -- After any posts and clears on a new inbox, the captures of an endpoint are the newest
  -- `capacity` of all requests to it since its last clear, oldest first.
  pub captures-newest :
      (cs : List Call) (endpoint : Bytes)
      → captures chrono reader (run_calls (new chrono reader) cs) endpoint
        ≡ newest capacity (history endpoint [] cs)
  unfolding new captures
  captures-newest cs endpoint = run_calls-captures cs (new chrono reader) endpoint [] refl
