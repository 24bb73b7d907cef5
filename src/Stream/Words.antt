-- ===== src/Stream/Words.antt =====
-- What `tokenize` of crates/stream/src/chunks.rs keeps of a text, and what it does not.
use servr.Common.{
  ℕ, suc, ◌≡◌, inl, inr, refl, ap, true, false, List, [], ◌∷◌, ◌++◌, Text, is_whitespace, Lacks,
  All, select, Bool-cases, append-nil,
}
use servr.Stream.Chunks.{split_space, add_front, is_word, words, tokens_from, tokenize}

-- The deltas joined.
abbrev pub concat : List Text → Text
concat [] = []
concat (t ∷ ts) = t ++ concat ts

-- A word: not empty, with no white space.
abbrev pub IsWord : Text → Type 0
IsWord w = (is_word w ≡ true) × Lacks is_whitespace w

split_space_word : (w : Text) → Lacks is_whitespace w → split_space w ≡ w ∷ []
unfolding split_space
split_space_word [] h = refl
split_space_word (c ∷ w) h = rw (h.0, split_space_word w h.1) refl

split_space-append :
    (w rest : Text) → Lacks is_whitespace w → split_space (w ++ 32 ∷ rest) ≡ w ∷ split_space rest
unfolding split_space
split_space-append [] rest h = refl
split_space-append (c ∷ w) rest h = rw (h.0, split_space-append w rest h.1) refl

-- Words, each after the first with a space before it, are split again into the same words.
words-concat :
    (i : ℕ) (w : Text) (ws : List Text)
    → IsWord w
    → All IsWord ws
    → words (w ++ concat (tokens_from (suc i) ws)) ≡ w ∷ ws
unfolding words tokens_from
words-concat i w [] h hs = rw (append-nil w, split_space_word w h.1, h.0) refl
words-concat i w (v ∷ vs) h hs =
    rw (split_space-append w (v ++ concat (tokens_from (suc (suc i)) vs)) h.1, h.0)
      (ap (λ (ts : List Text). w ∷ ts) (words-concat (suc i) v vs hs.0 hs.1))

add_front-Lacks :
    (c : ℕ)
    → is_whitespace c ≡ false
    → (ts : List Text) → All (Lacks is_whitespace) ts
    → All (Lacks is_whitespace) (add_front c ts)
add_front-Lacks c e [] h = ((e, tt), tt)
add_front-Lacks c e (t ∷ ts) h = ((e, h.0), h.1)

-- The first piece is free of white space, and so are the others.
split_space-Lacks : (text : Text) → All (Lacks is_whitespace) (split_space text)
unfolding split_space
split_space-Lacks [] = (tt, tt)
split_space-Lacks (c ∷ cs) = elim (Bool-cases (is_whitespace c)) [
  | inl e ↦ rw e (tt, split_space-Lacks cs)
  | inr e ↦ rw e (add_front-Lacks c e (split_space cs) (split_space-Lacks cs))
]

select-IsWord : (ts : List Text) → All (Lacks is_whitespace) ts → All IsWord (select is_word ts)
select-IsWord [] h = tt
select-IsWord ([] ∷ ts) h = select-IsWord ts h.1
select-IsWord ((c ∷ t) ∷ ts) h = ((refl, h.0), select-IsWord ts h.1)

words-IsWord : (text : Text) → All IsWord (words text)
unfolding words
words-IsWord text = select-IsWord (split_space text) (split_space-Lacks text)

words_empty : words [] ≡ []
unfolding words split_space
words_empty = refl

words_space : (c : ℕ) (text : Text) → is_whitespace c ≡ true → words (c ∷ text) ≡ words text
unfolding words split_space
words_space c text h = rw h refl

words-tokens : (ws : List Text) → All IsWord ws → words (concat (tokens_from 0 ws)) ≡ ws
unfolding tokens_from
words-tokens [] h = words_empty
words-tokens (w ∷ ws) h = words-concat 0 w ws h.0 h.1

pub words_of_tokens : (text : Text) → words (concat (tokenize text)) ≡ words text
unfolding tokenize
words_of_tokens text = words-tokens (words text) (words-IsWord text)

-- The deltas of a text joined have the words of the text, in order, and are tokenized into the same
-- deltas again. White space `c` at the beginning of a text is lost: no delta has it.
pub tokenize-concat :
    (c : ℕ) (text : Text)
    → is_whitespace c ≡ true
    → (words (concat (tokenize text)) ≡ words text)
      × (tokenize (concat (tokenize text)) ≡ tokenize text)
      × (tokenize (c ∷ text) ≡ tokenize text)
unfolding tokenize
tokenize-concat c text space =
    let same = words_of_tokens text in
    (same, ap (tokens_from 0) same, ap (tokens_from 0) (words_space c text space))
