-- ===== src/Connections/Quota/Notes.antt =====
-- connection-quota.service.ts: the history of a sender's notes and the check for one that is sent again
-- and again (recordNoteAndCheckDuplicate). `lower` is the language's toLowerCase. An entry is kept as
-- its time and its words: they are printed as one text, of digits, a bar, and words of a-z and 0-9 with
-- spaces between, and read back. The list expires a day after the last note, when no entry counts.
use convene.Common.{
  ℕ, zero, suc, ◌+◌, ◌*◌, Bool, true, false, ◌&&◌, ◌||◌, Option, none, some, List, [], ◌∷◌, ◌++◌,
  map, leb, ltb, any, count, length, select, if◌then◌else◌,
}
use convene.Infra.Redis.Memory.{text_eq}
use convene.TrustSafety.{is_space}

abbrev pub identical_note_limit : ℕ
identical_note_limit = 3

abbrev pub identical_note_window_ms : ℕ
identical_note_window_ms = 24 * 60 * 60 * 1000

abbrev pub note_history_cap : ℕ
note_history_cap = 20

pub record HistoryEntry : Type 0 where
  pub words : List (List ℕ)
  pub ts : ℕ

abbrev pub take {ℓ} : {A : Type ℓ} → ℕ → List A → List A
take zero xs = []
take (suc n) [] = []
take (suc n) (x ∷ xs) = x ∷ take n xs

-- `[^a-z0-9\s]` becomes a space.
abbrev is_kept : ℕ → Bool
is_kept c = (leb 97 c && leb c 122) || (leb 48 c && leb c 57) || is_space c

abbrev cleaned : ℕ → ℕ
cleaned c = if is_kept c then c else 32

push_word : List ℕ → List (List ℕ) → List (List ℕ)
push_word [] ws = ws
push_word (c ∷ w) ws = (c ∷ w) ∷ ws

-- `split(/\s+/).filter(word => word.length > 0)`, with the word being read.
split_words : List ℕ → List ℕ → List (List ℕ)
unfolding push_word
split_words word [] = push_word word []
split_words word (c ∷ cs) =
    let ended = push_word word (split_words [] cs) in
    let more = split_words (word ++ (c ∷ [])) cs in if is_space c then ended else more

-- The order of texts by code units.
text_le : List ℕ → List ℕ → Bool
text_le [] ds = true
text_le (c ∷ cs) [] = false
text_le (c ∷ cs) (d ∷ ds) =
    let rest = text_le cs ds in if ltb c d then true else if ltb d c then false else rest

insert_word : List ℕ → List (List ℕ) → List (List ℕ)
unfolding text_le
insert_word w [] = w ∷ []
insert_word w (v ∷ vs) = let rest = v ∷ insert_word w vs in if text_le w v then w ∷ v ∷ vs else rest

sort_words : List (List ℕ) → List (List ℕ)
unfolding insert_word
sort_words [] = []
sort_words (w ∷ ws) = insert_word w (sort_words ws)

-- The words of the normalised note.
pub normalise_note : (List ℕ → List ℕ) → List ℕ → List (List ℕ)
unfolding split_words sort_words
normalise_note lower note = sort_words (split_words [] (map cleaned (lower note)))

abbrev has_word : List ℕ → List (List ℕ) → Bool
has_word w ws = any (text_eq w) ws

-- `new Set(words)`.
pub distinct_words : List (List ℕ) → List (List ℕ)
distinct_words [] = []
distinct_words (w ∷ ws) = let rest = distinct_words ws in if has_word w ws then rest else w ∷ rest

-- `jaccardSimilarity(a, b) >= 0.9`, as a comparison of the two counts.
pub is_similar : List (List ℕ) → List (List ℕ) → Bool
unfolding distinct_words
is_similar a b =
    let set_a = distinct_words a in
    let set_b = distinct_words b in
    let intersection = count (λ w. has_word w set_b) set_a in
    leb (9 * (length set_a + length set_b)) (19 * intersection)

-- The entries that count: those of the last day.
abbrev recent_entries : ℕ → List HistoryEntry → List HistoryEntry
recent_entries now history =
    select (λ e. ltb now (e.ts + identical_note_window_ms)) (take note_history_cap history)

-- The words of a note that is there and not blank.
abbrev pub words_of : (List ℕ → List ℕ) → Option (List ℕ) → List (List ℕ)
words_of lower none = []
words_of lower (some note) = normalise_note lower note

-- Whether the note is a duplicate, which calls for a soft block, and the new history, newest first.
unfoldable pub record_note : List (List ℕ) → ℕ → List HistoryEntry → Bool × List HistoryEntry
record_note [] now history = (false, history)
record_note (w ∷ ws) now history =
    let similar = count (λ e. is_similar e.words (w ∷ ws)) (recent_entries now history) in
    (
      leb identical_note_limit similar,
      take note_history_cap (record { words = w ∷ ws; ts = now } ∷ history),
    )

unfoldable pub record_note_and_check_duplicate :
    (List ℕ → List ℕ) → Option (List ℕ) → ℕ → List HistoryEntry → Bool × List HistoryEntry
unfolding record_note normalise_note
record_note_and_check_duplicate lower note now history =
    record_note (words_of lower note) now history
