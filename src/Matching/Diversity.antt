-- ===== src/Matching/Diversity.antt =====
-- packages/matching/src/diversity.ts: a page of candidates that keeps to the caps on companies,
-- industries and intents, with slots for exploration. A company, an industry or an intent is a
-- number, and `none` is null or the empty text, which the source treats alike; a candidate is told
-- from others by its id; scores are whole numbers.
pub mod Caps
pub mod Counters
use convene.Common.{
  ℕ, zero, suc, ◌+◌, ◌-◌, Bool, true, false, not, ◌&&◌, ◌||◌, Option, none, some, List, [], ◌∷◌,
  ◌++◌, ◌==◌, ltb, leb, length, if◌then◌else◌, select, find_first, insert, any, map, delete_where,
}

abbrev pub company_cap : ℕ
company_cap = 2

abbrev pub industry_cap : ℕ
industry_cap = 8

abbrev pub intent_cap : ℕ
intent_cap = 10

abbrev pub exploration_slot_positions : List ℕ
exploration_slot_positions = 7 ∷ 15 ∷ []

abbrev exploration_score_min : ℕ
exploration_score_min = 55

abbrev exploration_score_max : ℕ
exploration_score_max = 70

pub record Candidate : Type 0 where
  pub id : ℕ
  pub score : ℕ
  pub company : Option ℕ
  pub industry : Option ℕ
  pub primary_intent : Option ℕ
  pub is_new_user : Bool
  pub ever_shown_to_viewer : Bool

-- The map `seen.get(v) ?? 0`, with `set(v, get(v) + 1)` and `set(v, get(v) - 1)`.
abbrev pub bump : Option ℕ → (ℕ → ℕ) → ℕ → ℕ
bump none seen w = seen w
bump (some v) seen w = if w == v then seen w + 1 else seen w

abbrev pub unbump : Option ℕ → (ℕ → ℕ) → ℕ → ℕ
unbump none seen w = seen w
unbump (some v) seen w = if w == v then seen w - 1 else seen w

abbrev pub has_room : Option ℕ → (ℕ → ℕ) → ℕ → Bool
has_room none seen cap = true
has_room (some v) seen cap = ltb (seen v) cap

pub record Seen : Type 0 where
  pub company : ℕ → ℕ
  pub industry : ℕ → ℕ
  pub intent : ℕ → ℕ

abbrev pub seen_none : Seen
seen_none = record { company = λ v. 0; industry = λ v. 0; intent = λ v. 0 }

abbrev pub see : Candidate → Seen → Seen
see c seen = record {
  company = bump c.company seen.company;
  industry = bump c.industry seen.industry;
  intent = bump c.primary_intent seen.intent;
}

abbrev pub unsee : Candidate → Seen → Seen
unsee c seen = record {
  company = unbump c.company seen.company;
  industry = unbump c.industry seen.industry;
  intent = unbump c.primary_intent seen.intent;
}

-- `withinCaps`, which the first loop writes out.
pub within_caps : Candidate → Seen → Bool
within_caps c seen =
    has_room c.company seen.company company_cap
    && (has_room c.industry seen.industry industry_cap
        && has_room c.primary_intent seen.intent intent_cap)

pub record Page : Type 0 where
  pub out : List Candidate
  pub deferred : List Candidate
  pub seen : Seen

abbrev pub empty_page : Page
empty_page = record { out = []; deferred = []; seen = seen_none }

-- One round of the first loop.
pub place : ℕ → Candidate → Page → Page
place page_size c page =
    if leb page_size (length page.out) || not (within_caps c page.seen)
    then record { out = page.out; deferred = insert c page.deferred; seen = page.seen }
    else record { out = insert c page.out; deferred = page.deferred; seen = see c page.seen }

pub fill : ℕ → List Candidate → Page → Page
fill page_size [] page = page
fill page_size (c ∷ cs) page = fill page_size cs (place page_size c page)

abbrev pub has_id : List Candidate → ℕ → Bool
has_id cs id = any (λ c. c.id == id) cs

abbrev pub contains_id : List ℕ → ℕ → Bool
contains_id ids id = any (λ i. i == id) ids

abbrev is_ideal : Candidate → Bool
is_ideal c =
    c.is_new_user
    && (not c.ever_shown_to_viewer
        && (leb exploration_score_min c.score && leb c.score exploration_score_max))

abbrev or_first : Option Candidate → List Candidate → Option Candidate
or_first (some c) eligible = some c
or_first none [] = none
or_first none (c ∷ cs) = some c

pub pick_exploration : List Candidate → List ℕ → Seen → Option Candidate
pick_exploration pool used seen =
    let eligible = select (λ c. not (contains_id used c.id) && within_caps c seen) pool in
    or_first (find_first is_ideal eligible) eligible

abbrev pub get_elem? : List Candidate → ℕ → Option Candidate
get_elem? [] i = none
get_elem? (c ∷ cs) zero = some c
get_elem? (c ∷ cs) (suc i) = get_elem? cs i

abbrev pub replace : List Candidate → ℕ → Candidate → List Candidate
replace [] i d = []
replace (c ∷ cs) zero d = d ∷ cs
replace (c ∷ cs) (suc i) d = c ∷ replace cs i d

pub record Exploring : Type 0 where
  pub page_out : List Candidate
  pub used : List ℕ
  pub counts : Seen

-- One round of the second loop, at a slot with a candidate in it.
pub explore_slot : List Candidate → ℕ → Candidate → Exploring → Exploring
explore_slot pool index outgoing st =
    let freed = unsee outgoing st.counts in
    elim (pick_exploration pool st.used freed) [
      | none ↦ record { page_out = st.page_out; used = st.used; counts = see outgoing freed }
      | some pick ↦ record {
        page_out = replace st.page_out index pick;
        used = insert pick.id (delete_where (λ i. i == outgoing.id) st.used);
        counts = see pick freed;
      }
    ]

pub explore : List Candidate → List ℕ → Exploring → Exploring
explore pool [] st = st
explore pool (position ∷ positions) st =
    explore pool positions (elim (get_elem? st.page_out (position - 1)) [
      | none ↦ st
      | some outgoing ↦ explore_slot pool (position - 1) outgoing st
    ])

-- `diversityInjection`.
pub diversity_injection : ℕ → List Candidate → List Candidate
diversity_injection page_size sorted =
    let page = fill page_size sorted empty_page in
    let used = map (λ c. c.id) page.out in
    let pool =
      page.deferred
      ++ select (λ c. not (contains_id used c.id) && not (has_id page.deferred c.id)) sorted in
    (explore pool exploration_slot_positions
      (record { page_out = page.out; used = used; counts = page.seen })).page_out
