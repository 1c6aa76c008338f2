-- ===== src/Matching/Diversity/Caps.antt =====
-- No page violates a cap (diversity.ts: diversityInjection).
use convene.Common.{
  ℕ, zero, suc, ◌-◌, ◌≤◌, ◌≡◌, refl, ◌∙◌, inl, inr, subst, true, not, ◌&&◌, ◌||◌, some, List, [],
  ◌∷◌, ◌++◌, arith, leb, length, insert, count, Bool-cases, Option-cases, Option-outcome, select,
  find_first, map, All, find_first-All, select-All, length-append,
}
use convene.Matching.Diversity.{
  Candidate, Seen, see, unsee, has_room, within_caps, Page, empty_page, place, fill,
  pick_exploration, or_first, is_ideal, contains_id, has_id, get_elem?, replace, Exploring,
  explore_slot, explore, diversity_injection, exploration_slot_positions, company_cap, industry_cap,
  intent_cap,
}
use convene.Matching.Diversity.Counters.{has, Tracks, insert-Tracks, replace-Tracks, restore-Tracks}

-- The counters count the page, and keep to the caps.
Counted : Seen → List Candidate → Type 0
Counted seen out =
    Tracks (λ c. c.company) company_cap seen.company out
    × Tracks (λ c. c.industry) industry_cap seen.industry out
    × Tracks (λ c. c.primary_intent) intent_cap seen.intent out

rooms :
    (c : Candidate) (seen : Seen)
    → within_caps c seen ≡ true
    → (has_room c.company seen.company company_cap ≡ true)
      × (has_room c.industry seen.industry industry_cap ≡ true)
      × (has_room c.primary_intent seen.intent intent_cap ≡ true)
unfolding within_caps
rooms c seen h = (ground arith, ground arith, ground arith)

insert-Counted :
    (c : Candidate) (seen : Seen) (out : List Candidate)
    → within_caps c seen ≡ true
    → Counted seen out
    → Counted (see c seen) (insert c out)
unfolding Counted
insert-Counted c seen out ok_to (a, b, d) =
    let (p, q, r) = rooms c seen ok_to in
    (
      insert-Tracks (λ x. x.company) company_cap c seen.company out p a,
      insert-Tracks (λ x. x.industry) industry_cap c seen.industry out q b,
      insert-Tracks (λ x. x.primary_intent) intent_cap c seen.intent out r d,
    )

replace-Counted :
    (old new : Candidate) (i : ℕ) (seen : Seen) (out : List Candidate)
    → get_elem? out i ≡ some old
    → within_caps new (unsee old seen) ≡ true
    → Counted seen out
    → Counted (see new (unsee old seen)) (replace out i new)
unfolding Counted
replace-Counted old new i seen out e ok_to (a, b, d) =
    let (p, q, r) = rooms new (unsee old seen) ok_to in
    (
      replace-Tracks (λ x. x.company) company_cap old new i seen.company out e p a,
      replace-Tracks (λ x. x.industry) industry_cap old new i seen.industry out e q b,
      replace-Tracks (λ x. x.primary_intent) intent_cap old new i seen.intent out e r d,
    )

restore-Counted :
    (old : Candidate) (i : ℕ) (seen : Seen) (out : List Candidate)
    → get_elem? out i ≡ some old
    → Counted seen out
    → Counted (see old (unsee old seen)) out
unfolding Counted
restore-Counted old i seen out e (a, b, d) = (
  restore-Tracks (λ x. x.company) company_cap old i seen.company out e a,
  restore-Tracks (λ x. x.industry) industry_cap old i seen.industry out e b,
  restore-Tracks (λ x. x.primary_intent) intent_cap old i seen.intent out e d,
)

-- The page as it grows: counted, and no longer than asked.
Fits : ℕ → Page → Type 0
Fits page_size page = Counted page.seen page.out × (length page.out ≤ page_size)

place-Fits :
    (page_size : ℕ) (c : Candidate) (page : Page)
    → Fits page_size page
    → Fits page_size (place page_size c page)
unfolding Fits place
place-Fits page_size c page (h, l) =
    elim (Bool-cases (leb page_size (length page.out) || not (within_caps c page.seen))) [
      | inl t ↦ rw t (h, l)
      | inr f ↦
          let ok_to : within_caps c page.seen ≡ true = ground arith in
          let longer = length-append page.out (c ∷ []) in
          rw f (insert-Counted c page.seen page.out ok_to h, ground arith)
    ]

fill-Fits :
    (page_size : ℕ) (cs : List Candidate) (page : Page)
    → Fits page_size page
    → Fits page_size (fill page_size cs page)
unfolding fill
fill-Fits page_size [] page h = h
fill-Fits page_size (c ∷ cs) page h =
    fill-Fits page_size cs (place page_size c page) (place-Fits page_size c page h)

-- What is picked for exploration is new to the page and within the caps.
pick-within :
    (pool : List Candidate) (used : List ℕ) (seen : Seen) (pick : Candidate)
    → pick_exploration pool used seen ≡ some pick
    → (not (contains_id used pick.id) && within_caps pick seen) ≡ true
unfolding pick_exploration
pick-within pool used seen pick e =
    go (select (λ c. not (contains_id used c.id) && within_caps c seen) pool)
      (select-All (λ c. not (contains_id used c.id) && within_caps c seen) pool) e
  where
    go :
        (cs : List Candidate)
        → All (λ c. (not (contains_id used c.id) && within_caps c seen) ≡ true) cs
        → or_first (find_first is_ideal cs) cs ≡ some pick
        → (not (contains_id used pick.id) && within_caps pick seen) ≡ true
    go [] h q = absurd (ground arith)
    go (c ∷ cs) h q = elim (Option-cases (find_first is_ideal (c ∷ cs))) [
      | inr (d, f) ↦
          find_first-All (λ c. (not (contains_id used c.id) && within_caps c seen) ≡ true) is_ideal
            (c ∷ cs) {a = pick} h (ground arith)
      | inl n ↦
          let same : c ≡ pick = ground arith in
          subst (λ d. (not (contains_id used d.id) && within_caps d seen) ≡ true) same h.0
    ]

length-replace : (cs : List Candidate) (i : ℕ) (d : Candidate) → length (replace cs i d) ≡ length cs
length-replace [] i d = refl
length-replace (c ∷ cs) zero d = refl
length-replace (c ∷ cs) (suc i) d = omega (arith, length-replace cs i d)

-- A page under exploration: counted, and of the given length.
Explored : ℕ → Exploring → Type 0
Explored n st = Counted st.counts st.page_out × (length st.page_out ≡ n)

explore_slot-Explored :
    (pool : List Candidate) (i n : ℕ) (outgoing : Candidate) (st : Exploring)
    → get_elem? st.page_out i ≡ some outgoing
    → Explored n st
    → Explored n (explore_slot pool i outgoing st)
unfolding Explored explore_slot
explore_slot-Explored pool i n outgoing st e (h, l) =
    Option-outcome (λ (x : Exploring). Counted x.counts x.page_out × (length x.page_out ≡ n))
      (pick_exploration pool st.used (unsee outgoing st.counts)) _ _
      (λ q. (restore-Counted outgoing i st.counts st.page_out e h, l))
      (λ pick q.
        let new = pick-within pool st.used (unsee outgoing st.counts) pick q in
        (
          replace-Counted outgoing pick i st.counts st.page_out e (ground arith) h,
          length-replace st.page_out i pick ∙ l,
        ))

explore-Explored :
    (pool : List Candidate) (positions : List ℕ) (n : ℕ) (st : Exploring)
    → Explored n st
    → Explored n (explore pool positions st)
unfolding explore
explore-Explored pool [] n st h = h
explore-Explored pool (position ∷ positions) n st h = explore-Explored pool positions n _ (
    Option-outcome (λ (x : Exploring). Explored n x) (get_elem? st.page_out (position - 1)) _ _
      (λ e. h) (λ outgoing e. explore_slot-Explored pool (position - 1) n outgoing st e h))

empty-Fits : (page_size : ℕ) → Fits page_size empty_page
unfolding Fits Counted Tracks
empty-Fits page_size = (
  ((λ v. (refl, omega arith)), (λ v. (refl, omega arith)), (λ v. (refl, omega arith))),
  omega arith,
)

caps_of :
    (seen : Seen) (out : List Candidate) (v : ℕ)
    → Counted seen out
    → (count (has (λ c. c.company) company_cap v) out ≤ company_cap)
      × (count (has (λ c. c.industry) industry_cap v) out ≤ industry_cap)
      × (count (has (λ c. c.primary_intent) intent_cap v) out ≤ intent_cap)
unfolding Counted Tracks
caps_of seen out v (a, b, d) = (
  omega (arith, (a v).0, (a v).1),
  omega (arith, (b v).0, (b v).1),
  omega (arith, (d v).0, (d v).1),
)

-- From any candidates and for any page size, the page shows no company more than twice, no industry
-- more than eight times and no intent more than ten times, exploration slots included, and is no
-- longer than the page size.
pub diversity_injection-caps :
    (page_size : ℕ) (sorted : List Candidate) (v : ℕ)
    → let out = diversity_injection page_size sorted in
      (count (has (λ c. c.company) company_cap v) out ≤ company_cap)
      × (count (has (λ c. c.industry) industry_cap v) out ≤ industry_cap)
      × (count (has (λ c. c.primary_intent) intent_cap v) out ≤ intent_cap)
      × (length out ≤ page_size)
unfolding diversity_injection Fits Explored
diversity_injection-caps page_size sorted v =
    let page = fill page_size sorted empty_page in
    let used = map (λ c. c.id) page.out in
    let pool =
      page.deferred
      ++ select (λ c. not (contains_id used c.id) && not (has_id page.deferred c.id)) sorted in
    let start : Exploring = record { page_out = page.out; used = used; counts = page.seen } in
    let fits = fill-Fits page_size sorted empty_page (empty-Fits page_size) in
    let done =
      explore-Explored pool exploration_slot_positions (length page.out) start (fits.0, refl) in
    let final = explore pool exploration_slot_positions start in
    let (a, b, d) = caps_of final.counts final.page_out v done.0 in
    (a, b, d, omega (arith, done.1, fits.1))
