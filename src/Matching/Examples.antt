-- ===== src/Matching/Examples.antt =====
-- A viewer, and a page of four candidates, three of them of one company.
use convene.Common.{ℕ, ◌≤◌, ◌≡◌, false, none, some, List, [], ◌∷◌, count, length, ◌↔◌, find_first}
use convene.Matching.Gates.{
  GateContext, authenticated, active, apply_gates, Eligible, apply_gates-Eligible, verdicts,
  name_of, apply_gates-first,
}
use convene.Matching.Diversity.{
  Candidate, diversity_injection, company_cap, industry_cap, intent_cap,
}
use convene.Matching.Diversity.Counters.{has}
use convene.Matching.Diversity.Caps.{diversity_injection-caps}

abbrev neighbour : GateContext
neighbour = record {
  viewer_id = 1;
  candidate_id = 2;
  is_blocked_either_direction = false;
  has_active_suppression = false;
  is_connected_or_pending_request = false;
  profile_visibility = authenticated;
  viewer_is_match = false;
  account_status = active;
  profile_completion = 80;
  intent_score = 15;
  passes_inbound_filter = false;
  is_invisible = false;
  cooldown_active_until = none;
  last_session_at = some 0;
}

apply_gates-Eligible_example : (apply_gates neighbour 1000 ≡ none) ↔ Eligible neighbour 1000
apply_gates-Eligible_example = apply_gates-Eligible neighbour 1000

apply_gates-first_example :
    apply_gates neighbour 1000 ≡ name_of (find_first (λ g. g.1) (verdicts neighbour 1000))
apply_gates-first_example = apply_gates-first neighbour 1000

abbrev colleague : ℕ → Candidate
colleague id = record {
  id = id;
  score = 60;
  company = some 9;
  industry = some 3;
  primary_intent = none;
  is_new_user = false;
  ever_shown_to_viewer = false;
}

abbrev sorted : List Candidate
sorted = colleague 1 ∷ colleague 2 ∷ colleague 3 ∷ colleague 4 ∷ []

diversity_injection-caps_example :
    let out = diversity_injection 20 sorted in
    (count (has (λ c. c.company) company_cap 9) out ≤ company_cap)
    × (count (has (λ c. c.industry) industry_cap 9) out ≤ industry_cap)
    × (count (has (λ c. c.primary_intent) intent_cap 9) out ≤ intent_cap)
    × (length out ≤ 20)
diversity_injection-caps_example = diversity_injection-caps 20 sorted 9
