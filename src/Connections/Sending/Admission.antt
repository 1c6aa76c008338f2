-- ===== src/Connections/Sending/Admission.antt =====
-- Whom the inbound filter of a recipient lets in, said apart from the check
-- (inbound-filters.service.ts: checkInbound).
use convene.Common.{
  ℕ, ◌≤◌, ◌≡◌, refl, true, false, Option, none, some, List, [], ◌∷◌, arith, ◌==◌, any,
}
use convene.Connections.Inbound.{
  InboundIntentFilter, InboundCheckFacts, check_inbound, leaves_out, below, above,
}

-- A list that is missing or empty asks for nothing; any other has to hold the value.
abbrev pub IsListed : Option (List ℕ) → Option ℕ → Type 0
IsListed none x = Unit
IsListed (some []) x = Unit
IsListed (some (y ∷ ys)) x = (v : ℕ) × (x ≡ some v) × (any (λ z. z == v) (y ∷ ys) ≡ true)

-- A sender meets every condition that the filter states: the intent, the years of experience, the
-- industry, and the verification.
pub record Meets (row : InboundIntentFilter) (facts : InboundCheckFacts) : Type 0 where
  pub intent : IsListed row.accepted_intents (some facts.intent_type)
  pub least : (years : ℕ) → row.min_experience_years ≡ some years → years ≤ facts.years_experience
  pub most : (years : ℕ) → row.max_experience_years ≡ some years → facts.years_experience ≤ years
  pub industry : IsListed row.industry_ids facts.industry_id
  pub verified : row.verified_only ≡ true → 1 ≤ facts.verification_level

abbrev pub IsAdmitted : Option InboundIntentFilter → InboundCheckFacts → Type 0
IsAdmitted none facts = Unit
IsAdmitted (some row) facts = Meets row facts

leaves_out-IsListed :
    (list : Option (List ℕ)) (x : Option ℕ) → leaves_out list x ≡ false → IsListed list x
leaves_out-IsListed none x h = tt
leaves_out-IsListed (some []) x h = tt
leaves_out-IsListed (some (y ∷ ys)) none h = cc
leaves_out-IsListed (some (y ∷ ys)) (some v) h = (v, refl, ground arith)

least_of : (o : Option ℕ) (x years : ℕ) → below o x ≡ false → o ≡ some years → years ≤ x
least_of none x years h e = cc
least_of (some t) x years h e = ground arith

most_of : (o : Option ℕ) (x years : ℕ) → above o x ≡ false → o ≡ some years → x ≤ years
most_of none x years h e = cc
most_of (some t) x years h e = ground arith

pub check_inbound-IsAdmitted :
    (filter : Option InboundIntentFilter) (facts : InboundCheckFacts)
    → check_inbound filter facts ≡ true
    → IsAdmitted filter facts
unfolding check_inbound
check_inbound-IsAdmitted none facts h = tt
check_inbound-IsAdmitted (some row) facts h = record {
  intent = leaves_out-IsListed row.accepted_intents (some facts.intent_type) (ground arith);
  least = λ years. least_of row.min_experience_years facts.years_experience years (ground arith);
  most = λ years. most_of row.max_experience_years facts.years_experience years (ground arith);
  industry = leaves_out-IsListed row.industry_ids facts.industry_id (ground arith);
  verified = λ v. ground arith;
}
