-- ===== src/Matching/Gates.antt =====
-- packages/matching/src/gates.ts: the hard gates before scoring, in their order. Scores of intents
-- are hundredths.
use convene.Common.{
  ℕ, ◌+◌, ◌*◌, ◌≤◌, ◌≡◌, Bool, true, false, not, Option, none, some, List, [], ◌∷◌, arith, ◌==◌,
  ltb, leb, if◌then◌else◌, find_first, ◌↔◌, ◌≢◌, ◌<◌, ◌⊎◌, inl, inr, refl, ==_refl, ==_iff,
  Bool-cases,
}

pub data GateId : Type 0 where
  g1_self g2_block g3_suppression g4_relationship g5_visibility g6_status : GateId
  g7_completion g8_intent_floor g9_inbound_filter g10_invisible g11_cooldown : GateId
  g12_dormant : GateId

pub data ProfileVisibility : Type 0 where
  everyone authenticated connections_only matches_only nobody : ProfileVisibility

pub data AccountStatus : Type 0 where
  active suspended deleted unverified shadow_limited : AccountStatus

pub record GateContext : Type 0 where
  pub viewer_id : ℕ
  pub candidate_id : ℕ
  pub is_blocked_either_direction : Bool
  pub has_active_suppression : Bool
  pub is_connected_or_pending_request : Bool
  pub profile_visibility : ProfileVisibility
  pub viewer_is_match : Bool
  pub account_status : AccountStatus
  pub profile_completion : ℕ
  -- Hundredths.
  pub intent_score : ℕ
  pub passes_inbound_filter : Bool
  pub is_invisible : Bool
  pub cooldown_active_until : Option ℕ
  pub last_session_at : Option ℕ

-- Hundredths.
abbrev pub intent_floor : ℕ
intent_floor = 20

abbrev pub dormant_days : ℕ
dormant_days = 90

unfoldable pub check_intent_floor : ℕ → Bool
check_intent_floor score = ltb score intent_floor

pub gate_visibility : ProfileVisibility → Bool → Bool
gate_visibility nobody is_match = true
gate_visibility matches_only is_match = not is_match
gate_visibility connections_only is_match = true
gate_visibility everyone is_match = false
gate_visibility authenticated is_match = false

pub gate_status : AccountStatus → Bool
gate_status active = false
gate_status suspended = true
gate_status deleted = true
gate_status unverified = true
gate_status shadow_limited = true

pub gate_cooldown : Option ℕ → ℕ → Bool
gate_cooldown none now = false
gate_cooldown (some until) now = ltb now until

-- `daysSince >= 90`, in milliseconds.
pub gate_dormant : Option ℕ → ℕ → Bool
gate_dormant none now = true
gate_dormant (some last) now = leb (last + dormant_days * 86400000) now

-- `applyGates`: the gate that excludes the candidate, if one does.
pub apply_gates : GateContext → ℕ → Option GateId
apply_gates ctx now =
    if ctx.viewer_id == ctx.candidate_id
    then some g1_self
    else if ctx.is_blocked_either_direction
    then some g2_block
    else if ctx.has_active_suppression
    then some g3_suppression
    else if ctx.is_connected_or_pending_request
    then some g4_relationship
    else if gate_visibility ctx.profile_visibility ctx.viewer_is_match
    then some g5_visibility
    else if gate_status ctx.account_status
    then some g6_status
    else if ltb ctx.profile_completion 40
    then some g7_completion
    else if check_intent_floor ctx.intent_score
    then some g8_intent_floor
    else if not ctx.passes_inbound_filter
    then some g9_inbound_filter
    else if ctx.is_invisible
    then some g10_invisible
    else if gate_cooldown ctx.cooldown_active_until now
    then some g11_cooldown
    else if gate_dormant ctx.last_session_at now
    then some g12_dormant
    else none

-- Whom a profile shows itself to: everyone, or anyone signed in, or the matches alone.
abbrev pub IsVisible : ProfileVisibility → Bool → Type 0
IsVisible visibility is_match =
    ((visibility ≡ everyone) ⊎ (visibility ≡ authenticated))
    ⊎ ((visibility ≡ matches_only) × (is_match ≡ true))

-- What a candidate is who passes every gate. Ninety days are 7,776,000,000 milliseconds.
pub record Eligible (ctx : GateContext) (now : ℕ) : Type 0 where
  pub other : ctx.viewer_id ≢ ctx.candidate_id
  pub unblocked : ctx.is_blocked_either_direction ≡ false
  pub unsuppressed : ctx.has_active_suppression ≡ false
  pub unrelated : ctx.is_connected_or_pending_request ≡ false
  pub visible : IsVisible ctx.profile_visibility ctx.viewer_is_match
  pub in_standing : ctx.account_status ≡ active
  pub complete : 40 ≤ ctx.profile_completion
  pub above_floor : 20 ≤ ctx.intent_score
  pub admitted : ctx.passes_inbound_filter ≡ true
  pub shown : ctx.is_invisible ≡ false
  pub cooled : (until : ℕ) → ctx.cooldown_active_until ≡ some until → until ≤ now
  pub awake : (last : ℕ) × (ctx.last_session_at ≡ some last) × (now < last + 7776000000)

visible_lem : (v : ProfileVisibility) (m : Bool) → gate_visibility v m ≡ false → IsVisible v m
unfolding gate_visibility
visible_lem everyone m h = inl (inl refl)
visible_lem authenticated m h = inl (inr refl)
visible_lem connections_only m h = cc
visible_lem matches_only true h = inr (refl, refl)
visible_lem matches_only false h = cc
visible_lem nobody m h = cc

visible_back : (v : ProfileVisibility) (m : Bool) → IsVisible v m → gate_visibility v m ≡ false
unfolding gate_visibility
visible_back v m (inl (inl e)) = ground arith
visible_back v m (inl (inr e)) = ground arith
visible_back v m (inr (e, t)) = ground arith

cooled_lem :
    (o : Option ℕ) (now until : ℕ) → gate_cooldown o now ≡ false → o ≡ some until → until ≤ now
unfolding gate_cooldown
cooled_lem none now until h e = cc
cooled_lem (some t) now until h e = ground arith

cooled_back :
    (o : Option ℕ) (now : ℕ)
    → ((until : ℕ) → o ≡ some until → until ≤ now)
    → gate_cooldown o now ≡ false
unfolding gate_cooldown
cooled_back none now h = refl
cooled_back (some t) now h = let past = h t refl in ground arith

awake_lem :
    (o : Option ℕ) (now : ℕ)
    → gate_dormant o now ≡ false
    → (last : ℕ) × (o ≡ some last) × (now < last + 7776000000)
unfolding gate_dormant
awake_lem none now h = cc
awake_lem (some t) now h = (t, refl, ground arith)

awake_back :
    (o : Option ℕ) (now last : ℕ)
    → o ≡ some last
    → now < last + 7776000000
    → gate_dormant o now ≡ false
unfolding gate_dormant
awake_back o now last e h = ground arith

passes : (ctx : GateContext) (now : ℕ) → apply_gates ctx now ≡ none → Eligible ctx now
unfolding apply_gates gate_status check_intent_floor
passes ctx now h = record {
  other = λ e. ground (arith, ==_refl ctx.candidate_id);
  unblocked = ground arith;
  unsuppressed = ground arith;
  unrelated = ground arith;
  visible = visible_lem ctx.profile_visibility ctx.viewer_is_match (ground arith);
  in_standing = ground arith;
  complete = ground arith;
  above_floor = ground arith;
  admitted = ground arith;
  shown = ground arith;
  cooled = λ until. cooled_lem ctx.cooldown_active_until now until (ground arith);
  awake = awake_lem ctx.last_session_at now (ground arith);
}

eligible : (ctx : GateContext) (now : ℕ) → Eligible ctx now → apply_gates ctx now ≡ none
unfolding apply_gates gate_status check_intent_floor
eligible ctx now h =
    let other : (ctx.viewer_id == ctx.candidate_id) ≡ false =
      elim (Bool-cases (ctx.viewer_id == ctx.candidate_id)) [
        | inl t ↦ absurd (h.other ((==_iff ctx.viewer_id ctx.candidate_id).0 t))
        | inr f ↦ f
      ] in
    let visible = visible_back ctx.profile_visibility ctx.viewer_is_match h.visible in
    let cooled = cooled_back ctx.cooldown_active_until now h.cooled in
    let awake = awake_back ctx.last_session_at now h.awake.0 h.awake.1 h.awake.2 in
    ground (
      arith, other, h.unblocked, h.unsuppressed, h.unrelated, visible, h.in_standing, h.complete,
      h.above_floor, h.admitted, h.shown, cooled, awake,
    )

-- A candidate passes the gates exactly if eligible: another active account, unblocked, unsuppressed
-- and unrelated, whose profile is shown to everyone, to anyone signed in, or to matches of whom the
-- viewer is one; at least 40 percent complete, with an intent score of at least 0.2, whose inbound
-- filter admits the viewer, not invisible, with no cool-down that ends later than now, and with a
-- session less than ninety days ago.
pub apply_gates-Eligible :
    (ctx : GateContext) (now : ℕ) → (apply_gates ctx now ≡ none) ↔ Eligible ctx now
apply_gates-Eligible ctx now = (passes ctx now, eligible ctx now)

-- The gates with whether each excludes, in the order of GATE_IDS.
pub verdicts : GateContext → ℕ → List (GateId × Bool)
verdicts ctx now =
    (g1_self, ctx.viewer_id == ctx.candidate_id)
    ∷ (g2_block, ctx.is_blocked_either_direction)
    ∷ (g3_suppression, ctx.has_active_suppression)
    ∷ (g4_relationship, ctx.is_connected_or_pending_request)
    ∷ (g5_visibility, gate_visibility ctx.profile_visibility ctx.viewer_is_match)
    ∷ (g6_status, gate_status ctx.account_status)
    ∷ (g7_completion, ltb ctx.profile_completion 40)
    ∷ (g8_intent_floor, check_intent_floor ctx.intent_score)
    ∷ (g9_inbound_filter, not ctx.passes_inbound_filter)
    ∷ (g10_invisible, ctx.is_invisible)
    ∷ (g11_cooldown, gate_cooldown ctx.cooldown_active_until now)
    ∷ (g12_dormant, gate_dormant ctx.last_session_at now)
    ∷ []

abbrev pub name_of : Option (GateId × Bool) → Option GateId
name_of none = none
name_of (some g) = some g.0

-- The gate reported is the first, in the order of their numbers, that excludes the candidate; none
-- is reported when none does.
pub apply_gates-first :
    (ctx : GateContext) (now : ℕ)
    → apply_gates ctx now ≡ name_of (find_first (λ g. g.1) (verdicts ctx now))
unfolding apply_gates verdicts
apply_gates-first ctx now = ground arith
