-- ===== src/Matching/Diversity/Counters.antt =====
-- A counter of what a page shows of one attribute, against its cap (diversity.ts: seenCompany,
-- seenIndustry, seenIntent).
use convene.Common.{
  ℕ, zero, suc, ◌+◌, ◌-◌, ◌≤◌, ◌<◌, ◌≡◌, refl, sym, ◌∙◌, inl, inr, subst, Bool, true, false, Option,
  none, some, List, [], ◌∷◌, arith, ◌==◌, ==_iff, if◌then◌else◌, insert, count, count-insert,
  Bool-cases,
}
use convene.Matching.Diversity.{Candidate, bump, unbump, has_room, get_elem?, replace}

abbrev pub is_value : Option ℕ → ℕ → Bool
is_value none v = false
is_value (some w) v = v == w

module _ (attr : Candidate → Option ℕ) (cap : ℕ) where
  -- The candidates that have a value.
  abbrev pub has : ℕ → Candidate → Bool
  has v c = is_value (attr c) v

  -- The counter counts the page, and no value is over its cap.
  unfoldable pub Tracks : (ℕ → ℕ) → List Candidate → Type 0
  Tracks seen out = (v : ℕ) → (seen v ≡ count (has v) out) × (seen v ≤ cap)

  bump_value :
      (n : Option ℕ) (seen : ℕ → ℕ) (v : ℕ)
      → has_room n seen cap ≡ true
      → seen v ≤ cap
      → (bump n seen v ≡ seen v + (if is_value n v then 1 else 0)) × (bump n seen v ≤ cap)
  bump_value none seen v r l = ground arith
  bump_value (some w) seen v r l = elim (Bool-cases (v == w)) [
    | inl t ↦
        let below : seen w < cap = ground arith in
        let here = subst (λ x. seen x < cap) (sym ((==_iff v w).0 t)) below in ground arith
    | inr f ↦ ground arith
  ]

  unbump_value :
      (o : Option ℕ) (seen : ℕ → ℕ) (v : ℕ)
      → unbump o seen v ≡ seen v - (if is_value o v then 1 else 0)
  unbump_value none seen v = ground arith
  unbump_value (some w) seen v = ground arith

  rebump_value :
      (o : Option ℕ) (seen : ℕ → ℕ) (v : ℕ)
      → (if is_value o v then 1 else 0) ≤ seen v
      → bump o (unbump o seen) v ≡ seen v
  rebump_value none seen v l = refl
  rebump_value (some w) seen v l = ground arith

  pub insert-Tracks :
      (c : Candidate) (seen : ℕ → ℕ) (out : List Candidate)
      → has_room (attr c) seen cap ≡ true
      → Tracks seen out
      → Tracks (bump (attr c) seen) (insert c out)
  unfolding Tracks
  insert-Tracks c seen out room h v =
      let added = count-insert (has v) c out in
      let value = bump_value (attr c) seen v room (h v).1 in
      let tracked = (h v).0 in (omega (arith, value.0), value.1)

  count-replace :
      (v : ℕ) (out : List Candidate) (i : ℕ) (old new : Candidate)
      → get_elem? out i ≡ some old
      → count (has v) (replace out i new) + (if has v old then 1 else 0)
        ≡ count (has v) out + (if has v new then 1 else 0)
  count-replace v [] i old new e = cc
  count-replace v (c ∷ cs) zero old new e =
      let same : c ≡ old = ground arith in rw (sym same) (omega arith)
  count-replace v (c ∷ cs) (suc i) old new e = omega (arith, count-replace v cs i old new e)

  count-at :
      (v : ℕ) (out : List Candidate) (i : ℕ) (old : Candidate)
      → get_elem? out i ≡ some old
      → (if has v old then 1 else 0) ≤ count (has v) out
  count-at v [] i old e = cc
  count-at v (c ∷ cs) zero old e = let same : c ≡ old = ground arith in rw (sym same) (omega arith)
  count-at v (c ∷ cs) (suc i) old e = omega (arith, count-at v cs i old e)

  -- A candidate that has room takes the place of one on the page.
  pub replace-Tracks :
      (old new : Candidate) (i : ℕ) (seen : ℕ → ℕ) (out : List Candidate)
      → get_elem? out i ≡ some old
      → has_room (attr new) (unbump (attr old) seen) cap ≡ true
      → Tracks seen out
      → Tracks (bump (attr new) (unbump (attr old) seen)) (replace out i new)
  unfolding Tracks
  replace-Tracks old new i seen out e room h v =
      let freed = unbump_value (attr old) seen v in
      let value =
        bump_value (attr new) (unbump (attr old) seen) v room (omega (arith, freed, (h v).1)) in
      let moved = count-replace v out i old new e in
      let there = count-at v out i old e in
      let tracked = (h v).0 in (omega (arith, value.0, freed), value.1)

  -- The counters of a candidate that keeps its place are put back as they were.
  pub restore-Tracks :
      (old : Candidate) (i : ℕ) (seen : ℕ → ℕ) (out : List Candidate)
      → get_elem? out i ≡ some old
      → Tracks seen out
      → Tracks (bump (attr old) (unbump (attr old) seen)) out
  unfolding Tracks
  restore-Tracks old i seen out e h v =
      let there = count-at v out i old e in
      let back = rebump_value (attr old) seen v (omega (arith, there, (h v).0)) in
      (back ∙ (h v).0, omega (arith, back, (h v).1))
