-- ===== src/Infra/Redis/CounterMemory.antt =====
-- Counters kept in memory, for examples.
use convene.Common.{ℕ, ◌+◌, ◌-◌, ◌≤◌, ◌≡◌, Option, none, some, List, arith, if◌then◌else◌}
use convene.Infra.Redis.Memory.{text_eq, text_eq_refl}
use convene.Infra.Redis.Counters.{Counter, Counters, value_of, expiry_of, later}

abbrev pub Cells : Type 0
Cells = List ℕ → Option Counter

abbrev pub put : List ℕ → Option Counter → Cells → Cells
put k c s j = if text_eq k j then c else s j

unfoldable pub lookup : Cells → List ℕ → ℕ → Option Counter
lookup s k t = later (s k) t

abbrev pub counter : ℕ → Option ℕ → Option Counter
counter value expires_at = some (record { value = value; expires_at = expires_at })

unfoldable pub incr : Cells → List ℕ → ℕ → Cells
unfolding lookup
incr s k now = put k (counter (value_of (lookup s k now) + 1) (expiry_of (lookup s k now))) s

unfoldable pub decr : Cells → List ℕ → ℕ → Cells
unfolding lookup
decr s k now = put k (counter (value_of (lookup s k now) - 1) (expiry_of (lookup s k now))) s

abbrev expiring : Option Counter → ℕ → Option Counter
expiring none t = none
expiring (some c) t = counter c.value (some t)

unfoldable pub pexpire : Cells → List ℕ → ℕ → ℕ → Cells
unfolding lookup
pexpire s k ms now = put k (expiring (lookup s k now) (now + ms)) s

module _ (s : Cells) (k : List ℕ) (now : ℕ) where
  pub lookup-incr :
      lookup (incr s k now) k now
      ≡ counter (value_of (lookup s k now) + 1) (expiry_of (lookup s k now))
  unfolding lookup incr
  lookup-incr = ground (arith, text_eq_refl k)

  pub lookup-decr :
      1 ≤ value_of (lookup s k now)
      → lookup (decr s k now) k now
        ≡ counter (value_of (lookup s k now) - 1) (expiry_of (lookup s k now))
  unfolding lookup decr
  lookup-decr h = ground (arith, text_eq_refl k)

  pub lookup_later : (t : ℕ) → now ≤ t → lookup s k t ≡ later (lookup s k now) t
  unfolding lookup
  lookup_later t le = ground arith

pub lookup-pexpire :
    (s : Cells) (k : List ℕ) (ms now : ℕ) (c : Counter)
    → lookup s k now ≡ some c
    → 1 ≤ ms
    → lookup (pexpire s k ms now) k now ≡ counter c.value (some (now + ms))
unfolding lookup pexpire
lookup-pexpire s k ms now c e h = ground (arith, text_eq_refl k)

unfoldable pub counters : Counters
unfolding lookup incr decr pexpire
counters = record {
  Store = Cells;
  lookup = lookup;
  incr = incr;
  decr = decr;
  pexpire = pexpire;
  lookup-incr = lookup-incr;
  lookup-decr = lookup-decr;
  lookup-pexpire = lookup-pexpire;
  lookup_later = lookup_later;
}

unfoldable pub no_counters : Counters.Store counters
unfolding counters
no_counters k = none
