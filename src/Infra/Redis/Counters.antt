-- ===== src/Infra/Redis/Counters.antt =====
-- Counters in Redis (the server and its client are not part of the repository) as an interface, with
-- the documented laws of INCR, DECR and PEXPIRE. A counter lives until the time it expires, if any.
use convene.Common.{ℕ, ◌+◌, ◌-◌, ◌≤◌, ◌≡◌, Option, none, some, List, leb, if◌then◌else◌}

pub record Counter : Type 0 where
  pub value : ℕ
  pub expires_at : Option ℕ

abbrev pub value_of : Option Counter → ℕ
value_of none = 0
value_of (some c) = c.value

abbrev pub expiry_of : Option Counter → Option ℕ
expiry_of none = none
expiry_of (some c) = c.expires_at

abbrev pub alive : Counter → ℕ → Option Counter
alive c t = elim c.expires_at [ none ↦ some c | some end ↦ if leb end t then none else some c ]

-- What is left of a counter at a later time.
abbrev pub later : Option Counter → ℕ → Option Counter
later none t = none
later (some c) t = alive c t

pub record Counters : Type 1 where
  pub Store : Type 0
  pub lookup : Store → List ℕ → ℕ → Option Counter
  pub incr : Store → List ℕ → ℕ → Store
  pub decr : Store → List ℕ → ℕ → Store
  pub pexpire : Store → List ℕ → ℕ → ℕ → Store
  -- A key that is not there counts as 0, and INCR makes it without an expiry.
  pub lookup-incr :
      (s : Store) (k : List ℕ) (now : ℕ)
      → lookup (incr s k now) k now
        ≡ some (record {
          value = value_of (lookup s k now) + 1;
          expires_at = expiry_of (lookup s k now);
        })
  -- Of a counter that is at least 1.
  pub lookup-decr :
      (s : Store) (k : List ℕ) (now : ℕ)
      → 1 ≤ value_of (lookup s k now)
      → lookup (decr s k now) k now
        ≡ some (record {
          value = value_of (lookup s k now) - 1;
          expires_at = expiry_of (lookup s k now);
        })
  pub lookup-pexpire :
      (s : Store) (k : List ℕ) (ms now : ℕ) (c : Counter)
      → lookup s k now ≡ some c
      → 1 ≤ ms
      → lookup (pexpire s k ms now) k now
        ≡ some (record { value = c.value; expires_at = some (now + ms) })
  -- Time alone takes away what has expired, and nothing else.
  pub lookup_later :
      (s : Store) (k : List ℕ) (now t : ℕ) → now ≤ t → lookup s k t ≡ later (lookup s k now) t
