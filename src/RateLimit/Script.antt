-- ===== src/RateLimit/Script.antt =====
-- sliding-window.lua, as evalSlidingWindow (sliding-window.ts) runs it: one atomic script.
use convene.Common.{ℕ, ◌+◌, Bool, true, false, List, length, ltb, if◌then◌else◌}
use convene.RateLimit.Window.{Member, SortedSets}
pub mod Refines

pub record SlidingWindowResult : Type 0 where
  pub allowed : Bool
  pub total : ℕ

module _ (r : SortedSets) where
  open r use {Store, zset, zremrangebyscore, zadd, pexpire}

  unfoldable pub eval_sliding_window : List ℕ → ℕ → ℕ → ℕ → ℕ → Store → SlidingWindowResult × Store
  eval_sliding_window key now window limit member s =
      let kept = zremrangebyscore s key window now in
      let total = length (zset kept key now) in
      if ltb total limit
      then (
        record { allowed = true; total = total + 1 },
        pexpire (zadd kept key (record { score = now; member = member }) now) key window now,
      )
      else (record { allowed = false; total = total }, kept)
