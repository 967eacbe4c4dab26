-- ===== src/Bearer/Middleware/Limiter.antt =====
-- The limit on the goroutines that record the usage of personal access tokens.
use mcp_kit.Prelude.{ℕ, ◌≤◌, ◌<◌, String, arith, [], length, nat_eq, if◌then◌else◌}
use mcp_kit.Bearer.Middleware.{Recorders, record_pat_usage, release}

-- Requests begin a recording at any time, and each that was begun ends once.
pub data Step (max_usage_recorders : ℕ) (l : Recorders) : Recorders → Type 0 where
  begin :
      (token_id : String)
      → Step max_usage_recorders l (record_pat_usage max_usage_recorders token_id l)
  finish : 0 < l.in_use → Step max_usage_recorders l (release l)

pub data Reach (max_usage_recorders : ℕ) : Recorders → Type 0 where
  start : Reach max_usage_recorders (record { in_use = 0; recorded = [] })
  next :
      {l m : Recorders}
      → Reach max_usage_recorders l
      → Step max_usage_recorders l m
      → Reach max_usage_recorders m

-- At no time do more goroutines record a usage than the configuration allows, 32 if it names no
-- number, and each of them records one that was begun.
pub Reach-in_use-le :
    {max_usage_recorders : ℕ} {l : Recorders}
    → Reach max_usage_recorders l
    → (l.in_use ≤ (if nat_eq max_usage_recorders 0 then 32 else max_usage_recorders))
      × (l.in_use ≤ length l.recorded)
unfolding record_pat_usage release
Reach-in_use-le start = (ground arith, ground arith)
Reach-in_use-le (next r (begin t)) = let h = Reach-in_use-le r in (ground arith, ground arith)
Reach-in_use-le (next r (finish p)) = let h = Reach-in_use-le r in (ground arith, ground arith)
