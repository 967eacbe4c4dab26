-- ===== src/Storage/Adapter/Outcomes.antt =====
-- How the adapter passes on what an operation of the store returns.
use mcp_kit.Prelude.{◌≡◌, refl}
use mcp_kit.Storage.Types.{Result, ok, err}
use mcp_kit.Storage.Adapter.{answer, done}

module _ {S : Type 0} where
  pub done-state : (p : Result (Unit {0}) × S) → (done p).1 ≡ p.1
  done-state (ok tt, s) = refl
  done-state (err e, s) = refl

  pub done_of_ok : (p : Result (Unit {0}) × S) → p.0 ≡ ok tt → done p ≡ (answer tt, p.1)
  done_of_ok (ok tt, s) h = refl
  done_of_ok (err e, s) h = cc
