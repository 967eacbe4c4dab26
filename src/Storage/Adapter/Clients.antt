-- ===== src/Storage/Adapter/Clients.antt =====
-- Which client the adapter answers with.
use mcp_kit.Prelude.{String, ◌≡◌, ◌↔◌, ◌⊎◌, inl, inr, refl, arith, Option, none, some}
use mcp_kit.Storage.Types.{Client, Result, ok, err, not_found, failed, Store}
use mcp_kit.Storage.Adapter.{answer, Resolution, resolved, get_client}

Result-cases :
    {A : Type 0} (r : Result A)
    → ((a : A) × (r ≡ ok a)) ⊎ (r ≡ err not_found) ⊎ ((why : String) × (r ≡ err (failed why)))
Result-cases (ok a) = inl (a, refl)
Result-cases (err not_found) = inr (inl refl)
Result-cases (err (failed why)) = inr (inr (why, refl))

module _ {S : Type 0} (store : Store S) (id : String) (s : S) where
  -- The adapter answers with a client exactly when the store holds it, or the store lacks the
  -- identifier and there is a resolver, which resolves it: a registered client always wins.
  pub get_client-eq-answer_iff :
      (resolver : Option (String → Resolution)) (c : Client)
      → (get_client store resolver id s ≡ answer c) ↔ (
          (store.get_client id s ≡ ok c)
          ⊎ ((store.get_client id s ≡ err not_found)
              × ((f : String → Resolution) × (resolver ≡ some f) × (f id ≡ resolved c))))
  unfolding get_client
  get_client-eq-answer_iff none c = (λ h. ground arith, λ h. ground arith)
  get_client-eq-answer_iff (some f) c = (
    λ h. elim (Result-cases (store.get_client id s)) [
      | inl (c', e) ↦ inl (ground arith)
      | inr (inl e) ↦ inr (e, (f, refl, ground arith))
      | inr (inr (why, e)) ↦ absurd (ground arith)
    ],
    λ h. ground arith,
  )
