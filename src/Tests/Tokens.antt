-- ===== src/Tests/Tokens.antt =====
-- The token review of the datastore, at a concrete request.
use burrito.Base.{String, ◌≡◌, refl, true, [], ◌==◌, inl, inr, Bool-cases, arith}
use burrito.Base.Dict.{Dict, lookup, insert, lookup-insert}
use burrito.Base.Effect.{ok}
use burrito.Authz.{Authz, Cluster, add_service_account, is_service_account_allowed, process}
use burrito.Authz.Allowed.{CacheLaws, start, request, passed_user_is_allowed}

abbrev authz : Authz
authz =
    add_service_account "team" "burrito-runner"
      (record { audience = "burrito"; service_accounts = [] })

-- Tokens are the users' names.
abbrev reviews : Cluster
reviews = record {
  State = Dict String;
  get = λ s token. lookup token s;
  set = insert;
  review = λ s token audience. ok (true, token);
}

reviews-CacheLaws : CacheLaws reviews
reviews-CacheLaws = record {
  found = λ s token user at v h. elim (Bool-cases (token == at)) [
    | inl same ↦ inl (grind (arith, lookup-insert token at user s, same, h))
    | inr other ↦ inr (grind (arith, lookup-insert token at user s, other, h))
  ];
}

abbrev runner : String
runner = "system:serviceaccount:team:burrito-runner"

passed_user_is_allowed_example : is_service_account_allowed authz.service_accounts runner ≡ true
unfolding process lookup insert add_service_account
passed_user_is_allowed_example =
    passed_user_is_allowed authz reviews reviews-CacheLaws []
      (process authz reviews "mallory" (process authz reviews runner []).1).1 runner runner
      (λ at. refl)
      (request (process authz reviews runner []).1 "mallory" (request [] runner (start []))) refl
