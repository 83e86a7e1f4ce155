-- ===== src/K8s/Client.antt =====
-- The typed clients of client-go that the helpers take: each call is a request and its answer.
use nativestor.Prelude.{String, Bool, false}
use nativestor.Errors.{Error, Result, ok, err}
use nativestor.Api.{Api}

pub record Client (E O : Type 0) : Type 0 where
  pub get : String → Api E O
  pub create : O → Api E O
  pub update : O → Api E O
  -- the patch that leads from the first object to the second
  pub patch : O → O → Api E O
  pub delete : String → Api E (Unit {0})

-- Whether a call returned an error, and one that the test holds of.
abbrev pub fails_with {κ} : {A : Type κ} → (Error → Bool) → Result A → Bool
fails_with test (ok a) = false
fails_with test (err e) = test e
