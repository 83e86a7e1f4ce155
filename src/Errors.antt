-- ===== src/Errors.antt =====
-- The error values of the program: those of errors.New and fmt.Errorf, of a command that exits with a
-- status, of gRPC (google.golang.org/grpc/status) and of the Kubernetes API; `wrapped` is errors.Wrap. A message that the
-- program formats stands as its format.
use Prim.Native.String.{◌++◌}
use nativestor.Prelude.{ℕ, String, ◌≡◌, refl, Bool, true, false}

-- google.golang.org/grpc/codes, those that the driver uses
pub data Code : Type 0 where
  invalid_argument internal resource_exhausted not_found unimplemented : Code

-- the reason of an API error (k8s.io/apimachinery/pkg/api/errors)
pub data Reason : Type 0 where
  missing already_exists conflict invalid other_reason : Reason

pub data Error : Type 0 where
  plain : String → Error
  exited : ℕ → String → Error
  grpc : Code → String → Error
  api : Reason → String → Error
  wrapped : String → Error → Error

-- What a function with a result and an `error` returns.
pub data Result {ℓ} (A : Type ℓ) : Type ℓ where
  ok : A → Result A
  err : Error → Result A

-- `if err != nil { return err }`, and on with the value.
infixl 5 ◌>>=◌
abbrev pub ◌>>=◌ {ℓ κ} :
    {Value : Type ℓ} {Next : Type κ} → Result Value → (Value → Result Next) → Result Next
◌>>=◌ (err failure) _ = err failure
◌>>=◌ (ok value) continue = continue value

-- A chain that succeeds has passed its first step.
pub >>=-eq-ok {ℓ κ} :
    {Value : Type ℓ} {Next : Type κ} (step : Result Value) (continue : Value → Result Next)
    {last : Next}
    → ◌>>=◌ step continue ≡ ok last
    → (value : Value) × (step ≡ ok value) × (continue value ≡ ok last)
>>=-eq-ok (err failure) continue e = cc
>>=-eq-ok (ok value) continue e = (value, refl, e)

-- The name of a code, as google.golang.org/grpc/codes prints it.
abbrev code_name : Code → String
code_name invalid_argument = "InvalidArgument"
code_name internal = "Internal"
code_name resource_exhausted = "ResourceExhausted"
code_name not_found = "NotFound"
code_name unimplemented = "Unimplemented"

-- `err.Error()`: that of a gRPC status has its code before its description, and that of errors.Wrap
-- the error that it wraps behind it.
abbrev pub message : Error → String
message (plain s) = s
message (exited n s) = s
message (grpc c s) = "rpc error: code = " ++ (code_name c ++ (" desc = " ++ s))
message (api r s) = s
message (wrapped s e) = s ++ (": " ++ message e)

-- The tests of the libraries on an error: whether it is a gRPC status (the second result of
-- status.FromError), and IsNotFound and IsAlreadyExists of k8s.io/apimachinery/pkg/api/errors.
pub record ErrorTests : Type 0 where
  pub is_status : Error → Bool
  pub is_not_found : Error → Bool
  pub is_already_exists : Error → Bool

-- What their documentation says: each test passes exactly the errors of its own library.
pub record IsDocumented (t : ErrorTests) : Type 0 where
  pub status_grpc : (c : Code) (s : String) → t.is_status (grpc c s) ≡ true
  pub not_found_grpc : (c : Code) (s : String) → t.is_not_found (grpc c s) ≡ false
  pub not_found_plain : (s : String) → t.is_not_found (plain s) ≡ false
  pub not_found_api : (s : String) → t.is_not_found (api missing s) ≡ true
  pub already_exists_api : (s : String) → t.is_already_exists (api already_exists s) ≡ true
