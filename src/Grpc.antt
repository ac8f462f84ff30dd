-- ===== src/Grpc.antt =====
-- src/grpc.rs: the envelopes of the binary protocol, and its statuses. The encodings are those of another
-- package.
use xfiles.Prelude.{ℕ, List, [], ◌∷◌, nat_eq, ◌==◌, if◌then◌else◌, Text}

pub record GrpcRequest : Type 0 where
  pub method : Text
  pub headers : List (Text × Text)
  pub body : List ℕ

pub data GrpcStatus : Type 0 where
  ok cancelled unknown invalid_argument deadline_exceeded not_found already_exists : GrpcStatus
  permission_denied resource_exhausted failed_precondition aborted out_of_range : GrpcStatus
  unimplemented internal unavailable data_loss unauthenticated : GrpcStatus

pub record GrpcResponse : Type 0 where
  pub status : GrpcStatus
  pub headers : List (Text × Text)
  pub body : List ℕ
  pub trailers : List (Text × Text)

-- The arms of a `match` on a number, the first that fits.
abbrev first_arm : ℕ → List (ℕ × GrpcStatus) → GrpcStatus
first_arm status [] = unknown
first_arm status ((code, s) ∷ arms) =
    let rest = first_arm status arms in if status == code then s else rest

abbrev pub from_http_status : ℕ → GrpcStatus
from_http_status status = first_arm status (
    (200, ok)
    ∷ (400, invalid_argument)
    ∷ (401, unauthenticated)
    ∷ (403, permission_denied)
    ∷ (404, not_found)
    ∷ (409, already_exists)
    ∷ (429, resource_exhausted)
    ∷ (499, cancelled)
    ∷ (500, internal)
    ∷ (501, unimplemented)
    ∷ (503, unavailable)
    ∷ (504, deadline_exceeded)
    ∷ [])
