-- ===== src/Error/Predicates.antt =====
-- What the predicates of `src/error.rs` say of an error.
use rociadb_core_sdk_rust.Prelude.{
  ℕ, ◌+◌, ◌≤◌, ◌≡◌, Bool, true, Option, none, some, arith, if◌then◌else◌,
}
use rociadb_core_sdk_rust.Error.{
  Code, Error, same_code, status, reason, is_unauthenticated, is_permission_denied,
  is_already_exists, is_aborted, is_not_found, is_invalid_argument,
}

-- Two codes with one number are one code.
pub same_code-eq : (o : Option Code) (c : Code) → same_code o c ≡ true → o ≡ some c
same_code-eq none c h = cc
same_code-eq (some d) c h = ground arith

abbrev tally : Bool → ℕ
tally b = if b then 1 else 0

-- How many of the six predicates hold of an error.
abbrev pub held : Error → ℕ
held e =
    tally (is_unauthenticated e)
    + tally (is_permission_denied e)
    + tally (is_already_exists e)
    + tally (is_aborted e)
    + tally (is_not_found e)
    + tally (is_invalid_argument e)

-- At most one of the six predicates holds of an error, and one of them only of an error that
-- carries a gRPC status.
pub predicates_exclusive :
    (e : Error) → (held e ≤ 1) × (status e ≡ none → (held e ≡ 0) × (reason e ≡ none))
unfolding is_unauthenticated is_permission_denied is_already_exists is_aborted is_not_found
    is_invalid_argument status reason
predicates_exclusive e = ground arith
