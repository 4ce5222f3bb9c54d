-- ===== src/Request/Codes.antt =====
-- The `i16` codes of the columns (validity/src/db/types.rs).
use mina_evm_l.Prelude.{ℕ, ◌≡◌, ◌↔◌, some, arith}
use mina_evm_l.Request.{
  RequestStatus, RequestType, RequestMode, status_code, status_of_code, type_code, type_of_code,
  mode_code, mode_of_code,
}

-- A code is read as a status, type or mode exactly when it is the code written for it; so reading what
-- was written gives it back.
pub codes_roundtrip :
    ((n : ℕ) (s : RequestStatus) → (status_of_code n ≡ some s) ↔ (n ≡ status_code s))
    × ((n : ℕ) (t : RequestType) → (type_of_code n ≡ some t) ↔ (n ≡ type_code t))
    × ((n : ℕ) (m : RequestMode) → (mode_of_code n ≡ some m) ↔ (n ≡ mode_code m))
unfolding status_of_code type_of_code mode_of_code mode_code
codes_roundtrip = (
  λ n s. (λ h. ground arith, λ e. rw e (status-read s)),
  λ n t. (λ h. ground arith, λ e. rw e (type-read t)),
  λ n m. (λ h. ground arith, λ e. rw e (mode-read m)),
)
  where
    status-read : (s : RequestStatus) → status_of_code (status_code s) ≡ some s
    status-read s = ground arith

    type-read : (t : RequestType) → type_of_code (type_code t) ≡ some t
    type-read t = ground arith

    mode-read : (m : RequestMode) → mode_of_code (mode_code m) ≡ some m
    mode-read m = ground arith
