-- ===== src/Backend/Outcome.antt =====
-- What an operation of a service returns: a value, or the code of the DomainError that it throws;
-- with the store that it leaves, since a write before a throw stays. `range_error` is the platform's
-- RangeError for a time that no Date holds.
use ajar_family.Backend.Store.{MemoryStore}

pub data ErrorCode : Type 0 where
  bad_request unauthorized forbidden not_found conflict gone service_unavailable range_error :
      ErrorCode

pub data Outcome (A : Type 0) : Type 0 where
  done : A → MemoryStore → Outcome A
  failed : ErrorCode → MemoryStore → Outcome A

abbrev pub state : {A : Type 0} → Outcome A → MemoryStore
state (done a s) = s
state (failed c s) = s
