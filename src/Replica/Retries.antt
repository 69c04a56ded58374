-- ===== src/Replica/Retries.antt =====
-- At which epochs src/server/src/node/replica/retry.rs executes a request.
use engula.Error.{Error, Result}
use engula.Prelude.{none, true, Bool, List, Option, [], ok, some, ℕ, ◌∷◌, ◌≡◌, ◌⊎◌}
use engula.Replica.{ExecCtx, Request, Response}
use engula.Replica.Retry.{fresh_error, is_executable, GroupResponse, forwarded, respond, retried}
use engula.Meta.{Bytes, ForwardCtx, GroupDesc}

-- Some element has a property.
abbrev pub Exists : {A : Type 0} → (A → Type 0) → List A → Type 0
Exists P [] = ⊥
Exists P (x ∷ xs) = P x ⊎ Exists P xs

module _ (crc32 : Bytes → ℕ) (checks : Bool)
    (ctrl : Option (ForwardCtx → Request → Result Response)) (descriptor : GroupDesc) where
  -- What an answer after one attempt comes from.
  Source :
      Result Response
      → ExecCtx
      → Option GroupDesc
      → Request
      → (ExecCtx → Option GroupDesc → Option (Result GroupResponse))
      → GroupResponse
      → Type 0
  Source o ctx fresh req again r =
      ((o ≡ ok r.response) × (r ≡ respond fresh r.response))
      ⊎ ((fwd : ForwardCtx) × (forwarded ctrl fwd req ≡ ok r))
      ⊎ (again ctx fresh ≡ some (ok r))
      ⊎ ((desc : GroupDesc) × (next : ExecCtx) × (retried crc32 checks desc ctx req ≡ ok next)
          × (again next (some desc) ≡ some (ok r)))

  -- Where the loop stands: at the epoch it started with, or at that of the last descriptor, which
  -- has the shard that the request is for.
  unfoldable pub IsAt : ℕ → ℕ → Option GroupDesc → Request → Type 0
  IsAt start epoch none req = epoch ≡ start
  IsAt start epoch (some desc) req = (epoch ≡ desc.epoch) × (is_executable crc32 desc req ≡ ok true)

  -- Where an answer comes from: an attempt at the epoch of the request, or at that of the descriptor
  -- which the answer then carries, or the group to which the request was forwarded.
  unfoldable pub IsAnswer : List (ExecCtx → Result Response) → ℕ → Request → GroupResponse → Type 0
  unfolding IsAt
  IsAnswer attempts start req r =
      ((c : ExecCtx) × (fresh : Option GroupDesc) × IsAt start c.epoch fresh req
        × (r.error ≡ fresh_error fresh)
        × Exists (λ a. a c ≡ ok r.response) attempts)
      ⊎ ((fwd : ForwardCtx) × (forwarded ctrl fwd req ≡ ok r))
