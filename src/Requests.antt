-- ===== src/Requests.antt =====
-- src/req_aggr/mod.rs: the pool of client requests that the next proposal takes. The pool is behind
-- a mutex, so each round of the aggregator's thread and each call is one step.
pub mod Flow
use mathlib.Core.List.{foldl, flatten}
use hot_iron_oxide.Base.{List, [], ◌++◌, ◌∷◌}
use hot_iron_oxide.Atlas.{Atlas}

module _ ⦃atlas : Atlas⦄ where
  open atlas use {
    Request, request_digest, Digest, digest_bytes, digest_default, Context, context_new,
    context_update, context_finish,
  }

  -- `current_pool`
  pub record Pool : Type 0 where
    pub requests : List Request
    pub digest : Digest

  abbrev pub default_pool : Pool
  default_pool = record { requests = []; digest = digest_default }

  absorb : Context → List Request → Context
  absorb context [] = context
  absorb context (r ∷ rs) = absorb (context_update context (digest_bytes (request_digest r))) rs

  unfoldable pub calculate_digest_for : List Request → Digest
  unfolding absorb
  calculate_digest_for stored = context_finish (absorb context_new stored)

  drain : List Request → List (List Request) → List Request
  drain current_result [] = current_result
  drain current_result (batch ∷ batches) = drain (current_result ++ batch) batches

  -- A round of `run`: one batch is received, and the further ones that are there.
  unfoldable pub run_round : Pool → List Request → List (List Request) → Pool
  unfolding drain
  run_round pool first more =
      let requests = pool.requests ++ drain first more in
      record { requests = requests; digest = calculate_digest_for requests }

  -- `take_pool_requests`: what it returns, and the pool it leaves.
  unfoldable pub take_pool_requests : Pool → Pool × Pool
  take_pool_requests pool = (pool, default_pool)
