-- ===== src/Pool.antt =====
-- pool/fixpool.go: the pool of workers that handles the clients' messages.
pub mod Order
pub mod Workers
use hmq.Prelude.{
  ℕ, ◌%◌, ◌<◌, ◌≡◌, Bool, true, false, Option, none, some, List, [], ◌∷◌, ◌++◌, Bytes, ◌==◌, nat_eq,
  ltb, if◌then◌else◌, length,
}

-- The workers' channels by the worker's index. `executed` holds what each worker has run and
-- `submitted` what the pool has been given, in order: a task goes with its client's identifier.
pub record WorkerPool {ℓ} (A : Type ℓ) : Type ℓ where
  pub max_workers : ℕ
  pub task_queue : ℕ → List (Bytes × A)
  pub executed : ℕ → List (Bytes × A)
  pub submitted : List (Bytes × A)

-- The capacity of a channel
abbrev pub capacity : ℕ
capacity = 1024

module _ {ℓ} {B : Type ℓ} where
  abbrev pub put : ℕ → B → (ℕ → B) → ℕ → B
  put i x f j = if i == j then x else f j

module _ {ℓ} {A : Type ℓ} where
  -- New; a number that is not positive is 0 here.
  unfoldable pub new : ℕ → WorkerPool A
  new max_workers = record {
    max_workers = if ltb max_workers 1 then 1 else max_workers;
    task_queue = λ i. [];
    executed = λ i. [];
    submitted = [];
  }

  -- The hash fnv1a.HashString64 is a parameter.
  module _ (hash : Bytes → ℕ) where
    unfoldable pub index : WorkerPool A → Bytes → ℕ
    index p uid = hash uid % p.max_workers

    -- The sender waits (`none`) while the channel is full. A nil task is `none`.
    unfoldable pub submit : Bytes → Option A → WorkerPool A → Option (WorkerPool A)
    unfolding index
    submit uid none p = some p
    submit uid (some task) p =
        let idx = index p uid in
        let queue = p.task_queue idx in
        if ltb (length queue) capacity
        then some (record p {
          task_queue = put idx (queue ++ (uid, task) ∷ []) p.task_queue;
          submitted = p.submitted ++ (uid, task) ∷ [];
        })
        else none

  -- A turn of the loop of startWorker, which waits (`none`) while the channel is empty.
  abbrev pub run_first : ℕ → WorkerPool A → List (Bytes × A) → Option (WorkerPool A)
  run_first i p [] = none
  run_first i p (task ∷ queue) = some (record p {
    task_queue = put i queue p.task_queue;
    executed = put i (p.executed i ++ task ∷ []) p.executed;
  })

  unfoldable pub run_worker : ℕ → WorkerPool A → Option (WorkerPool A)
  run_worker i p = run_first i p (p.task_queue i)

  -- What the clients and the workers do, in any order.
  pub data Reachable (hash : Bytes → ℕ) (max_workers : ℕ) : WorkerPool A → Type ℓ where
    started : Reachable hash max_workers (new max_workers)
    submitted_to :
        (p q : WorkerPool A) (uid : Bytes) (task : Option A)
        → Reachable hash max_workers p
        → submit hash uid task p ≡ some q
        → Reachable hash max_workers q
    ran :
        (p q : WorkerPool A) (i : ℕ)
        → Reachable hash max_workers p
        → run_worker i p ≡ some q
        → Reachable hash max_workers q
