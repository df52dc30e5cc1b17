-- ===== src/Pool/Workers.antt =====
-- pool/fixpool.go: Submit's index, and the lengths of the channels.
use native.Mathlib.Nat.{mod-lt}
use hmq.Prelude.{
  inl, inr, ℕ, ◌+◌, ◌<◌, ◌≤◌, ◌≡◌, ◌≢◌, subst, true, Option, none, some, List, [], ◌∷◌, ◌++◌, Bytes,
  length, length-append, Bool-cases, some_inj, ◌==◌, nat_eq, ltb, arith,
}
use hmq.Pool.{
  WorkerPool, put, new, index, submit, run_first, run_worker, capacity, Reachable, started,
  submitted_to, ran,
}

refused {ℓ} : {A : Type ℓ} (q : A) → none ≢ some q
refused q = λ e. cc

module _ {ℓ} {A : Type ℓ} where
  -- There is a worker, and no channel holds more than its capacity.
  pub record IsBounded (p : WorkerPool A) : Type ℓ where
    pub workers : 0 < p.max_workers
    pub queues : (i : ℕ) → length (p.task_queue i) ≤ capacity

  length-put :
      (i j : ℕ) (xs : List (Bytes × A)) (f : ℕ → List (Bytes × A))
      → length xs ≤ capacity
      → length (f j) ≤ capacity
      → length (put i xs f j) ≤ capacity
  length-put i j xs f h k = elim (Bool-cases (i == j)) [ inl b ↦ rw b h | inr b ↦ rw b k ]

  new-IsBounded : (n : ℕ) → IsBounded (new {A = A} n)
  unfolding new
  new-IsBounded n = record { workers = ground arith; queues = λ i. omega arith }

  submit-IsBounded :
      (hash : Bytes → ℕ) (p q : WorkerPool A) (uid : Bytes) (task : Option A)
      → IsBounded p
      → submit hash uid task p ≡ some q
      → IsBounded q
  unfolding submit
  submit-IsBounded hash p q uid none h e = subst IsBounded (some_inj e) h
  submit-IsBounded hash p q uid (some task) h e =
      let k = index hash p uid in
      elim (Bool-cases (ltb (length (p.task_queue k)) capacity)) [
        | inl b ↦ subst IsBounded (some_inj (rw b at e)) (record {
          workers = h.workers;
          queues = λ i.
              length-put k i (p.task_queue k ++ (uid, task) ∷ []) p.task_queue
                (room (length (p.task_queue k)) b
                  (length-append (p.task_queue k) ((uid, task) ∷ [])))
                (h.queues i);
        })
        | inr b ↦ absurd (refused q (rw b at e))
      ]
    where
      room : (n : ℕ) {m : ℕ} → ltb n capacity ≡ true → m ≡ n + 1 → m ≤ capacity
      room n b e = ground arith

  run_first-IsBounded :
      (p q : WorkerPool A) (i : ℕ) (queue : List (Bytes × A))
      → length queue ≤ capacity
      → IsBounded p
      → run_first i p queue ≡ some q
      → IsBounded q
  run_first-IsBounded p q i [] l h e = absurd (refused q e)
  run_first-IsBounded p q i (task ∷ queue) l h e = subst IsBounded (some_inj e) (record {
    workers = h.workers;
    queues = λ j. length-put i j queue p.task_queue (omega arith) (h.queues j);
  })

  Reachable-IsBounded :
      (hash : Bytes → ℕ) (max_workers : ℕ) (p : WorkerPool A)
      → Reachable hash max_workers p
      → IsBounded p
  unfolding run_worker
  Reachable-IsBounded hash max_workers p started = new-IsBounded max_workers
  Reachable-IsBounded hash max_workers p (submitted_to p' q uid task r e) =
      submit-IsBounded hash p' p uid task (Reachable-IsBounded hash max_workers p' r) e
  Reachable-IsBounded hash max_workers p (ran p' q i r e) =
      let h = Reachable-IsBounded hash max_workers p' r in
      run_first-IsBounded p' p i (p'.task_queue i) (h.queues i) h e

  -- In whatever order the clients submit and the workers run, for any number given to New: the
  -- index that Submit computes for a client is that of a worker, and no channel holds more tasks
  -- than its capacity.
  pub index-Reachable :
      (hash : Bytes → ℕ) (max_workers : ℕ) (p : WorkerPool A) (uid : Bytes) (i : ℕ)
      → Reachable hash max_workers p
      → (index hash p uid < p.max_workers) × (length (p.task_queue i) ≤ capacity)
  unfolding index
  index-Reachable hash max_workers p uid i r =
      let h = Reachable-IsBounded hash max_workers p r in (mod-lt (hash uid) h.workers, h.queues i)
