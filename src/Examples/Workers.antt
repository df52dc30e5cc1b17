-- ===== src/Examples/Workers.antt =====
-- pool/fixpool.go: two tasks of one client.
use hmq.Prelude.{◌≡◌, refl, ℕ, some, [], ◌∷◌, Bytes, codes, length}
use hmq.Pool.{WorkerPool, put, new, index, submit, run_worker, started, submitted_to, ran}
use hmq.Prelude.{◌<◌, ◌≤◌}
use hmq.Pool.{capacity}
use hmq.Pool.Workers.{index-Reachable}
use hmq.Pool.Order.{InOrder, Reachable-InOrder}

abbrev lamp : Bytes
lamp = codes "lamp"

abbrev first : WorkerPool ℕ
first = record {
  max_workers = 2;
  task_queue = put 0 ((lamp, 5) ∷ []) (λ i. []);
  executed = λ i. [];
  submitted = (lamp, 5) ∷ [];
}

abbrev second : WorkerPool ℕ
second = record {
  max_workers = 2;
  task_queue = put 0 [] (put 0 ((lamp, 5) ∷ []) (λ i. []));
  executed = put 0 ((lamp, 5) ∷ []) (λ i. []);
  submitted = (lamp, 5) ∷ [];
}

submits : submit length lamp (some 5) (new 2) ≡ some first
unfolding submit new
submits = refl

runs : run_worker 0 first ≡ some second
unfolding run_worker
runs = refl

Reachable-InOrder_example : InOrder length second lamp
Reachable-InOrder_example =
    Reachable-InOrder length 2 second lamp
      (ran first second 0 (submitted_to (new 2) first lamp (some 5) started submits) runs)

index-Reachable_example :
    (index length second lamp < second.max_workers) × (length (second.task_queue 0) ≤ capacity)
index-Reachable_example =
    index-Reachable length 2 second lamp 0
      (ran first second 0 (submitted_to (new 2) first lamp (some 5) started submits) runs)
