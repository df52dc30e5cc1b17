-- ===== src/Broker/Backoff.antt =====
-- broker/broker.go: the waits of the loops that accept and that make connections, in milliseconds.
pub mod Bounds
use hmq.Prelude.{
  ℕ, zero, suc, ◌+◌, ◌*◌, Bool, true, false, List, [], ◌∷◌, ◌==◌, nat_eq, ltb, if◌then◌else◌,
}

abbrev pub accept_min_sleep : ℕ
accept_min_sleep = 100

abbrev pub accept_max_sleep : ℕ
accept_max_sleep = 10000

-- What a call of Accept gives: a connection, a temporary error or another one.
pub data Accept : Type 0 where
  accepted temporary failed : Accept

abbrev pub at_most : ℕ → ℕ → ℕ
at_most max delay = if ltb max delay then max else delay

-- The loop of StartClientListening and StartClusterListening, over the results of its calls: the
-- sleeps that it makes, from the delay it has.
unfoldable pub accept_loop : ℕ → List Accept → List ℕ
accept_loop delay [] = []
accept_loop delay (temporary ∷ rs) = delay ∷ accept_loop (at_most accept_max_sleep (delay * 2)) rs
accept_loop delay (failed ∷ rs) = accept_loop delay rs
accept_loop delay (accepted ∷ rs) = accept_loop accept_min_sleep rs

unfoldable pub accept_sleeps : List Accept → List ℕ
unfolding accept_loop
accept_sleeps rs = accept_loop (10 * accept_min_sleep) rs

-- The delay before the next call of Dial
abbrev pub dial_delay : ℕ → ℕ → ℕ
dial_delay max delay = at_most max (if delay == 0 then 1000 else delay * 2)

-- ConnectToDiscovery, over the results of its calls of Dial.
unfoldable pub discovery_loop : ℕ → List Bool → List ℕ
discovery_loop delay [] = []
discovery_loop delay (true ∷ rs) = []
discovery_loop delay (false ∷ rs) =
    let next = dial_delay 20000 delay in next ∷ discovery_loop next rs

-- What a turn of connectRouter meets: a node that is gone, a connection, or an error of Dial.
pub data Attempt : Type 0 where
  gone dialled refused : Attempt

-- The loop of connectRouter, which gives up after a number of retries: its sleeps.
unfoldable pub router_loop : ℕ → ℕ → List Attempt → List ℕ
router_loop delay retries [] = []
router_loop delay retries (gone ∷ rs) = []
router_loop delay retries (dialled ∷ rs) = []
router_loop delay retries (refused ∷ rs) =
    let next = dial_delay 32000 delay in
    let rest = router_loop next (retries + 1) rs in if ltb 50 retries then [] else next ∷ rest
