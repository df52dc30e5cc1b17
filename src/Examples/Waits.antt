-- ===== src/Examples/Waits.antt =====
-- broker/broker.go and broker/client.go: waits, and the groups of shared subscriptions.
use hmq.Prelude.{◌≡◌, ◌≤◌, ◌↔◌, refl, some, [], ◌∷◌, Memᴰ, codes, length}
use hmq.Broker.Auth.{find_group}
use hmq.Broker.Auth.Groups.{IsShare, share_text, find_group_iff}
use hmq.Broker.Backoff.{
  accept_min_sleep, accept_max_sleep, temporary, accepted, accept_sleeps, refused, router_loop,
}
use hmq.Broker.Backoff.Bounds.{accept_sleeps-Within, router_loop-Bounded}

second_sleep : Memᴰ 2000 (accept_sleeps (temporary ∷ temporary ∷ accepted ∷ []))
unfolding accept_sleeps
second_sleep = Memᴰ.tail (Memᴰ.head refl)

accept_sleeps-Within_example : (accept_min_sleep ≤ 2000) × (2000 ≤ accept_max_sleep)
accept_sleeps-Within_example =
    accept_sleeps-Within (temporary ∷ temporary ∷ accepted ∷ []) 2000 second_sleep

router_loop-Bounded_example : length (router_loop 0 0 (refused ∷ refused ∷ [])) ≤ 51
router_loop-Bounded_example = router_loop-Bounded (refused ∷ refused ∷ [])

find_group_iff_example : (find_group (codes "$share/g1/a/b") ≡ some (codes "g1", codes "a/b")) ↔ (
    (codes "$share/g1/a/b" ≡ share_text (codes "g1") (codes "a/b"))
    × IsShare (codes "g1") (codes "a/b"))
find_group_iff_example = find_group_iff (codes "$share/g1/a/b") (codes "g1") (codes "a/b")
