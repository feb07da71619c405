-- ===== src/Bus/Replay/Examples.antt =====
-- Runs of the replay checks.
use agent_mesh.Common.{
  ℕ, ◌≡◌, refl, false, List, [], ◌∷◌, err, arith, contains, filter, distinct, insert,
}
use agent_mesh.Common.Maps
use agent_mesh.Bus.Replay.Nonces.{
  NonceCache, IsValid, evict, check_and_insert, check_and_insert-IsValid,
}
use agent_mesh.Bus.Replay.Nonces.Window.{offer, accepted_then_refused}
use agent_mesh.Bus.Replay.Tracker.{check_and_advance, accepted, Ascends, accepted-Ascends}

abbrev cache : NonceCache
cache = record { seen = []; order = []; capacity = 2 }

cache-IsValid : IsValid cache
unfolding distinct
cache-IsValid = record { same = λ n. refl; once = refl; bounded = omega arith }

-- A third nonce evicts the first.
evicts : (offer cache (5 ∷ 6 ∷ 7 ∷ [])).order ≡ 6 ∷ 7 ∷ []
unfolding offer check_and_insert evict contains filter insert
evicts = refl

check_and_insert-IsValid_example : IsValid (check_and_insert cache 5).0
check_and_insert-IsValid_example = check_and_insert-IsValid cache 5 cache-IsValid

accepted_then_refused_example :
    let d = offer (check_and_insert cache 5).0 (6 ∷ []) in check_and_insert d 5 ≡ (d, false)
unfolding check_and_insert evict contains filter insert
accepted_then_refused_example =
    accepted_then_refused cache 5 (6 ∷ []) cache-IsValid refl (omega arith)

abbrev calls : List (ℕ × ℕ)
calls = (1, 4) ∷ (2, 9) ∷ (1, 4) ∷ (1, 3) ∷ (1, 6) ∷ []

accepts : accepted 1 [] calls ≡ 4 ∷ 6 ∷ []
unfolding accepted check_and_advance Maps.get Maps.insert
accepts = refl

accepted-Ascends_example : Ascends 0 (accepted 1 [] calls)
unfolding Maps.get
accepted-Ascends_example = accepted-Ascends 1 [] calls

-- A sender at the highest sequence: the sequence expected next wraps around to 0.
wraps : (check_and_advance ((1, 18446744073709551615) ∷ []) 1 7).1 ≡ err (0, 7)
unfolding check_and_advance Maps.get
wraps = refl
