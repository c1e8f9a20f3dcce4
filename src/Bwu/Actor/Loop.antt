-- ===== src/Bwu/Actor/Loop.antt =====
-- bwu/actor.rs: the runs of the loop against the steps of Trace.
use nearby_rs.Prelude.{
  ℕ, ◌≡◌, refl, true, false, some, List, [], ◌∷◌, ◌++◌, str_eq, ◌>>=◌, is_empty, ◌||◌,
}
use nearby_rs.Prelude.Map.{Map}
use nearby_rs.Bwu.Client
use nearby_rs.Bwu.Platform.{Platform}
use nearby_rs.Bwu.Actor.{BwuActor}
use nearby_rs.Bwu.Actor.Reachable.{Reachable}
use nearby_rs.Bwu.Actor.Run.{BwuMessage, Arrival, Loop, turn, turns}
use nearby_rs.Bwu.Actor.Trace.{IsRun}

module _ (p : Platform) (fuel : ℕ) where
  pub turns-nil : (l : Loop p) → turns p fuel [] l ≡ some l
  unfolding turns
  turns-nil l = refl

  pub turns-stopped :
      (e : Arrival) (script : List Arrival) (l : Loop p)
      → l.stopped ≡ true
      → turns p fuel (e ∷ script) l ≡ some l
  unfolding turns
  turns-stopped e script l s = rw s refl

  pub turns-going :
      (e : Arrival) (script : List Arrival) (l : Loop p)
      → l.stopped ≡ false
      → turns p fuel (e ∷ script) l ≡ (turn p fuel e l >>= λ l'. turns p fuel script l')
  unfolding turns
  turns-going e script l s = rw s refl

  -- What has come in by some turns.
  abbrev pub arrivals : List Arrival → List BwuMessage
  arrivals [] = []
  arrivals (e ∷ script) = e.messages ++ arrivals script

  -- The run took the first turns of the script, all of them if it has not ended.
  abbrev pub IsRunOf : BwuActor p → List BwuMessage → List Arrival → Loop p → Type 0
  IsRunOf a₀ before script l =
      (taken : List Arrival) × (left : List Arrival) × (script ≡ taken ++ left)
      × (is_empty left || l.stopped ≡ true)
      × IsRun p fuel a₀ (before ++ arrivals taken) l
