-- ===== src/Modules/Versioning/Tests.antt =====
-- The versions of a checkpoint at concrete sets, and the theorems at them.
use veloc.Base.{◌≡◌, refl, ◌⊎◌, true, false, none, List, [], ◌∷◌, drop, take, length, ◌-◌, arith}
use veloc.Base.Int.{ℤ, pos, ◌==ℤ◌}
use veloc.Base.IntMap.{find, insert}
use veloc.FileUtil.{Walk, returned}
use veloc.Storage.{VersionSet}
use veloc.Queue.{ignored}
use veloc.Modules.Versioning.{trim, latest, set_union, descending, lower_bound}
use veloc.Modules.Versioning.Trim.{visit_all, state_of, trim_exact, trim_lost}
use veloc.Modules.Versioning.Latest.{Has, Fits, IsLatest, latest_lem}

abbrev recorded : VersionSet
recorded = (pos 10, tt) ∷ (pos 20, tt) ∷ (pos 30, tt) ∷ []

-- A removal that keeps a list of what it removed.
abbrev log : ℤ → List ℤ → Walk (List ℤ)
log v s = returned true (v ∷ s)

two_kept :
    trim log 2 recorded []
    ≡ record { versions = (pos 20, tt) ∷ (pos 30, tt) ∷ []; state = pos 10 ∷ []; escaped = false }
unfolding trim
two_kept = refl

up_to_25 : latest (pos 25) (set_union recorded ((pos 22, tt) ∷ [])) ≡ pos 22
unfolding latest set_union lower_bound descending insert ◌==ℤ◌
up_to_25 = refl

no_such : latest (pos 5) recorded ≡ ignored
unfolding latest lower_bound descending ◌==ℤ◌
no_such = refl

trim_exact_example :
    ((trim log 2 recorded []).versions ≡ drop (length recorded - 2) recorded)
    × ((trim log 2 recorded []).state ≡ visit_all log (take (length recorded - 2) recorded) [])
unfolding trim
trim_exact_example = trim_exact log 2 recorded [] refl

trim_lost_example :
    (find (pos 5) (trim log 2 (insert (pos 5) tt recorded) []).versions ≡ none)
    × ((r : VersionSet) × ((trim log 2 (insert (pos 5) tt recorded) []).state
          ≡ visit_all log r (state_of (log (pos 5) []))))
unfolding trim insert ◌==ℤ◌
trim_lost_example =
    trim_lost log 2 (omega arith) (pos 5) recorded []
      (omega arith, (omega arith, (omega arith, tt))) (omega arith) refl

latest_lem_example :
    IsLatest
      (pos 25)
      recorded
      ((pos 22, tt) ∷ [])
      (latest (pos 25) (set_union recorded ((pos 22, tt) ∷ [])))
    ⊎ ((latest (pos 25) (set_union recorded ((pos 22, tt) ∷ [])) ≡ ignored)
        × ((w : ℤ) → Has w recorded ⊎ Has w ((pos 22, tt) ∷ []) → ¬ Fits (pos 25) w))
latest_lem_example = latest_lem (pos 25) recorded ((pos 22, tt) ∷ []) tt
