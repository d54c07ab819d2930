-- ===== src/Modules/Manager.antt =====
-- module_manager_t of src/modules/module_manager.cpp and module_manager.hpp: every request goes
-- through the modules in turn.
use veloc.Base.{◌≡◌, ◌≢◌, refl, true, false, List, [], ◌∷◌, ◌++◌, inl, inr, Bool-cases, All}
use veloc.Base.Int.{ℤ, ◌==ℤ◌, ==ℤ_iff, ==ℤ_refl, max_ℤ}
use veloc.Command.{Command}
use veloc.Queue.{failure, ignored}

-- A module's process_command over the state of all the modules.
abbrev pub Method : Type 0 → Type 0
Method S = Command → S → ℤ × S

abbrev pub greatest : ℤ → List ℤ → ℤ
greatest r [] = r
greatest r (x ∷ xs) = greatest (max_ℤ r x) xs

abbrev NoneFails : List ℤ → Type 0
NoneFails = All (λ r. r ≢ failure)

not_failure : (r : ℤ) → r ≢ failure → (r ==ℤ failure) ≡ false
not_failure r h = elim (Bool-cases (r ==ℤ failure)) [
  | inl e ↦ absurd (h ((==ℤ_iff r failure).0 e))
  | inr e ↦ e
]

module _ {S : Type 0} where
  -- add_module
  abbrev pub add_module : List (Method S) → Method S → List (Method S)
  add_module modules m = modules ++ m ∷ []

  -- The loop of notify_command, with its variable `ret`.
  notify_from : List (Method S) → ℤ → Command → S → ℤ × S
  notify_from [] ret c s = (ret, s)
  notify_from (f ∷ fs) ret c s = elim ((f c s).0 ==ℤ failure) [
    | true ↦ (failure, (f c s).1)
    | false ↦ notify_from fs (max_ℤ ret (f c s).0) c (f c s).1
  ]

  unfoldable pub notify_command : List (Method S) → Command → S → ℤ × S
  unfolding notify_from
  notify_command modules c s = notify_from modules ignored c s

  -- The statuses of modules that run one after the other, and the state that they leave.
  abbrev pub statuses : List (Method S) → Command → S → List ℤ
  statuses [] c s = []
  statuses (f ∷ fs) c s = (f c s).0 ∷ statuses fs c (f c s).1

  abbrev pub run_all : List (Method S) → Command → S → S
  run_all [] c s = s
  run_all (f ∷ fs) c s = run_all fs c (f c s).1

  notify_from-succeeds :
      (fs : List (Method S)) (ret : ℤ) (c : Command) (s : S)
      → NoneFails (statuses fs c s)
      → notify_from fs ret c s ≡ (greatest ret (statuses fs c s), run_all fs c s)
  unfolding notify_from
  notify_from-succeeds [] ret c s _ = refl
  notify_from-succeeds (f ∷ fs) ret c s (h, hs) =
      rw (not_failure (f c s).0 h, notify_from) (notify_from-succeeds fs _ c (f c s).1 hs)

  notify_from-fails :
      (fs gs : List (Method S)) (f : Method S) (ret : ℤ) (c : Command) (s : S)
      → NoneFails (statuses fs c s)
      → (f c (run_all fs c s)).0 ≡ failure
      → notify_from (fs ++ f ∷ gs) ret c s ≡ (failure, (f c (run_all fs c s)).1)
  unfolding notify_from
  notify_from-fails [] gs f ret c s _ e = rw (e, notify_from, ==ℤ_refl failure)
  notify_from-fails (g ∷ fs) gs f ret c s (h, hs) e =
      rw (not_failure (g c s).0 h, notify_from) (notify_from-fails fs gs f _ c (g c s).1 hs e)

  -- Where no module fails, all of them run, and the greatest status is returned, which is
  -- VELOC_IGNORED if every one of them ignores the request.
  pub notify_command-succeeds :
      (fs : List (Method S)) (c : Command) (s : S)
      → NoneFails (statuses fs c s)
      → notify_command fs c s ≡ (greatest ignored (statuses fs c s), run_all fs c s)
  unfolding notify_command
  notify_command-succeeds fs c s h = notify_from-succeeds fs ignored c s h

  -- The first module that fails ends the request with VELOC_FAILURE: the modules behind it do not
  -- run.
  pub notify_command-fails :
      (fs gs : List (Method S)) (f : Method S) (c : Command) (s : S)
      → NoneFails (statuses fs c s)
      → (f c (run_all fs c s)).0 ≡ failure
      → notify_command (fs ++ f ∷ gs) c s ≡ (failure, (f c (run_all fs c s)).1)
  unfolding notify_command
  notify_command-fails fs gs f c s h e = notify_from-fails fs gs f ignored c s h e
