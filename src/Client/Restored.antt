-- ===== src/Client/Restored.antt =====
-- What a restart leaves in the memory: each wanted region has its bytes again, if the places that
-- the regions have by then do not overlap, and the rest of the memory is as it was.
use veloc.Base.{ℕ, ◌+◌, ◌<◌, ◌≡◌, refl, ◌∙◌, true, false, [], ◌∷◌, inl, inr, Bool-cases}
use veloc.Base.Int.{ℤ}
use veloc.Client.Memory.{Memory, read_mem, write_mem, within, write_mem-read_mem}
use veloc.Client.State.{raw, object, Regions}
use veloc.Client.Checkpoint.{Select, Ids}
use veloc.Client.Restart.{wanted}
use veloc.Client.Copy.{restored}

module _ (mode : Select) (ids : Ids) (to : ℤ → ℕ) where
  -- No wanted region is put over the address.
  abbrev pub Spares : Regions → ℕ → Type 0
  Spares [] a = Unit
  Spares ((id, raw ptr size) ∷ rs) a =
      (wanted mode ids id ≡ true → within (to id) size a ≡ false) × Spares rs a
  Spares ((id, object s d) ∷ rs) a = Spares rs a

  -- The wanted regions are put to places that do not overlap.
  abbrev pub IsApart : Regions → Type 0
  IsApart [] = Unit
  IsApart ((id, raw ptr size) ∷ rs) = ((k : ℕ) → k < size → Spares rs (to id + k)) × IsApart rs
  IsApart ((id, object s d) ∷ rs) = IsApart rs

  pub restored-Spares :
      (m : Memory) (rs : Regions) (m' : Memory) (a : ℕ)
      → Spares rs a
      → restored mode ids to m rs m' a ≡ m' a
  restored-Spares m [] m' a _ = refl
  restored-Spares m ((id, object s d) ∷ rs) m' a h = restored-Spares m rs m' a h
  restored-Spares m ((id, raw ptr size) ∷ rs) m' a (here, h) =
      elim (Bool-cases (wanted mode ids id)) [
        | inl w ↦ rw w (
            restored-Spares m rs (write_mem (to id) (read_mem m ptr size) m') a h
            ∙ (write_mem-read_mem m m' ptr (to id) size a ∙ let out = here w in rw out refl))
        | inr w ↦ rw w (restored-Spares m rs m' a h)
      ]
