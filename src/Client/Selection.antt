-- ===== src/Client/Selection.antt =====
-- Which regions the modes of checkpoint_mem select.
use veloc.Base.{
  ◌≡◌, refl, ◌∙◌, Bool, ◌&&◌, true, false, Option, none, some, [], ◌∷◌, if◌then◌else◌, inl, inr,
  Bool-cases,
}
use veloc.Base.Int.{ℤ, ◌==ℤ◌}
use veloc.Base.IntMap.{find, erase, find-erase, erase-IsOrdered, IsOrdered}
use veloc.FileSystem.{FileSystem}
use veloc.Client.Memory.{Memory}
use veloc.Client.State.{Region, Regions, Client, is_found}
use veloc.Client.Checkpoint.{Select, Ids, selected, erase_all}

-- Whether every region is in the set.
abbrev pub is_complete : Ids → Regions → Bool
is_complete ids [] = true
is_complete ids ((id, r) ∷ rs) = is_found (find id ids) && is_complete ids rs

if_none : (b : Bool) → ◌≡◌ {A = Option Region} (if b then none else none) none
if_none true = refl
if_none false = refl

find-erase_all :
    (id : ℤ) (ids : Ids) (rs : Regions)
    → IsOrdered rs
    → find id (erase_all ids rs) ≡ (if is_found (find id ids) then none else find id rs)
unfolding erase_all find
find-erase_all id [] rs o = refl
find-erase_all id ((j, u) ∷ ids) rs o =
    find-erase_all id ids (erase j rs) (erase-IsOrdered j rs o) ∙ elim (Bool-cases (id ==ℤ j)) [
      | inl e ↦ rw (find-erase id j rs o, e) (if_none (is_found (find id ids)))
      | inr e ↦ rw (find-erase id j rs o, e) refl
    ]

-- With VELOC_CKPT_REST the regions in the set are left out, and all others stay.
pub selected_rest :
    (ids : Ids) (rs : Regions)
    → IsOrdered rs
    → (kept : Regions) × (selected Select.rest ids rs ≡ some kept)
      × ((id : ℤ) → find id kept ≡ (if is_found (find id ids) then none else find id rs))
unfolding selected
selected_rest ids rs o = (erase_all ids rs, refl, λ id. find-erase_all id ids rs o)
