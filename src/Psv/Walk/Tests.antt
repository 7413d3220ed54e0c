-- ===== src/Psv/Walk/Tests.antt =====
-- A path that is gone into.
use martian_os.Prelude.{ℕ, refl, true, List, [], ◌∷◌, ◌++◌, arith}
use martian_os.CString.{codes}
use martian_os.Psv.Volume.{enter}
use martian_os.Psv.Volume.Tests.{slots, blank}
use martian_os.Psv.Path.Split.{path_text, join_slash}
use martian_os.Psv.Walk.{goin}
use martian_os.Psv.Walk.Parts.{Walks, goin-Walks}

abbrev home : List ℕ
home = codes "home"

abbrev student : List ℕ
student = codes "student"

goin-Walks_example :
    Walks slots
      (home ∷ student ∷ [])
      (enter slots 0 blank)
      (goin slots (path_text true (join_slash (home ∷ []) ++ student)) blank)
goin-Walks_example = goin-Walks slots true (home ∷ []) student blank refl refl (omega arith)
