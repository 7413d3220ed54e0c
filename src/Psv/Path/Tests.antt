-- ===== src/Psv/Path/Tests.antt =====
-- Paths cut at concrete inputs.
use martian_os.Prelude.{length, replicate, ◌≤◌, ℕ, ◌≡◌, refl, true, List, [], ◌∷◌, ◌++◌, arith}
use martian_os.Prelude.Int.{pos}
use martian_os.CString.{codes, strncpy, strlen}
use martian_os.Psv.Path.{split_path, split_from, new_part, is_abs}
use martian_os.Psv.Path.Flat.{parts_path}
use martian_os.Psv.Path.Split.{path_text, join_slash}
use martian_os.Psv.Path.Bounds.{HasShortParts, split_path-IsPath}
use martian_os.Psv.Path.Join.{split_path-join}

abbrev home : List ℕ
home = codes "home"

abbrev student : List ℕ
student = codes "student"

one_two : split_path (codes "a/b") ≡ parts_path 0 (codes "a" ∷ codes "b" ∷ [])
unfolding split_path split_from new_part is_abs strlen strncpy
one_two = refl

split_path-join_example :
    (split_path (path_text true (join_slash (home ∷ []) ++ student))
      ≡ parts_path 1 (home ∷ student ∷ []))
    × (split_path (path_text true (join_slash (home ∷ student ∷ [])))
        ≡ parts_path 1 (home ∷ student ∷ []))
split_path-join_example = split_path-join true (home ∷ []) student refl refl (omega arith)

-- Two parts of 20 characters.
abbrev two_long : List ℕ
two_long = replicate 20 b'a' ++ (b'/' ∷ replicate 20 b'b')

two_long-HasShortParts : HasShortParts two_long
unfolding strlen
two_long-HasShortParts i h = (20, omega (arith, h), omega arith, refl)

split_path-IsPath_example :
    (k : ℕ) × ((split_path two_long).num ≡ pos k)
    × (k ≤ 32)
    × (length (split_path two_long).names ≡ 1024)
unfolding is_abs
split_path-IsPath_example = split_path-IsPath two_long two_long-HasShortParts
