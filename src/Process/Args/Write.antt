-- ===== src/Process/Args/Write.antt =====
-- Bytes that are written one after the other.
use martian_os.Prelude.{
  ℕ, suc, ◌+◌, ◌-◌, ◌≤◌, ◌≡◌, refl, ap, ◌∙◌, inl, inr, ◌&&◌, List, [], ◌∷◌, length, get_or, set,
  length-set, get_or-set, ltb, leb, ◌==◌, if◌then◌else◌, Bool-cases, arith,
}

-- The bytes `w` at the places from `i` on.
unfoldable pub write_at : List ℕ → ℕ → List ℕ → List ℕ
write_at b i [] = b
write_at b i (c ∷ w) = write_at (set b i c) (i + 1) w

pub length-write_at : (b : List ℕ) (i : ℕ) (w : List ℕ) → length (write_at b i w) ≡ length b
unfolding write_at
length-write_at b i [] = refl
length-write_at b i (c ∷ w) = length-write_at (set b i c) (i + 1) w ∙ length-set b i c

get_or-later :
    (c : ℕ) (w : List ℕ) (i j : ℕ) → suc i ≤ j → get_or (c ∷ w) (j - i) 0 ≡ get_or w (j - (i + 1)) 0
get_or-later c w i j h =
    let e : j - i ≡ suc (j - (i + 1)) = omega arith in ap (λ k. get_or (c ∷ w) k 0) e

pub get_or-write_at :
    (b : List ℕ) (i : ℕ) (w : List ℕ) (j : ℕ)
    → i + length w ≤ length b
    → get_or (write_at b i w) j 0
      ≡ (if leb i j && ltb j (i + length w) then get_or w (j - i) 0 else get_or b j 0)
unfolding write_at
get_or-write_at b i [] j h = ground arith
get_or-write_at b i (c ∷ w) j h =
    let room : i + 1 + length w ≤ length (set b i c) = omega (arith, length-set b i c) in
    let ih = get_or-write_at (set b i c) (i + 1) w j room in
    let here = get_or-set b i j c 0 (omega arith) in
    elim (Bool-cases (i == j)) [
      | inl first ↦
          let e : j - i ≡ 0 = ground arith in
          let head = ap (λ k. get_or (c ∷ w) k 0) e in ground (arith, ih, here, head)
      | inr other ↦ ground (arith, ih, here, get_or-later c w i j)
    ]
