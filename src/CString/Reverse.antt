-- ===== src/CString/Reverse.antt =====
-- strrev reverses the text in place.
use martian_os.Prelude.{
  ◌∙◌, ℕ, zero, suc, ◌+◌, ◌-◌, ◌<◌, ◌≡◌, List, length, get_or, set, length-set, get_or-set, ltb,
  leb, ◌==◌, ◌&&◌, if◌then◌else◌, arith, Bool-cases, inl, inr,
}
use martian_os.CString.{strlen, strrev, swap_ends, swap_at}
use martian_os.CString.Compare.{strlen-le-length}

length-swap_at : (s : List ℕ) (beg end : ℕ) → length (swap_at s beg end) ≡ length s
unfolding swap_at
length-swap_at s beg end =
    length-set (set s end (get_or s beg 0)) beg (get_or s end 0) ∙ length-set s end (get_or s beg 0)

get_or-swap_at :
    (s : List ℕ) (beg end j : ℕ)
    → beg < length s
    → end < length s
    → get_or (swap_at s beg end) j 0
      ≡ (if beg == j then get_or s end 0 else if end == j then get_or s beg 0 else get_or s j 0)
unfolding swap_at
get_or-swap_at s beg end j hb he = ground (
  arith,
  length-set s end (get_or s beg 0),
  get_or-set (set s end (get_or s beg 0)) beg j (get_or s end 0) 0,
  get_or-set s end j (get_or s beg 0) 0 he,
)

-- Byte `j` of the bytes from `beg` to `end` in the opposite order.
mirrored : List ℕ → ℕ → ℕ → ℕ → ℕ
mirrored s beg end j = if leb beg j && leb j end then get_or s (beg + end - j) 0 else get_or s j 0

mirrored-swap_at :
    (s : List ℕ) (beg end j : ℕ)
    → beg < end
    → end < length s
    → mirrored (swap_at s beg end) (beg + 1) (end - 1) j ≡ mirrored s beg end j
unfolding mirrored
mirrored-swap_at s beg end j hb he =
    let e : beg + 1 + (end - 1) ≡ beg + end = omega arith in
    rw e (
      ground (
        arith,
        get_or-swap_at s beg end j (omega arith) he,
        get_or-swap_at s beg end (beg + end - j) (omega arith) he,
      ))

-- Between `beg` and `end` the bytes change places end for end, and the others stay.
get_or-swap_ends :
    (fuel : ℕ) (s : List ℕ) (beg end j : ℕ)
    → end < length s
    → end < beg + fuel
    → get_or (swap_ends fuel s beg end) j 0 ≡ mirrored s beg end j
unfolding swap_ends
get_or-swap_ends zero s beg end j h f = unfold mirrored in ground arith
get_or-swap_ends (suc fuel) s beg end j h f = elim (Bool-cases (ltb beg end)) [
  | inl e ↦ rw e (
      get_or-swap_ends fuel (swap_at s beg end) (beg + 1) (end - 1) j
        (ground (arith, length-swap_at s beg end)) (ground arith)
      ∙ mirrored-swap_at s beg end j (ground arith) h)
  | inr e ↦ rw e (unfold mirrored in ground arith)
]

-- `strrev` puts the characters of the text in the opposite order, so that character `j` is what
-- was character `strlen s - 1 - j`, and changes no byte from the NUL on.
pub strrev_lem :
    (s : List ℕ) (j : ℕ)
    → get_or (strrev s) j 0
      ≡ (if ltb j (strlen s) then get_or s (strlen s - 1 - j) 0 else get_or s j 0)
unfolding strrev mirrored
strrev_lem s j = elim (Bool-cases (strlen s == 0)) [
  | inl e ↦ rw e (ground arith)
  | inr e ↦ rw e (
      ground (
        arith,
        strlen-le-length s,
        get_or-swap_ends (strlen s) s 0 (strlen s - 1) j (ground (arith, strlen-le-length s))
            (ground arith),
      ))
]
