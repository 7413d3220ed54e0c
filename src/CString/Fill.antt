-- ===== src/CString/Fill.antt =====
-- strncpy of a whole run of characters.
use martian_os.Prelude.{
  ℕ, ◌+◌, ◌≡◌, refl, sym, ap, Bool, true, false, ◌&&◌, not, List, [], ◌∷◌, ◌++◌, length, get_or,
  set, ◌==◌, arith,
}
use martian_os.CString.{strncpy, copy_from}

-- No character is NUL.
abbrev pub no_nul : List ℕ → Bool
no_nul [] = true
no_nul (x ∷ c) = not (x == 0) && no_nul c

set-length : (pre xs : List ℕ) (x v : ℕ) → set (pre ++ (x ∷ xs)) (length pre) v ≡ pre ++ (v ∷ xs)
set-length [] xs x v = refl
set-length (y ∷ pre) xs x v = ap (◌∷◌ y) (set-length pre xs x v)

get_or-length : (pre xs : List ℕ) (x : ℕ) → get_or (pre ++ (x ∷ xs)) (length pre) 0 ≡ x
get_or-length [] xs x = refl
get_or-length (y ∷ pre) xs x = get_or-length pre xs x

snoc : (pre xs : List ℕ) (x : ℕ) → pre ++ (x ∷ xs) ≡ (pre ++ (x ∷ [])) ++ xs
snoc [] xs x = refl
snoc (y ∷ pre) xs x = ap (◌∷◌ y) (snoc pre xs x)

length-snoc : (pre : List ℕ) (x : ℕ) → length (pre ++ (x ∷ [])) ≡ length pre + 1
length-snoc [] x = refl
length-snoc (y ∷ pre) x = omega (arith, length-snoc pre x)

-- Behind what is copied already, the characters of `c` take the place of as many others.
copy_from_run :
    (pre c t dest u : List ℕ)
    → no_nul c ≡ true
    → length dest ≡ length c
    → copy_from (pre ++ (dest ++ u)) (pre ++ (c ++ t)) (length c) (length pre) ≡ pre ++ (c ++ u)
unfolding copy_from
copy_from_run pre [] t [] u h e = refl
copy_from_run pre [] t (d ∷ dest) u h e = absurd (ground arith)
copy_from_run pre (x ∷ c) t [] u h e = absurd (ground arith)
copy_from_run pre (x ∷ c) t (d ∷ dest) u h e =
    let hx : (x == 0) ≡ false = ground arith in
    let ih = copy_from_run (pre ++ (x ∷ [])) c t dest u (ground arith) (omega arith) in
    rw
      (
        get_or-length pre (c ++ t) x,
        set-length pre (dest ++ u) d x,
        hx,
        snoc pre (dest ++ u) x,
        snoc pre (c ++ t) x,
        snoc pre (c ++ u) x,
        sym (length-snoc pre x),
      )
      ih

-- Characters that are not NUL are put in front of what stands behind them in the destination.
pub strncpy_run :
    (c t dest u : List ℕ)
    → no_nul c ≡ true
    → length dest ≡ length c
    → strncpy (dest ++ u) (c ++ t) (length c) ≡ c ++ u
unfolding strncpy
strncpy_run = copy_from_run []
