-- ===== src/Programs/Files.antt =====
-- What the programs rely on of the kernel's calls.
use martian_os.Prelude.{ℕ, ◌≤◌, ◌<◌, ◌≡◌, refl, ap, List, [], ◌∷◌, ◌++◌, length, take}
use martian_os.Prelude.Int.{ℤ, pos}
use martian_os.Programs.{Calls}

-- The text on the screen; and `Left w ps`, which states that the descriptor `fd` is open, that reads of
-- `n` bytes from it give the pieces `ps`, one after the other, and then nothing (the parts of a
-- file, or the names of a directory), and that a write to descriptor 1 puts all its bytes on the
-- screen. It need not hold in a state with anything else in `fd`.
pub record Console (c : Calls) (n : ℕ) (fd : ℤ) : Type 1 where
  pub screen : c.World → List ℕ
  pub Left : c.World → List (List ℕ) → Type 0
  pub give :
      (w : c.World) (p : List ℕ) (ps : List (List ℕ))
      → Left w (p ∷ ps)
      → ((c.read fd n w).0 ≡ pos (length p))
        × ((c.read fd n w).1 ≡ p)
        × Left (c.read fd n w).2 ps
        × (screen (c.read fd n w).2 ≡ screen w)
        × (0 < length p)
        × (length p ≤ n)
  pub stop :
      (w : c.World)
      → Left w []
      → ((c.read fd n w).0 ≡ pos 0)
        × Left (c.read fd n w).2 []
        × (screen (c.read fd n w).2 ≡ screen w)
  pub put :
      (bs : List ℕ) (w : c.World) (ps : List (List ℕ))
      → 0 < length bs
      → Left w ps
      → ((c.write (pos 1) bs w).0 ≡ pos (length bs))
        × (screen (c.write (pos 1) bs w).1 ≡ screen w ++ bs)
        × Left (c.write (pos 1) bs w).1 ps

-- The pieces one behind the other.
abbrev pub concat : List (List ℕ) → List ℕ
concat [] = []
concat (p ∷ ps) = p ++ concat ps

-- The names, each with a newline.
abbrev pub lines : List (List ℕ) → List ℕ
lines [] = []
lines (p ∷ ps) = p ++ b'\n' ∷ lines ps

pub take-append : (p q : List ℕ) → take (length p) (p ++ q) ≡ p
take-append [] q = refl
take-append (x ∷ p) q = ap (◌∷◌ x) (take-append p q)
