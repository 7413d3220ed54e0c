-- ===== src/CString/Compare.antt =====
-- strlen and strncmp against the text that a byte list holds.
use martian_os.Prelude.{
  ℕ, zero, suc, ◌+◌, ◌<◌, ◌≤◌, ◌≡◌, refl, ◌↔◌, ◌≢◌, List, [], ◌∷◌, length, get_or, ◌==◌,
  if◌then◌else◌, arith,
}
use martian_os.Prelude.Int.{pos}
use martian_os.CString.{strlen, strncmp, strncmp_from, char_diff}

-- The text from index `i` on: at most `n` characters, up to the first NUL.
unfoldable pub text_from : List ℕ → ℕ → ℕ → List ℕ
text_from s zero i = []
text_from s (suc n) i =
    let rest = text_from s n (i + 1) in if get_or s i 0 == 0 then [] else get_or s i 0 ∷ rest

-- The first `n` characters of a string, or all of it if it is shorter.
abbrev pub text : ℕ → List ℕ → List ℕ
text n s = text_from s n 0

-- Every element is a byte.
abbrev pub AreBytes : List ℕ → Type 0
AreBytes s = (i : ℕ) → get_or s i 0 < 256

char_diff-eq-zero : (a b : ℕ) → a < 256 → b < 256 → char_diff a b ≡ pos 0 → a ≡ b
char_diff-eq-zero a b ha hb e = ground arith

char_diff_self : (a : ℕ) → char_diff a a ≡ pos 0
char_diff_self a = ground arith

strncmp_from-zero :
    (s1 s2 : List ℕ) (n i : ℕ)
    → AreBytes s1
    → AreBytes s2
    → strncmp_from s1 s2 n i ≡ pos 0
    → text_from s1 n i ≡ text_from s2 n i
unfolding strncmp_from text_from
strncmp_from-zero s1 s2 zero i h1 h2 e = refl
strncmp_from-zero s1 s2 (suc n) i h1 h2 e = ground (
  arith,
  char_diff-eq-zero (get_or s1 i 0) (get_or s2 i 0) (h1 i) (h2 i),
  strncmp_from-zero s1 s2 n (i + 1) h1 h2,
)

strncmp_from_eq :
    (s1 s2 : List ℕ) (n i : ℕ)
    → text_from s1 n i ≡ text_from s2 n i
    → strncmp_from s1 s2 n i ≡ pos 0
unfolding strncmp_from text_from
strncmp_from_eq s1 s2 zero i e = refl
strncmp_from_eq s1 s2 (suc n) i e =
    ground (arith, strncmp_from_eq s1 s2 n (i + 1), char_diff_self (get_or s1 i 0))

-- On bytes, `strncmp` returns 0 exactly when both strings have the same first `n` characters,
-- where a string ends at its NUL.
pub strncmp-zero_iff :
    (s1 s2 : List ℕ) (n : ℕ)
    → AreBytes s1
    → AreBytes s2
    → (strncmp s1 s2 n ≡ pos 0) ↔ (text n s1 ≡ text n s2)
unfolding strncmp
strncmp-zero_iff s1 s2 n h1 h2 = (strncmp_from-zero s1 s2 n 0 h1 h2, strncmp_from_eq s1 s2 n 0)

-- A string is equal to itself whatever its bytes are.
pub strncmp_self : (s : List ℕ) (n : ℕ) → strncmp s s n ≡ pos 0
unfolding strncmp
strncmp_self s n = strncmp_from_eq s s n 0 refl

no_nul_before : (s : List ℕ) (i : ℕ) → i < strlen s → get_or s i 0 ≢ 0
unfolding strlen
no_nul_before [] i h = absurd (omega arith)
no_nul_before (c ∷ s) zero h = ground arith
no_nul_before (c ∷ s) (suc i) h = ground (arith, no_nul_before s i)

nul_at_end : (s : List ℕ) → get_or s (strlen s) 0 ≡ 0
unfolding strlen
nul_at_end [] = refl
nul_at_end (c ∷ s) = ground (arith, nul_at_end s)

pub strlen-le-length : (s : List ℕ) → strlen s ≤ length s
unfolding strlen
strlen-le-length [] = omega arith
strlen-le-length (c ∷ s) = ground (arith, strlen-le-length s)

-- `strlen` stays within the bytes and their closing NUL, and is the index of the first NUL: the
-- byte there is 0, and no byte before it is.
pub strlen_lem :
    (s : List ℕ)
    → (strlen s ≤ length s)
      × (get_or s (strlen s) 0 ≡ 0)
      × ((i : ℕ) → i < strlen s → get_or s i 0 ≢ 0)
strlen_lem s = (strlen-le-length s, nul_at_end s, no_nul_before s)
