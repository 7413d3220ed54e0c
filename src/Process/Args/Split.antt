-- ===== src/Process/Args/Split.antt =====
-- parse_args on a command of a name and arguments.
use mathlib.Core.List.{append-nil}
use martian_os.Prelude.{
  ℕ, zero, suc, ◌+◌, ◌≡◌, ◌≢◌, refl, ap, sym, ◌∙◌, true, false, List, [], ◌∷◌, ◌++◌, some, length,
  get_or, set, drop, replicate, length-replicate, length-append, arith,
}
use martian_os.Prelude.Int.{pos}
use martian_os.CString.{strlen, fill_zero}
use martian_os.Process.Args.{
  Parse, skip_spaces, count_spaces, parse_round, parse_rounds, parse_args,
}
use martian_os.Process.Args.Write.{write_at}

-- Characters of a name, and of arguments.
abbrev pub IsName : List ℕ → Type 0
IsName [] = Unit
IsName (c ∷ w) = (c ≢ 0) × (c ≢ b' ') × IsName w

abbrev pub NoNul : List ℕ → Type 0
NoNul [] = Unit
NoNul (c ∷ w) = (c ≢ 0) × NoNul w

IsName-NoNul : (w : List ℕ) → IsName w → NoNul w
IsName-NoNul [] h = tt
IsName-NoNul (c ∷ w) h = (h.0, IsName-NoNul w h.2)

NoNul-spaces : (k : ℕ) (w : List ℕ) → NoNul w → NoNul (replicate k b' ' ++ w)
NoNul-spaces zero w h = h
NoNul-spaces (suc k) w h = ((λ e. omega (arith, e)), NoNul-spaces k w h)

NoNul-append : (v w : List ℕ) → NoNul v → NoNul w → NoNul (v ++ w)
NoNul-append [] w h g = g
NoNul-append (c ∷ v) w h g = (h.0, NoNul-append v w h.1 g)

strlen-NoNul : (w : List ℕ) → NoNul w → strlen w ≡ length w
unfolding strlen
strlen-NoNul [] h = refl
strlen-NoNul (c ∷ w) h = ground (arith, strlen-NoNul w h.1)

-- The spaces in front of a character that is none are passed.
skip_spaces-replicate :
    (k c : ℕ) (w : List ℕ) → c ≢ b' ' → skip_spaces (replicate k b' ' ++ c ∷ w) ≡ c ∷ w
unfolding skip_spaces
skip_spaces-replicate zero c w h = ground arith
skip_spaces-replicate (suc k) c w h = skip_spaces-replicate k c w h

count_spaces-replicate :
    (k c : ℕ) (w : List ℕ) → c ≢ b' ' → count_spaces (replicate k b' ' ++ c ∷ w) ≡ k
unfolding count_spaces
count_spaces-replicate zero c w h = ground arith
count_spaces-replicate (suc k) c w h = ap suc (count_spaces-replicate k c w h)

-- The state of the loop in the name, and in the arguments behind `f + 1` spaces.
abbrev in_name : List ℕ → List ℕ → List ℕ → Parse
in_name rest fname args = record {
  flag = false;
  filter = 0;
  rest = rest;
  fname = fname;
  args = args;
  out = 0;
}

abbrev in_args : ℕ → List ℕ → List ℕ → List ℕ → ℕ → Parse
in_args f rest fname args out = record {
  flag = true;
  filter = suc f;
  rest = rest;
  fname = fname;
  args = args;
  out = out;
}

name_round :
    (c : ℕ) (rest : List ℕ) (i : ℕ) (fname args : List ℕ)
    → c ≢ b' '
    → parse_round i (in_name (c ∷ rest) fname args) ≡ in_name rest (set fname i c) args
unfolding parse_round
name_round c rest i fname args h = ground arith

args_round :
    (rest : List ℕ) (i f : ℕ) (fname args : List ℕ) (out : ℕ)
    → parse_round i (in_args f rest fname args out)
      ≡ in_args f (drop 1 rest) fname (set args out (get_or rest 0 0)) (out + 1)
unfolding parse_round
args_round rest i f fname args out = ground arith

name_rounds :
    (w tail : List ℕ) (r i : ℕ) (fname args : List ℕ)
    → IsName w
    → parse_rounds (length w + r) i (in_name (w ++ tail) fname args)
      ≡ parse_rounds r (i + length w) (in_name tail (write_at fname i w) args)
unfolding parse_rounds write_at
name_rounds [] tail r i fname args h =
    let e : 0 + r ≡ r = omega arith in let f : i + 0 ≡ i = omega arith in rw (e, f) refl
name_rounds (c ∷ w) tail r i fname args h =
    let e : suc (length w) + r ≡ suc (length w + r) = omega arith in
    let f : i + suc (length w) ≡ i + 1 + length w = omega arith in
    rw (e, f)
      (ap (parse_rounds (length w + r) (i + 1)) (name_round c (w ++ tail) i fname args h.1)
        ∙ name_rounds w tail r (i + 1) (set fname i c) args h.2)

args_rounds :
    (w tail : List ℕ) (r i f : ℕ) (fname args : List ℕ) (out : ℕ)
    → parse_rounds (length w + r) i (in_args f (w ++ tail) fname args out)
      ≡ parse_rounds r (i + length w) (in_args f tail fname (write_at args out w) (out + length w))
unfolding parse_rounds write_at
args_rounds [] tail r i f fname args out =
    let e : 0 + r ≡ r = omega arith in
    let g : i + 0 ≡ i = omega arith in let o : out + 0 ≡ out = omega arith in rw (e, g, o) refl
args_rounds (c ∷ w) tail r i f fname args out =
    let e : suc (length w) + r ≡ suc (length w + r) = omega arith in
    let g : i + suc (length w) ≡ i + 1 + length w = omega arith in
    let o : out + suc (length w) ≡ out + 1 + length w = omega arith in
    rw (e, g, o)
      (ap (parse_rounds (length w + r) (i + 1)) (args_round (c ∷ w ++ tail) i f fname args out)
        ∙ args_rounds w tail r (i + 1) f fname (set args out c) (out + 1))

-- Behind the arguments the loop reads the NUL, and what the model has behind it.
nul_rounds :
    (k i f : ℕ) (fname args : List ℕ) (out : ℕ)
    → (parse_rounds k i (in_args f [] fname args out)).args ≡ write_at args out (replicate k 0)
unfolding parse_rounds write_at
nul_rounds zero i f fname args out = refl
nul_rounds (suc k) i f fname args out =
    ap (λ p. (parse_rounds k (i + 1) p).args) (args_round [] i f fname args out)
    ∙ nul_rounds k (i + 1) f fname (set args out 0) (out + 1)

nul_rounds_name :
    (k i f : ℕ) (fname args : List ℕ) (out : ℕ)
    → (parse_rounds k i (in_args f [] fname args out)).fname ≡ fname
unfolding parse_rounds
nul_rounds_name zero i f fname args out = refl
nul_rounds_name (suc k) i f fname args out =
    ap (λ p. (parse_rounds k (i + 1) p).fname) (args_round [] i f fname args out)
    ∙ nul_rounds_name k (i + 1) f fname (set args out 0) (out + 1)

-- The round at the first space, and the one that passes the spaces.
space_round :
    (rest : List ℕ) (i : ℕ) (fname args : List ℕ)
    → parse_round i (in_name (b' ' ∷ rest) fname args)
      ≡ record (in_name (b' ' ∷ rest) fname args) { flag = true }
unfolding parse_round
space_round rest i fname args = refl

first_round :
    (k c : ℕ) (w : List ℕ) (i : ℕ) (fname args : List ℕ)
    → c ≢ b' '
    → parse_round i (record (in_name (replicate (suc k) b' ' ++ c ∷ w) fname args) { flag = true })
      ≡ in_args k w fname (set args 0 c) 1
unfolding parse_round
first_round k c w i fname args h =
    rw (skip_spaces-replicate (suc k) c w h, count_spaces-replicate (suc k) c w h) refl

-- A command of spaces, a name, spaces and arguments.
abbrev pub command : ℕ → List ℕ → ℕ → List ℕ → List ℕ
command a name k args = replicate a b' ' ++ (name ++ (replicate (suc k) b' ' ++ args))

-- All rounds behind the name.
rest_rounds :
    (k c : ℕ) (w : List ℕ) (i : ℕ) (fname args : List ℕ)
    → c ≢ b' '
    → let p =
        parse_rounds
          (suc k + suc (length w))
          i
          (in_name (replicate (suc k) b' ' ++ c ∷ w) fname args) in
      (p.fname ≡ fname)
      × (p.args ≡ write_at (write_at args 0 (c ∷ w)) (suc (length w)) (replicate k 0))
unfolding parse_rounds write_at
rest_rounds k c w i fname args h =
    let n : suc k + suc (length w) ≡ suc (suc (length w + k)) = omega arith in
    let spaces = replicate k b' ' ++ c ∷ w in
    let one = ap (parse_rounds (suc (length w + k)) (i + 1)) (space_round spaces i fname args) in
    let two =
      ap (parse_rounds (length w + k) (i + 1 + 1)) (first_round k c w (i + 1) fname args h) in
    let three =
      ap (λ x. parse_rounds (length w + k) (i + 1 + 1) (in_args k x fname (set args 0 c) 1))
        (sym (append-nil w))
      ∙ args_rounds w [] k (i + 1 + 1) k fname (set args 0 c) 1 in
    let all =
      ap (λ m. parse_rounds m i (in_name (b' ' ∷ spaces) fname args)) n ∙ one ∙ two ∙ three in
    let written = write_at (set args 0 c) 1 w in
    let o : 1 + length w ≡ suc (length w) = omega arith in
    (
      ap (λ p. p.fname) all
          ∙ nul_rounds_name k (i + 1 + 1 + length w) k fname written (1 + length w),
      ap (λ p. p.args) all
          ∙ nul_rounds k (i + 1 + 1 + length w) k fname written (1 + length w)
          ∙ ap (λ x. write_at written x (replicate k 0)) o,
    )

-- Of a command the name goes to the first buffer and the arguments to the second, each behind the
-- 50 bytes that are cleared first, and a zero for each space between them but one behind the
-- arguments.
pub parse_args-command :
    (a : ℕ) (x : ℕ) (v : List ℕ) (k c : ℕ) (w fname args : List ℕ)
    → IsName (x ∷ v)
    → c ≢ b' '
    → NoNul (c ∷ w)
    → parse_args (some (command a (x ∷ v) k (c ∷ w))) fname args ≡ (
      pos 0,
      write_at (fill_zero fname 50 0) 0 (x ∷ v),
      write_at (write_at (fill_zero args 50 0) 0 (c ∷ w)) (suc (length w)) (replicate k 0),
    )
unfolding parse_args
parse_args-command a x v k c w fname args name first plain =
    let tail = replicate (suc k) b' ' ++ c ∷ w in
    let start = skip_spaces-replicate a x (v ++ tail) name.1 in
    let whole = strlen-NoNul (x ∷ v ++ tail) (
      NoNul-append (x ∷ v) tail (IsName-NoNul (x ∷ v) name) (NoNul-spaces (suc k) (c ∷ w) plain)) in
    let size : strlen (x ∷ v ++ tail) ≡ length (x ∷ v) + (suc k + suc (length w)) = omega (
      arith,
      whole,
      length-append (x ∷ v) tail,
      length-append (replicate (suc k) b' ') (c ∷ w),
      length-replicate {A = ℕ} (suc k) b' ',
    ) in
    let f0 = fill_zero fname 50 0 in
    let a0 = fill_zero args 50 0 in
    let all =
      ap (λ n. parse_rounds n 0 (in_name (x ∷ v ++ tail) f0 a0)) size
      ∙ name_rounds (x ∷ v) tail (suc k + suc (length w)) 0 f0 a0 name in
    let rest = rest_rounds k c w (0 + length (x ∷ v)) (write_at f0 0 (x ∷ v)) a0 first in
    rw start (λ i. (pos 0, (ap (λ p. p.fname) all ∙ rest.0) i, (ap (λ p. p.args) all ∙ rest.1) i))
