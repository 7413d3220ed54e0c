-- ===== src/Process/Args.antt =====
-- syscall_handler.c, parse_args: a command line is split into the program's name and its arguments.
pub mod Write
pub mod Split
use martian_os.Prelude.{
  ℕ, zero, suc, ◌+◌, Bool, true, false, not, List, [], ◌∷◌, Option, none, some, get_or, set, drop,
  ◌==◌, if◌then◌else◌,
}
use martian_os.Prelude.Int.{ℤ, pos, minus_one}
use martian_os.CString.{strlen, fill_zero}

-- The local variables of the loop: `rest` is the string at `user_input`, `out` how far
-- `parsed_args` has moved.
pub record Parse : Type 0 where
  pub flag : Bool
  pub filter : ℕ
  pub rest : List ℕ
  pub fname : List ℕ
  pub args : List ℕ
  pub out : ℕ

-- `while (*user_input == ' ') user_input++;`
unfoldable pub skip_spaces : List ℕ → List ℕ
skip_spaces [] = []
skip_spaces (c ∷ s) = let later = skip_spaces s in if c == b' ' then later else c ∷ s

-- How many spaces that loop passes.
unfoldable pub count_spaces : List ℕ → ℕ
count_spaces [] = 0
count_spaces (c ∷ s) = let later = count_spaces s in if c == b' ' then suc later else 0

-- One round of the loop, at index `i`.
unfoldable pub parse_round : ℕ → Parse → Parse
parse_round i p =
    if not p.flag
    then (if not (get_or p.rest 0 0 == b' ')
        then record p { fname = set p.fname i (get_or p.rest 0 0); rest = drop 1 p.rest }
        else record p { flag = true })
    else (let rest' = (if p.filter == 0 then skip_spaces p.rest else p.rest) in
        record p {
          filter = (if p.filter == 0 then count_spaces p.rest else p.filter);
          args = set p.args p.out (get_or rest' 0 0);
          out = p.out + 1;
          rest = drop 1 rest';
        })

-- The rounds from `i` on, with `n` left.
unfoldable pub parse_rounds : ℕ → ℕ → Parse → Parse
parse_rounds zero i p = p
parse_rounds (suc n) i p = parse_rounds n (i + 1) (parse_round i p)

-- The result and the two buffers, from what they hold before. `memset` clears 50 bytes of each.
unfoldable pub parse_args : Option (List ℕ) → List ℕ → List ℕ → ℤ × List ℕ × List ℕ
parse_args none fname args = (minus_one, fname, args)
parse_args (some user_input) fname args =
    let start = skip_spaces user_input in
    let p = parse_rounds (strlen start) 0 (record {
      flag = false;
      filter = 0;
      rest = start;
      fname = fill_zero fname 50 0;
      args = fill_zero args 50 0;
      out = 0;
    }) in
    (pos 0, p.fname, p.args)
