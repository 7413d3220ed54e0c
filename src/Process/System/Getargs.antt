-- ===== src/Process/System/Getargs.antt =====
-- syscall_handler.c, syscall_getargs: the arguments that syscall_execute left for the program.
pub mod Tests
use martian_os.Prelude.{
  ℕ, zero, suc, ◌+◌, ◌-◌, ◌≤◌, ◌<◌, ◌≡◌, ◌≢◌, refl, ap, sym, ◌∙◌, inl, inr, Bool, true, false, not,
  ◌&&◌, ◌||◌, List, [], ◌∷◌, ◌++◌, Option, none, some, drop, length, get_or, replicate,
  length-replicate, ltb, leb, ◌==◌, if◌then◌else◌, Bool-cases, arith,
}
use martian_os.Prelude.Int.{ℤ, pos, negsuc, minus_one, eqb_ℤ}
use martian_os.CString.{strncpy, fill_zero}
use martian_os.CString.Copy.{get_or-strncpy, get_or-fill_zero, length-fill_zero}
use martian_os.Fs.{Image, read_data}
use martian_os.Process.Types.{Drivers, Dentry, Pcb, update}
use martian_os.Process.Descriptors.{init_file_table}
use martian_os.Process.Pids.{get_pcb_ptr, record_process}
use martian_os.Process.Args.{parse_args}
use martian_os.Process.Args.Write.{write_at, get_or-write_at, length-write_at}
use martian_os.Process.Args.Split.{IsName, NoNul, command, parse_args-command}
use martian_os.Process.System.State.{
  System, Outcome, returns, enters_user, resumes, Frame, cur_pcb, setup_paging_and_flush_tlb,
}
use martian_os.Process.System.Entry.{entered_block}
use martian_os.Process.System.Execute.{
  syscall_execute, check_program, start_process, load_program, enter_process, fails_elf,
  save_registers, init_pcb,
}

-- The loop from `i` on, with `n` rounds left: the bytes that go to `buf`. `behind` is the memory
-- behind the 128 bytes of `args`, which the loop reads where `nbytes` is larger.
pub copy_args : (ℕ → ℕ) → ℕ → ℕ → List ℕ → List ℕ
copy_args behind zero i args = []
copy_args behind (suc n) i args =
    (if ltb i 128 then get_or args i 0 else behind i) ∷ copy_args behind n (i + 1) args

-- The result, and the bytes in `buf`. `has_buf` is false where `buf` is NULL.
pub syscall_getargs : {W : Type 0} → (ℕ → ℕ) → Bool → ℤ → System W → ℤ × List ℕ
syscall_getargs behind has_buf (negsuc n) s = (minus_one, [])
syscall_getargs behind has_buf (pos nbytes) s =
    if not has_buf
    then (minus_one, [])
    else if get_or (cur_pcb s).args 0 0 == 0
    then (minus_one, [])
    else (pos 0, copy_args behind nbytes 0 (cur_pcb s).args)

length-copy_args :
    (behind : ℕ → ℕ) (n i : ℕ) (args : List ℕ) → length (copy_args behind n i args) ≡ n
unfolding copy_args
length-copy_args behind zero i args = refl
length-copy_args behind (suc n) i args = ap suc (length-copy_args behind n (i + 1) args)

get_or-copy_args :
    (behind : ℕ → ℕ) (n i : ℕ) (args : List ℕ) (j : ℕ)
    → j < n
    → get_or (copy_args behind n i args) j 0
      ≡ (if ltb (i + j) 128 then get_or args (i + j) 0 else behind (i + j))
unfolding copy_args
get_or-copy_args behind zero i args j h = elim h [ ]
get_or-copy_args behind (suc n) i args zero h =
    ap (λ k. if ltb k 128 then get_or args k 0 else behind k) (omega arith)
get_or-copy_args behind (suc n) i args (suc j) h =
    get_or-copy_args behind n (i + 1) args j (omega arith)
    ∙ ap (λ k. if ltb k 128 then get_or args k 0 else behind k) (omega arith)

NoNul-get_or : (w : List ℕ) (j : ℕ) → NoNul w → j < length w → get_or w j 0 ≢ 0
NoNul-get_or [] j h lt = elim lt [ ]
NoNul-get_or (c ∷ w) zero h lt = h.0
NoNul-get_or (c ∷ w) (suc j) h lt = NoNul-get_or w j h.1 (omega arith)

get_or-zeros : (k j : ℕ) → get_or {A = ℕ} (replicate k 0) j 0 ≡ 0
get_or-zeros zero j = refl
get_or-zeros (suc k) zero = refl
get_or-zeros (suc k) (suc j) = get_or-zeros k j

module _ {W : Type 0} where
  -- The new process is the current one, and has the arguments.
  entered_args :
      (fr : Frame) (m : ℤ) (args : List ℕ) (s : System W)
      → (cur_pcb (enter_process fr m args s).1).args
        ≡ strncpy (s.kernel.pcbs (get_pcb_ptr m)).args args 128
  unfolding enter_process init_pcb init_file_table
  entered_args fr m args s =
      let a = get_pcb_ptr m in
      (entered_block fr s a (init_pcb m s.cur_pid a args (s.kernel.pcbs a))).3

-- What strncpy makes of the arguments that parse_args leaves: they are followed by zeros.
copied_args :
    (old args : List ℕ) (c : ℕ) (w : List ℕ) (k j : ℕ)
    → length old ≡ 128
    → length args ≡ 128
    → NoNul (c ∷ w)
    → length (c ∷ w) + k ≤ 128
    → length (c ∷ w) < 50
    → j < 128
    → get_or
        (strncpy old
          (write_at (write_at (fill_zero args 50 0) 0 (c ∷ w)) (suc (length w)) (replicate k 0))
          128)
        j
        0
      ≡ (if ltb j (length (c ∷ w)) then get_or (c ∷ w) j 0 else 0)
copied_args old args c w k j h8 a8 plain room short hj =
    get_or-strncpy old b3 128 len j (omega (arith, h8)) char_at nul hj ∙ same
  where
    len : ℕ
    len = suc (length w)

    b1 : List ℕ
    b1 = fill_zero args 50 0

    b2 : List ℕ
    b2 = write_at b1 0 (c ∷ w)

    zeros : List ℕ
    zeros = replicate k 0

    b3 : List ℕ
    b3 = write_at b2 (suc (length w)) zeros

    in_b1 : length b1 ≡ 128
    in_b1 = length-fill_zero args 50 0 ∙ a8

    in_b2 : length b2 ≡ 128
    in_b2 = length-write_at b1 0 (c ∷ w) ∙ in_b1

    behind :
        (x : ℕ)
        → get_or b3 x 0 ≡ (
            if leb len x && ltb x (len + length zeros)
            then get_or zeros (x - len) 0
            else get_or b2 x 0)
    behind x =
        get_or-write_at b2 len zeros x (omega (arith, length-replicate {A = ℕ} k 0, in_b2, room))

    char : (x : ℕ) → x < len → get_or b3 x 0 ≡ get_or (c ∷ w) x 0
    char x h =
        let front : x - 0 ≡ x = omega arith in
        ground (
          arith,
          behind x,
          get_or-write_at b1 0 (c ∷ w) x (omega (arith, in_b1, short)),
          ap (λ n. get_or (c ∷ w) n 0) front,
        )

    char_at : (x : ℕ) → x < len → get_or b3 x 0 ≢ 0
    char_at x h e = NoNul-get_or (c ∷ w) x plain h (sym (char x h) ∙ e)

    nul : get_or b3 len 0 ≡ 0
    nul = ground (
      arith,
      behind len,
      get_or-zeros k (len - len),
      get_or-write_at b1 0 (c ∷ w) len (omega (arith, in_b1, short)),
      get_or-fill_zero args 50 0 len (omega (arith, a8)),
    )

    same : (if ltb j len then get_or b3 j 0 else 0) ≡ (if ltb j len then get_or (c ∷ w) j 0 else 0)
    same = ground (arith, char j)

-- Byte `j` of what a program gets: a character of its arguments, then zeros up to the end of `args`, and
-- then the memory behind it.
abbrev pub arg_byte : (ℕ → ℕ) → List ℕ → ℕ → ℕ
arg_byte behind w j = if ltb j (length w) then get_or w j 0 else if ltb j 128 then 0 else behind j

-- The call, where the block holds the arguments and zeros.
getargs_of :
    {W : Type 0} (behind : ℕ → ℕ) (t : System W) (c : ℕ) (w : List ℕ) (nbytes j : ℕ)
    → c ≢ 0
    → length (c ∷ w) ≤ 128
    → ((i : ℕ)
        → i < 128
        → get_or (cur_pcb t).args i 0 ≡ (if ltb i (length (c ∷ w)) then get_or (c ∷ w) i 0 else 0))
    → j < nbytes
    → let got = syscall_getargs behind true (pos nbytes) t in
      (got.0 ≡ pos 0) × (length got.1 ≡ nbytes) × (get_or got.1 j 0 ≡ arg_byte behind (c ∷ w) j)
unfolding syscall_getargs
getargs_of behind t c w nbytes j some_char room holds hj =
    let args = (cur_pcb t).args in
    let head : (get_or args 0 0 == 0) ≡ false = ground (arith, holds 0 (omega arith)) in
    let byte : (if ltb (0 + j) 128 then get_or args (0 + j) 0 else behind (0 + j))
        ≡ arg_byte behind (c ∷ w) j =
      (let front : 0 + j ≡ j = omega arith in rw front (ground (arith, holds j))) in
    rw head (
      refl,
      length-copy_args behind nbytes 0 args,
      get_or-copy_args behind nbytes 0 args j hj ∙ byte,
    )

module _ (d : Drivers) (image : d.World → Image) where
  start_args :
      (fr : Frame) (dentry : Dentry) (args : List ℕ) (s : System d.World) (m : ℤ) (eip : ℕ)
      → (start_process d image fr dentry args s m).0 ≡ enters_user eip
      → (a : ℕ) × ((cur_pcb (start_process d image fr dentry args s m).1).args
          ≡ strncpy (s.kernel.pcbs a).args args 128)
  unfolding start_process load_program setup_paging_and_flush_tlb
  start_args fr dentry args s (negsuc n) eip e = cc
  start_args fr dentry args s (pos m) eip e =
      (get_pcb_ptr (pos m), entered_args fr (pos m) args (load_program d image (pos m) dentry s))

  check_args :
      (fr : Frame) (args : List ℕ) (s : System d.World) (found : Option Dentry) (eip : ℕ)
      → (check_program d image fr args s found).0 ≡ enters_user eip
      → (a : ℕ) × ((cur_pcb (check_program d image fr args s found).1).args
          ≡ strncpy (s.kernel.pcbs a).args args 128)
  unfolding check_program
  check_args fr args s none eip e = cc
  check_args fr args s (some dentry) eip e =
      let r = read_data (image s.kernel.world) dentry.nr_inode 0 4 in
      let ids = record_process s.pcb_bitmap in
      (elim (fails_elf r.0 (r.1 ++ drop (length r.1) fr.first_four_bytes))
          as (λ b.
            let o =
              (if b
                then (returns minus_one, s)
                else start_process d image fr dentry args (record s { pcb_bitmap = ids.1 })
                    ids.0) in
            o.0 ≡ enters_user eip
            → (a : ℕ) × ((cur_pcb o.1).args ≡ strncpy (s.kernel.pcbs a).args args 128)) [
              | true ↦ λ e. cc
              | false ↦ λ e. start_args fr dentry args (record s { pcb_bitmap = ids.1 }) ids.0 eip e
            ])
        e

  -- A program that is entered by the command of a name, one or more spaces and arguments of 1 to 49
  -- characters, with the spaces and the arguments within 128 bytes, asks for `nbytes` bytes of its
  -- arguments: the call returns 0 and gives that many bytes, just the arguments, zeros up to 128
  -- bytes, and whatever the memory holds behind `args` from there on.
  pub execute-getargs :
      (behind : ℕ → ℕ) (fr : Frame) (s : System d.World) (a x : ℕ) (v : List ℕ) (k c : ℕ)
      (w : List ℕ)
      → (eip nbytes j : ℕ) → IsName (x ∷ v)
      → c ≢ b' '
      → NoNul (c ∷ w)
      → length (c ∷ w) + k ≤ 128
      → length (c ∷ w) < 50
      → length fr.args ≡ 128
      → ((b : ℕ) → length (s.kernel.pcbs b).args ≡ 128)
      → j < nbytes
      → (syscall_execute d image fr (some (command a (x ∷ v) k (c ∷ w))) s).0 ≡ enters_user eip
      → let t = (syscall_execute d image fr (some (command a (x ∷ v) k (c ∷ w))) s).1 in
        let got = syscall_getargs behind true (pos nbytes) t in
        (got.0 ≡ pos 0) × (length got.1 ≡ nbytes) × (get_or got.1 j 0 ≡ arg_byte behind (c ∷ w) j)
  unfolding syscall_execute
  execute-getargs behind fr s a x v k c w eip nbytes j name first plain room short fr8 blocks hj e =
      let input = command a (x ∷ v) k (c ∷ w) in
      let parsed = parse_args (some input) fr.file_name fr.args in
      let t = (syscall_execute d image fr (some input) s).1 in
      let (b, args) = check_args fr parsed.2 _ _ eip e in
      let split =
        ap (λ r. r.2) (parse_args-command a x v k c w fr.file_name fr.args name first plain) in
      getargs_of behind t c w nbytes j plain.0 (omega (arith, short))
        (λ i hi.
          ap (λ l. get_or l i 0) args
          ∙ ap (λ l. get_or (strncpy (s.kernel.pcbs b).args l 128) i 0) split
          ∙ copied_args (s.kernel.pcbs b).args fr.args c w k i (blocks b) fr8 plain room short hi)
        hj
