-- ===== src/Process/Pids.antt =====
-- syscall_handler.c: the process ids, and where the process control blocks stand.
pub mod Laws
pub mod Tests
use martian_os.Prelude.{ℕ, zero, suc, ◌+◌, ◌*◌, ◌^◌, List, get_or, set, ◌==◌, if◌then◌else◌}
use martian_os.Prelude.Int.{ℤ, pos, negsuc, minus_one, pos_part, neg_part}
use martian_os.Prelude.Machine.{sub32}

-- `_8K` and `_8M`.
abbrev pub size_8k : ℕ
size_8k = 8192

abbrev pub size_8m : ℕ
size_8m = 8388608

-- The bit pattern of an `int`.
abbrev pub bits32 : ℤ → ℕ
bits32 n = sub32 (pos_part n) (neg_part n)

-- `_8M - (pid + 1) * _8K`; a `pid` of -1 gives 8 MB itself.
unfoldable pub get_pcb_ptr : ℤ → ℕ
get_pcb_ptr (pos pid) = sub32 size_8m ((pid + 1) * size_8k)
get_pcb_ptr (negsuc n) = sub32 (size_8m + n * size_8k) 0

-- The loop of `record_process`, from `i` on with `n` rounds left.
pub first_free_pid : List ℕ → ℕ → ℕ → ℤ
first_free_pid bitmap zero i = minus_one
first_free_pid bitmap (suc n) i =
    let rest = first_free_pid bitmap n (i + 1) in if 0 == get_or bitmap i 0 then pos i else rest

-- Marks the id that the loop stops at.
abbrev pub mark_pid : List ℕ → ℤ → List ℕ
mark_pid bitmap (pos i) = set bitmap i 1
mark_pid bitmap (negsuc n) = bitmap

unfoldable pub record_process : List ℕ → ℤ × List ℕ
unfolding first_free_pid
record_process bitmap =
    let new_pid = first_free_pid bitmap 6 0 in (new_pid, mark_pid bitmap new_pid)

-- Outside of `pcb_bitmap` nothing is read or written.
pub decord_process : ℤ → List ℕ → ℤ × List ℕ
decord_process (negsuc n) bitmap = (minus_one, bitmap)
decord_process (pos pid) bitmap =
    if get_or bitmap pid 0 == 0 then (minus_one, bitmap) else (pos 0, set bitmap pid 0)
