-- ===== src/CString/Tests.antt =====
-- Runs of the string functions, and the theorems at concrete inputs.
use martian_os.Prelude.{ℕ, zero, suc, ◌≡◌, refl, List, [], ◌∷◌, ◌++◌, replicate, arith}
use martian_os.Prelude.Int.{pos, negsuc}
use martian_os.CString.{codes, strncmp, strncpy, itoa}
use martian_os.CString.Compare.{AreBytes}

abbrev shell : List ℕ
shell = codes "shell"

abbrev shift : List ℕ
shift = codes "shift"

compare_names : strncmp shell shift 32 ≡ negsuc 3
unfolding strncmp
compare_names = refl

compare_prefix : strncmp shell shift 2 ≡ pos 0
unfolding strncmp
compare_prefix = refl

print_decimal : itoa 391 10 ≡ codes "391" ++ (0 ∷ [])
unfolding itoa
print_decimal = refl

print_hexadecimal : itoa 48879 16 ≡ codes "BEEF" ++ (0 ∷ [])
unfolding itoa
print_hexadecimal = refl

pad_name : strncpy (replicate 6 7) (codes "ab") 4 ≡ codes "ab" ++ (0 ∷ 0 ∷ 7 ∷ 7 ∷ [])
unfolding strncpy
pad_name = refl

shell-AreBytes : AreBytes shell
shell-AreBytes zero = omega arith
shell-AreBytes (suc zero) = omega arith
shell-AreBytes (suc (suc zero)) = omega arith
shell-AreBytes (suc (suc (suc zero))) = omega arith
shell-AreBytes (suc (suc (suc (suc zero)))) = omega arith
shell-AreBytes (suc (suc (suc (suc (suc i))))) = omega arith

shift-AreBytes : AreBytes shift
shift-AreBytes zero = omega arith
shift-AreBytes (suc zero) = omega arith
shift-AreBytes (suc (suc zero)) = omega arith
shift-AreBytes (suc (suc (suc zero))) = omega arith
shift-AreBytes (suc (suc (suc (suc zero)))) = omega arith
shift-AreBytes (suc (suc (suc (suc (suc i))))) = omega arith
