-- ===== src/Keyboard/Codes.antt =====
-- keyboard.h and keyboard.c: the scan codes.
use martian_os.Prelude.{
  ℕ, Bool, ◌&&◌, ◌||◌, List, [], ◌∷◌, ◌++◌, Option, none, some, leb, ◌==◌, if◌then◌else◌,
}
use martian_os.CString.{codes}

-- The keys that `check_and_handle_special_button` takes. `function_key i` is one of F1 to F3.
pub data Key : Type 0 where
  ctrl_down ctrl_up left_shift_down left_shift_up right_shift_down right_shift_up : Key
  capslock_down backspace alt_down alt_up no_effect : Key
  function_key : ℕ → Key

-- The `case` labels, in their order.
abbrev pub case_labels : List (ℕ × Key)
case_labels =
    (0x1D, ctrl_down)
    ∷ (0xED, ctrl_down)
    ∷ (0x9D, ctrl_up)
    ∷ (0x2A, left_shift_down)
    ∷ (0xAA, left_shift_up)
    ∷ (0x36, right_shift_down)
    ∷ (0xB6, right_shift_up)
    ∷ (0x3A, capslock_down)
    ∷ (0xBA, no_effect)
    ∷ (0x0E, backspace)
    ∷ (0x8E, no_effect)
    ∷ (0x38, alt_down)
    ∷ (0xB8, alt_up)
    ∷ (0x0F, no_effect)
    ∷ (0x8F, no_effect)
    ∷ (0x3B, function_key 0)
    ∷ (0xBB, no_effect)
    ∷ (0x3C, function_key 1)
    ∷ (0xBC, no_effect)
    ∷ (0x3D, function_key 2)
    ∷ (0xBD, no_effect)
    ∷ []

-- The `switch` on a scan code: the case with that label.
unfoldable pub key_at : ℕ → List (ℕ × Key) → Option Key
key_at code [] = none
key_at code ((label, key) ∷ labels) =
    let rest = key_at code labels in if code == label then some key else rest

unfoldable pub key_of : ℕ → Option Key
key_of code = key_at code case_labels

-- `scan_code_set_1[...][0]`
abbrev pub scan_normal : List ℕ
scan_normal =
    0 ∷ 0 ∷ codes "1234567890-="
    ++ (8 ∷ 9 ∷ codes "qwertyuiop[]"
        ++ (10 ∷ codes "0asdfghjkl;" ++ (39 ∷ 96 ∷ b'0' ∷ 92 ∷ codes "zxcvbnm,./0*0 0")))

-- `scan_code_set_1[...][1]`
abbrev pub scan_shifted : List ℕ
scan_shifted =
    0 ∷ 0 ∷ codes "!@#$%^&*()_+"
    ++ (8 ∷ 9 ∷ codes "QWERTYUIOP{}"
        ++ (10 ∷ codes "0ASDFGHJKL:" ++ (34 ∷ 126 ∷ b'0' ∷ codes "|ZXCVBNM<>?0*0 0")))

-- The rows of the 26 letters.
abbrev pub is_letter : ℕ → Bool
is_letter code =
    (leb 0x10 code && leb code 0x19)
    || ((leb 0x1E code && leb code 0x26) || (leb 0x2C code && leb code 0x32))
