-- ===== src/Word.antt =====
-- Machine words as their bits, the least significant first: the bit operations that the super
-- block's maps (PSV_fs_lite/helper.c) and the interrupt masks (i8259.c) are written with.
pub mod Laws
use martian_os.Prelude.{
  ℕ, zero, suc, Bool, true, false, not, ◌&&◌, ◌||◌, List, [], ◌∷◌, ◌++◌, map, get_or, drop,
  replicate, if◌then◌else◌,
}
use martian_os.Prelude.Int.{ℤ, pos, minus_one}

abbrev pub Word : Type 0
Word = List Bool

-- Bit `i` of a word; bits past its width are 0.
abbrev pub test_bit : Word → ℕ → Bool
test_bit w i = get_or w i false

-- The word 0.
abbrev pub zeros : ℕ → Word
zeros width = replicate width false

-- `1 << k`, in a word of the given width.
abbrev pub one_shl : ℕ → ℕ → Word
one_shl zero k = []
one_shl (suc width) zero = true ∷ zeros width
one_shl (suc width) (suc k) = false ∷ one_shl width k

-- `a | b`
abbrev pub or_word : Word → Word → Word
or_word [] _ = []
or_word (a ∷ as_) [] = a ∷ as_
or_word (a ∷ as_) (b ∷ bs) = (a || b) ∷ or_word as_ bs

-- `a & b`
abbrev pub and_word : Word → Word → Word
and_word [] _ = []
and_word (a ∷ as_) [] = false ∷ and_word as_ []
and_word (a ∷ as_) (b ∷ bs) = (a && b) ∷ and_word as_ bs

-- `~a`
abbrev pub not_word : Word → Word
not_word = map not

-- The sign bit, the last one.
abbrev pub sign_bit : Word → Bool
sign_bit [] = false
sign_bit (b ∷ []) = b
sign_bit (b ∷ c ∷ w) = sign_bit (c ∷ w)

-- `w >> k` of a signed word: the sign bit is shifted in.
abbrev pub asr : Word → ℕ → Word
asr w k = drop k w ++ replicate k (sign_bit w)

-- `w % 2` of a signed word. C's remainder has the sign of the dividend.
abbrev pub rem_two : Word → ℤ
rem_two w = if test_bit w 0 then (if sign_bit w then minus_one else pos 1) else pos 0
