-- ===== src/Psv/Path/Join.antt =====
-- split_path on paths that are put together from parts.
use martian_os.Prelude.{
  ℕ, ◌+◌, ◌<◌, ◌≤◌, ◌≡◌, ◌≢◌, refl, sym, ap, ◌∙◌, Bool, true, false, List, [], ◌∷◌, ◌++◌, length,
  get_or, drop, ◌==◌, if◌then◌else◌, length-append, arith,
}
use mathlib.Core.Path.{subst}
use mathlib.Core.List.{append_assoc, append-nil}
use martian_os.CString.{strlen}
use martian_os.CString.Fill.{no_nul}
use martian_os.Psv.Path.{PathT, split_from, split_path, is_abs, zero_path}
use martian_os.Psv.Path.Flat.{plain-no_nul, is_part, are_parts, parts_path}
use martian_os.Psv.Path.Scan.{drop-add}
use martian_os.Psv.Path.Split.{
  join_slash, path_text, are_parts-append, whole, after_part, after_empty, strlen-no_nul,
  no_nul-append, join_slash-no_nul,
}

split_path_absolute :
    (s : List ℕ) → split_path (b'/' ∷ s) ≡ split_from s (strlen s) 0 0 (zero_path 1)
unfolding split_path is_abs
split_path_absolute s = refl

split_path_relative :
    (s : List ℕ) → get_or s 0 0 ≢ b'/' → split_path s ≡ split_from s (strlen s) 0 0 (zero_path 0)
unfolding split_path is_abs
split_path_relative s h = let t : (get_or s 0 0 == b'/') ≡ false = ground arith in rw t refl

-- A text that begins with a part does not begin with a slash.
part_first : (c t : List ℕ) → is_part c ≡ true → get_or (c ++ t) 0 0 ≢ b'/'
part_first [] t h e = ground arith
part_first (x ∷ c) t h e = ground arith

join_first :
    (cs : List (List ℕ)) (c t : List ℕ)
    → are_parts cs ≡ true
    → is_part c ≡ true
    → get_or (join_slash cs ++ (c ++ t)) 0 0 ≢ b'/'
join_first [] c t h hc = part_first c t hc
join_first (d ∷ cs) c t h hc =
    subst (λ s. get_or s 0 0 ≢ b'/') (sym (append_assoc d (b'/' ∷ join_slash cs) (c ++ t)))
      (part_first d (b'/' ∷ (join_slash cs ++ (c ++ t))) (ground arith))

-- How the rounds over a text and the test of its first character make up `split_path`.
split_path-path_text :
    (absolute : Bool) (s : List ℕ)
    → get_or s 0 0 ≢ b'/'
    → split_path (path_text absolute s)
      ≡ split_from s (strlen s) 0 0 (zero_path (if absolute then 1 else 0))
split_path-path_text true s h = split_path_absolute s
split_path-path_text false s h = split_path_relative s h

last_part :
    (a : ℕ) (cs : List (List ℕ)) (c : List ℕ)
    → are_parts cs ≡ true
    → is_part c ≡ true
    → length cs < 32
    → split_from (join_slash cs ++ c) (strlen (join_slash cs ++ c)) 0 0 (zero_path a)
      ≡ parts_path a (cs ++ (c ∷ []))
last_part a cs c h hc k =
    let hu = plain-no_nul c (ground arith) in
    let l =
      strlen-no_nul (join_slash cs ++ c)
        (no_nul-append (join_slash cs) c (join_slash-no_nul cs h) hu) in
    let d = drop-add 0 (join_slash cs ++ c) (join_slash cs) c refl in
    let z : 0 + length (join_slash cs) ≡ length (join_slash cs) = omega arith in
    whole cs c a h hu (omega arith)
    ∙ after_part (join_slash cs ++ c) c cs a (length (join_slash cs)) h hc k
        (sym (ap (λ j. drop j (join_slash cs ++ c)) z) ∙ d) (l ∙ length-append (join_slash cs) c)

join_slash-snoc :
    (cs : List (List ℕ)) (c : List ℕ)
    → join_slash (cs ++ (c ∷ [])) ≡ join_slash cs ++ (c ++ (b'/' ∷ []))
join_slash-snoc [] c = refl
join_slash-snoc (d ∷ cs) c =
    ap (λ s. d ++ (b'/' ∷ s)) (join_slash-snoc cs c)
    ∙ sym (append_assoc d (b'/' ∷ join_slash cs) (c ++ (b'/' ∷ [])))

no_rounds : (path : List ℕ) (i beg : ℕ) (p : PathT) → split_from path 0 i beg p ≡ p
unfolding split_from
no_rounds path i beg p = refl

-- A path of 1 to 32 parts, each of 1 to 32 characters that are neither NUL nor a slash, with one
-- slash between two parts, is cut into just those parts: `num` is their count, `abs` tells whether a
-- slash stands in front, and `names` holds the parts in order, each filled up with NULs to 32 bytes,
-- and NULs behind them. One more slash behind the last part makes no difference.
pub split_path-join :
    (absolute : Bool) (cs : List (List ℕ)) (c : List ℕ)
    → are_parts cs ≡ true
    → is_part c ≡ true
    → length cs < 32
    → (split_path (path_text absolute (join_slash cs ++ c))
        ≡ parts_path (if absolute then 1 else 0) (cs ++ (c ∷ [])))
      × (split_path (path_text absolute (join_slash (cs ++ (c ∷ []))))
          ≡ parts_path (if absolute then 1 else 0) (cs ++ (c ∷ [])))
split_path-join absolute cs c h hc k =
    let a : ℕ = if absolute then 1 else 0 in
    let es : List (List ℕ) = cs ++ (c ∷ []) in
    let hes = are_parts-append cs (c ∷ []) h (ground arith) in
    let j = join_slash-snoc cs c in
    let n = append-nil (join_slash es) in
    let first0 = join_first cs c [] h hc in
    let first1 = join_first cs c (b'/' ∷ []) h hc in
    let no0 = subst (λ s. get_or (join_slash cs ++ s) 0 0 ≢ b'/') (append-nil c) first0 in
    let no1 = subst (λ s. get_or s 0 0 ≢ b'/') (sym j) first1 in
    let w = whole es [] a hes refl (omega (arith, length-append cs (c ∷ []))) in
    let w' =
      subst (λ s. split_from s (strlen s) 0 0 (zero_path a) ≡ parts_path a es) n
        (w ∙ no_rounds _ _ _ _) in
    (
      split_path-path_text absolute (join_slash cs ++ c) no0 ∙ last_part a cs c h hc k,
      split_path-path_text absolute (join_slash es) no1 ∙ w',
    )

-- At an empty part the rest of the path is dropped: behind the parts, each with its slash, one more
-- slash ends the cutting, whatever follows. No error is returned; the result is that of the path in
-- front, of at least one and at most 32 parts. No NUL stands in what follows.
pub split_path-empty_part :
    (absolute : Bool) (c : List ℕ) (cs : List (List ℕ)) (v : List ℕ)
    → is_part c ≡ true
    → are_parts cs ≡ true
    → no_nul v ≡ true
    → length (c ∷ cs) ≤ 32
    → split_path (path_text absolute (join_slash (c ∷ cs) ++ (b'/' ∷ v)))
      ≡ parts_path (if absolute then 1 else 0) (c ∷ cs)
split_path-empty_part absolute c cs v hc h hv k =
    let a : ℕ = if absolute then 1 else 0 in
    let s : List ℕ = join_slash (c ∷ cs) in
    let path : List ℕ = s ++ (b'/' ∷ v) in
    let no : get_or path 0 0 ≢ b'/' =
      subst (λ t. get_or t 0 0 ≢ b'/') (sym (append_assoc c (b'/' ∷ join_slash cs) (b'/' ∷ v)))
        (part_first c (b'/' ∷ (join_slash cs ++ (b'/' ∷ v))) hc) in
    let hcs : are_parts (c ∷ cs) ≡ true = ground arith in
    let z : 0 + length s ≡ length s = omega arith in
    split_path-path_text absolute path no
    ∙ whole (c ∷ cs) (b'/' ∷ v) a hcs (ground arith) k
    ∙ after_empty path v (length v) (length s) (parts_path a (c ∷ cs))
        (sym (ap (λ j. drop j path) z) ∙ drop-add 0 path s (b'/' ∷ v) refl)
