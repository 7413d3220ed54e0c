-- ===== src/Psv/Path/Split.antt =====
-- The rounds of split_path over parts.
use martian_os.Prelude.{
  ℕ, suc, ◌+◌, ◌-◌, ◌<◌, ◌≤◌, ◌≡◌, refl, sym, ap, ◌∙◌, Bool, true, List, [], ◌∷◌, ◌++◌, length,
  get_or, drop, ◌==◌, leb→le, if◌then◌else◌, length-append, arith,
}
use mathlib.Core.List.{append_assoc, append-nil}
use martian_os.CString.{strlen}
use martian_os.CString.Fill.{no_nul}
use martian_os.Psv.Path.{PathT, new_part, split_from, zero_path}
use martian_os.Psv.Path.Flat.{plain-no_nul, is_part, are_parts, parts_path, new_part-parts_path}
use martian_os.Psv.Path.Scan.{drop-suc, drop-add, first_of, scan_last, one_part}

-- Parts with a slash behind each.
abbrev pub join_slash : List (List ℕ) → List ℕ
join_slash [] = []
join_slash (c ∷ cs) = c ++ (b'/' ∷ join_slash cs)

pub are_parts-append :
    (cs ds : List (List ℕ))
    → are_parts cs ≡ true
    → are_parts ds ≡ true
    → are_parts (cs ++ ds) ≡ true
are_parts-append [] ds h k = k
are_parts-append (c ∷ cs) ds h k = ground (arith, are_parts-append cs ds)

-- Every part with a slash behind it goes into the table.
slash_parts :
    (path : List ℕ) (cs ds : List (List ℕ)) (u : List ℕ) (a n beg : ℕ)
    → are_parts ds ≡ true
    → are_parts cs ≡ true
    → length ds + length cs ≤ 32
    → drop beg path ≡ join_slash cs ++ u
    → strlen path ≡ beg + n
    → n ≡ length (join_slash cs) + length u
    → split_from path n beg beg (parts_path a ds)
      ≡ split_from path
          (length u)
          (beg + length (join_slash cs))
          (beg + length (join_slash cs))
          (parts_path a (ds ++ cs))
slash_parts path [] ds u a n beg hd hc k d l e =
    let e1 : beg + 0 ≡ beg = omega arith in
    let e2 : n ≡ length u = omega arith in rw (e1, e2, append-nil ds) refl
slash_parts path (c ∷ cs) ds u a n beg hd hc k d l e =
    let m : ℕ = length (join_slash cs) + length u in
    let r : List ℕ = join_slash cs ++ u in
    let b1 : ℕ = beg + length c + 1 in
    let d1 : drop beg path ≡ c ++ (b'/' ∷ r) = d ∙ append_assoc c (b'/' ∷ join_slash cs) u in
    let len = length-append c (b'/' ∷ join_slash cs) in
    let n1 : n ≡ length c + suc m = omega arith in
    let first = one_part path c r n m beg (parts_path a ds) (ground arith) d1 l n1 (omega arith) in
    let new = new_part-parts_path a ds c (b'/' ∷ r) hd (ground arith) (omega arith) in
    let d2 : drop b1 path ≡ r =
      drop-suc (beg + length c) path ∙ ap (drop 1) (drop-add beg path c (b'/' ∷ r) d1) in
    let hd1 = are_parts-append ds (c ∷ []) hd (ground arith) in
    let ldc = length-append ds (c ∷ []) in
    let ih =
      slash_parts path cs (ds ++ (c ∷ [])) u a m b1 hd1 (ground arith) (omega arith) d2
        (omega arith) refl in
    let ends : b1 + length (join_slash cs) ≡ beg + length (join_slash (c ∷ cs)) = omega arith in
    first
    ∙ ap (split_from path m b1 b1) new
    ∙ ih
    ∙ ap (λ j. split_from path (length u) j j (parts_path a ((ds ++ (c ∷ [])) ++ cs))) ends
    ∙ ap
        (λ es.
          split_from path (length u) (beg + length (join_slash (c ∷ cs)))
            (beg + length (join_slash (c ∷ cs))) (parts_path a es))
        (append_assoc ds (c ∷ []) cs)

-- Behind the parts: what a round does with nothing, a last part or an empty part.
pub after_part :
    (path c : List ℕ) (cs : List (List ℕ)) (a beg : ℕ)
    → are_parts cs ≡ true
    → is_part c ≡ true
    → length cs < 32
    → drop beg path ≡ c
    → strlen path ≡ beg + length c
    → split_from path (length c) beg beg (parts_path a cs) ≡ parts_path a (cs ++ (c ∷ []))
after_part path c cs a beg hcs hc k d l =
    let cut : beg + length c - beg ≡ length c = omega arith in
    let len : 1 ≤ length c = leb→le 1 (length c) (ground arith) in
    scan_last path c (length c) beg beg (parts_path a cs) (ground arith) d refl (omega arith) l k
    ∙ ap (new_part (parts_path a cs) (drop beg path)) cut
    ∙ ap (λ s. new_part (parts_path a cs) s (length c)) (d ∙ sym (append-nil c))
    ∙ new_part-parts_path a cs c [] hcs hc k

pub after_empty :
    (path v : List ℕ) (n beg : ℕ) (p : PathT)
    → drop beg path ≡ b'/' ∷ v
    → split_from path (suc n) beg beg p ≡ p
unfolding split_from
after_empty path v n beg p d =
    let x0 : get_or path beg 0 ≡ b'/' = first_of beg b'/' path v d in
    let same : (beg == beg) ≡ true = ground arith in rw (x0, same) refl

pub strlen-no_nul : (s : List ℕ) → no_nul s ≡ true → strlen s ≡ length s
unfolding strlen
strlen-no_nul [] h = refl
strlen-no_nul (x ∷ s) h = ground (arith, strlen-no_nul s)

pub no_nul-append : (s t : List ℕ) → no_nul s ≡ true → no_nul t ≡ true → no_nul (s ++ t) ≡ true
no_nul-append [] t h k = k
no_nul-append (x ∷ s) t h k = ground (arith, no_nul-append s t)

pub join_slash-no_nul : (cs : List (List ℕ)) → are_parts cs ≡ true → no_nul (join_slash cs) ≡ true
join_slash-no_nul [] h = refl
join_slash-no_nul (c ∷ cs) h =
    no_nul-append c (b'/' ∷ join_slash cs) (plain-no_nul c (ground arith))
      (join_slash-no_nul cs (ground arith))

-- A path from its beginning.
pub whole :
    (cs : List (List ℕ)) (u : List ℕ) (a : ℕ)
    → are_parts cs ≡ true
    → no_nul u ≡ true
    → length cs ≤ 32
    → split_from (join_slash cs ++ u) (strlen (join_slash cs ++ u)) 0 0 (zero_path a)
      ≡ split_from
          (join_slash cs ++ u)
          (length u)
          (length (join_slash cs))
          (length (join_slash cs))
          (parts_path a cs)
whole cs u a h hu k =
    let l =
      strlen-no_nul (join_slash cs ++ u)
        (no_nul-append (join_slash cs) u (join_slash-no_nul cs h) hu) in
    let z : 0 + length (join_slash cs) ≡ length (join_slash cs) = omega arith in
    slash_parts (join_slash cs ++ u) cs [] u a (strlen (join_slash cs ++ u)) 0 refl h (omega arith)
      refl (omega arith) (l ∙ length-append (join_slash cs) u)
    ∙ ap (λ j. split_from (join_slash cs ++ u) (length u) j j (parts_path a cs)) z

-- A path text, with a slash in front where it is absolute.
abbrev pub path_text : Bool → List ℕ → List ℕ
path_text absolute s = if absolute then b'/' ∷ s else s
