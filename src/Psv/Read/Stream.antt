-- ===== src/Psv/Read/Stream.antt =====
-- The reads of an open folder until one gives 0.
use martian_os.Prelude.{
  ℕ, zero, suc, ◌+◌, ◌^◌, ◌<◌, ◌≤◌, ◌≡◌, refl, sym, ap, ◌∙◌, inl, inr, true, false, Bool-cases,
  Option, none, some, List, [], ◌∷◌, ◌++◌, map, length, drop, take, replicate, ltb, leb, ◌==◌,
  length-append, arith,
}
use martian_os.Prelude.Int.{ℤ, pos, negsuc}
use martian_os.CString.{strncpy}
use martian_os.CString.Compare.{text}
use martian_os.CString.Copy.{strncpy_lem}
use martian_os.Fs.{FileEntry}
use martian_os.Psv.Types.{FolderNode, folder}
use martian_os.Psv.Bitmap.{is_free}
use martian_os.Psv.Volume.{Layout, Volume, zero_fnode, read_fnode}
use martian_os.Psv.Content.{put_bytes}
use martian_os.Psv.Read.{next_name, folder_entry, psv_folder_read, read_in}
use martian_os.Psv.Read.Listing.{names_from, Advances, next_name-Advances, names_from_end}

-- The buffer of a read in front of the later ones.
abbrev pub add_name : List ℕ → Option (List (List ℕ)) → Option (List (List ℕ))
add_name out none = none
add_name out (some outs) = some (out ∷ outs)

-- What comes of one read, with the later reads as a function.
abbrev pub collect :
    (FileEntry → List ℕ → Option (List (List ℕ)))
    → Option (ℤ × List ℕ × FileEntry)
    → Option (List (List ℕ))
collect later none = none
collect later (some (negsuc k, out, fp)) = none
collect later (some (pos zero, out, fp)) = some []
collect later (some (pos (suc k), out, fp)) = add_name out (later fp out)

-- The buffers that the reads leave, up to the read that gives 0. Without enough fuel, after an
-- error, or after a read of a node that is not there, it is none.
pub read_all : (l : Layout) → ℕ → FileEntry → List ℕ → Volume l.Sector → Option (List (List ℕ))
read_all l zero fp buf v = none
read_all l (suc n) fp buf v =
    collect (λ fp' out. read_all l n fp' out v) (psv_folder_read l fp buf v)

cleared : List ℕ → List ℕ
cleared buf = put_bytes buf 0 (replicate 33 0)

cleared_long : (buf : List ℕ) → 32 ≤ length (cleared buf)
unfolding cleared put_bytes
cleared_long buf = omega (
  arith,
  length-append (take 0 buf) (replicate 33 0 ++ drop (0 + 33) buf),
  length-append (replicate 33 0) (drop (0 + 33) buf),
)

-- What a read gives from a position in front of the end, and at the end.
read_in_entry :
    (fp : FileEntry) (buf : List ℕ) (f : FolderNode)
    → fp.file_pos < 24
    → read_in fp buf (some f) ≡ some (folder_entry (cleared buf) fp (next_name f fp.file_pos))
unfolding read_in cleared
read_in_entry fp buf f h =
    let s : ltb fp.file_pos (2 ^ 31) ≡ true = ground arith in
    let t : leb 24 fp.file_pos ≡ false = ground arith in rw (s, t) (ground arith)

read_in_end :
    (fp : FileEntry) (buf : List ℕ) (f : FolderNode)
    → fp.file_pos ≡ 24
    → read_in fp buf (some f) ≡ some (pos 0, buf, fp)
unfolding read_in
read_in_end fp buf f h =
    let s : ltb fp.file_pos (2 ^ 31) ≡ true = ground arith in
    let t : leb 24 fp.file_pos ≡ true = ground arith in rw (s, t) (ground arith)

psv_folder_read_here :
    (l : Layout) (fp : FileEntry) (buf : List ℕ) (v : Volume l.Sector) (f : FolderNode)
    → is_free v.super_block folder fp.inode ≡ false
    → read_fnode l zero_fnode fp.inode v ≡ f
    → psv_folder_read l fp buf v ≡ read_in fp buf (some f)
unfolding psv_folder_read
psv_folder_read_here l fp buf v f m e = ap (read_in fp buf) (rw (m, e) refl)

-- The reads list the names that are left.
Lists : FolderNode → ℕ → Option (List (List ℕ)) → Type 0
Lists f idx r =
    (outs : List (List ℕ)) × (r ≡ some outs)
    × (map (text 32) outs ≡ map (text 32) (names_from f idx))

add_name-Lists :
    (f : FolderNode) (idx j : ℕ) (x out : List ℕ) (r : Option (List (List ℕ)))
    → names_from f idx ≡ x ∷ names_from f j
    → text 32 out ≡ text 32 x
    → Lists f j r
    → Lists f idx (add_name out r)
unfolding Lists
add_name-Lists f idx j x out r h e (outs, q, m) =
    (out ∷ outs, rw q refl, rw (e, m) (sym (ap (map (text 32)) h)))

-- One read in front of the end, when the later reads list what is left behind it.
collect-Lists :
    (f : FolderNode) (later : FileEntry → List ℕ → Option (List (List ℕ))) (fp : FileEntry)
    (idx : ℕ) (buf : List ℕ) (r : Option (List ℕ) × ℕ)
    → 32 ≤ length buf
    → ((j : ℕ) (out : List ℕ)
        → idx < j
        → j ≤ 24
        → Lists f j (later (record fp { file_pos = j }) out))
    → Advances f idx r
    → Lists f idx (collect later (some (folder_entry buf fp r)))
unfolding folder_entry Lists Advances
collect-Lists f later fp idx buf r hb ih (inl (e, z)) = rw e ([], refl, rw z refl)
collect-Lists f later fp idx buf r hb ih (inr (x, j, e, lt_, le_, z)) =
    let out = strncpy buf x 32 in
    rw e (
      add_name-Lists f idx j x out (later (record fp { file_pos = j }) out) z
        (strncpy_lem buf x 32 hb).0 (ih j out lt_ le_))

end-Lists :
    (f : FolderNode) (idx : ℕ)
    → idx ≡ 24
    → length f.fterms ≡ 8
    → length f.iterms ≡ 16
    → Lists f idx (some [])
unfolding Lists
end-Lists f idx p hf hi =
    ([], refl, ap (map (text 32)) (sym (ap (names_from f) p ∙ names_from_end f hf hi)))

read_all-Lists :
    (l : Layout) (n : ℕ) (fp : FileEntry) (buf : List ℕ) (v : Volume l.Sector) (f : FolderNode)
    → is_free v.super_block folder fp.inode ≡ false
    → read_fnode l zero_fnode fp.inode v ≡ f
    → length f.fterms ≡ 8
    → length f.iterms ≡ 16
    → fp.file_pos ≤ 24
    → 24 < fp.file_pos + n
    → Lists f fp.file_pos (read_all l n fp buf v)
unfolding read_all
read_all-Lists l zero fp buf v f m e hf hi h k = absurd (omega arith)
read_all-Lists l (suc n) fp buf v f m e hf hi h k = elim (Bool-cases (fp.file_pos == 24)) [
  | inl at_end ↦
      let p : fp.file_pos ≡ 24 = ground arith in
      let r = psv_folder_read_here l fp buf v f m e ∙ read_in_end fp buf f p in
      rw r (end-Lists f fp.file_pos p hf hi)
  | inr before ↦
      let r = psv_folder_read_here l fp buf v f m e ∙ read_in_entry fp buf f (ground arith) in
      rw r (
        collect-Lists f (λ fp' out. read_all l n fp' out v) fp fp.file_pos (cleared buf)
          (next_name f fp.file_pos) (cleared_long buf)
          (λ j out a b.
            read_all-Lists l n (record fp { file_pos = j }) out v f m e hf hi b (omega arith))
          (next_name-Advances f fp.file_pos hf hi h))
]

-- Reading an open folder again and again ends, after at most 25 reads from position 0, with a read
-- that gives 0. The buffers of the reads before it hold, in order, the names of the used folder
-- terms and then those of the used file terms, from the position at which the reads began: none is
-- left out, none comes twice. The folder's node is marked, and it is `f` on the disk, with all its
-- terms.
pub psv_folder_read-lists :
    (l : Layout) (n : ℕ) (fp : FileEntry) (buf : List ℕ) (v : Volume l.Sector) (f : FolderNode)
    → is_free v.super_block folder fp.inode ≡ false
    → read_fnode l zero_fnode fp.inode v ≡ f
    → length f.fterms ≡ 8
    → length f.iterms ≡ 16
    → fp.file_pos ≤ 24
    → 24 < fp.file_pos + n
    → (outs : List (List ℕ)) × (read_all l n fp buf v ≡ some outs)
      × (map (text 32) outs ≡ map (text 32) (names_from f fp.file_pos))
unfolding Lists
psv_folder_read-lists = read_all-Lists
