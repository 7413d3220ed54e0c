-- ===== src/Directory/Names.antt =====
-- What a read of the directory gives, and which entry a name finds.
use martian_os.Prelude.{
  ℕ, zero, suc, ◌+◌, ◌<◌, ◌≤◌, ◌≡◌, refl, ap, ◌∙◌, ◌⊎◌, inl, inr, true, false, Bool-cases, List, [],
  ◌∷◌, ◌++◌, get_or, drop, length, replicate, ltb, leb, ◌==◌, arith,
}
use martian_os.Prelude.Int.{pos}
use martian_os.CString.{strlen, strncpy}
use martian_os.CString.Compare.{text, text_from}
use martian_os.CString.Copy.{strncpy_lem}
use martian_os.CString.Fill.{no_nul}
use martian_os.Fs.{FileEntry}
use martian_os.Psv.Content.{put_bytes}
use martian_os.Directory.{
  DirEntry, BootBlock, zero_entry, read_dentry_by_index, has_name, look_up, look_up_boot,
  name_bytes, filled, dir_read,
}

name_bytes_text : (s : List ℕ) (n i : ℕ) → name_bytes s n i ≡ text_from s n i
unfolding name_bytes text_from
name_bytes_text s zero i = refl
name_bytes_text s (suc n) i = ground (arith, name_bytes_text s n (i + 1))

text-no_nul :
    (s : List ℕ) (n i : ℕ) → (no_nul (text_from s n i) ≡ true) × (length (text_from s n i) ≤ n)
unfolding text_from
text-no_nul s zero i = (refl, omega arith)
text-no_nul s (suc n) i = let (a, b) = text-no_nul s n (i + 1) in ground (arith, a, b)

-- The text of what is read from index `i` on does not look at what stands in front.
text_from-suc : (x : ℕ) (s : List ℕ) (n i : ℕ) → text_from (x ∷ s) n (suc i) ≡ text_from s n i
unfolding text_from
text_from-suc x s zero i = refl
text_from-suc x s (suc n) i =
    let e : suc i + 1 ≡ suc (i + 1) = omega arith in rw (e, text_from-suc x s n (i + 1)) refl

-- Characters with a NUL behind them are their own text.
text_append :
    (t r : List ℕ) (n : ℕ) → no_nul t ≡ true → length t ≤ n → get_or r 0 0 ≡ 0 → text n (t ++ r) ≡ t
unfolding text_from
text_append [] r zero h k z = refl
text_append [] r (suc n) h k z = ground (arith, z)
text_append (x ∷ t) r zero h k z = absurd (omega arith)
text_append (x ∷ t) r (suc n) h k z =
    let hx : (x == 0) ≡ false = ground arith in
    rw (hx, text_from-suc x (t ++ r) n 0)
      (ap (◌∷◌ x) (text_append t r n (ground arith) (omega arith) z))

-- The buffer behind the name holds a NUL.
behind_zeros : (n k : ℕ) (r : List ℕ) → n < k → get_or (drop n (replicate k 0 ++ r)) 0 0 ≡ 0
behind_zeros n zero r h = absurd (omega arith)
behind_zeros zero (suc k) r h = refl
behind_zeros (suc n) (suc k) r h = behind_zeros n k r (omega arith)

text-filled : (buf t : List ℕ) → no_nul t ≡ true → length t ≤ 32 → text 32 (filled buf t) ≡ t
unfolding put_bytes
text-filled buf t h k =
    let e : 0 + length t ≡ length t = omega arith in
    text_append t (drop (0 + length t) (replicate 33 0 ++ drop (0 + 33) buf)) 32 h k
      (rw e (behind_zeros (length t) 33 (drop (0 + 33) buf) (omega arith)))

-- The name of an entry of the boot block.
abbrev pub name_of : BootBlock → ℕ → List ℕ
name_of boot i = text 32 (get_or boot.files i zero_entry).filename

-- Reading a directory: at a position in front of the end the result is the length of that entry's
-- name, the buffer holds the name, of 32 characters at most, and the position moves on by one; from
-- the end on the result is 0, and neither the buffer nor the position changes.
pub dir_read_lem :
    (boot : BootBlock) (dentry : DirEntry) (fp : FileEntry) (buf : List ℕ)
    → length dentry.filename ≡ 32
    → let r = dir_read boot dentry fp buf in
      ((fp.file_pos < boot.num_dir_entries)
        × (r.0 ≡ length (name_of boot fp.file_pos))
        × (text 32 r.1 ≡ name_of boot fp.file_pos)
        × (r.2 ≡ record fp { file_pos = fp.file_pos + 1 }))
      ⊎ ((boot.num_dir_entries ≤ fp.file_pos) × (r ≡ (0, buf, fp)))
unfolding dir_read read_dentry_by_index
dir_read_lem boot dentry fp buf hd =
    let s = (get_or boot.files fp.file_pos zero_entry).filename in
    let same : name_bytes (strncpy dentry.filename s 32) 32 0 ≡ name_of boot fp.file_pos =
      name_bytes_text (strncpy dentry.filename s 32) 32 0
      ∙ (strncpy_lem dentry.filename s 32 (omega (arith, hd))).0 in
    let (clean, short) = text-no_nul s 32 0 in
    elim (Bool-cases (leb boot.num_dir_entries fp.file_pos)) [
      | inl end ↦ inr (ground arith, rw end refl)
      | inr in_front ↦
          rw (in_front, same)
            (inl (ground arith, refl, text-filled buf (name_of boot fp.file_pos) clean short, refl))
    ]

look_up-first :
    (boot : BootBlock) (fname : List ℕ) (dentry : DirEntry) (n i k : ℕ)
    → i ≤ k
    → k < i + n
    → has_name fname (get_or boot.files k zero_entry) ≡ true
    → ((j : ℕ) → i ≤ j → j < k → has_name fname (get_or boot.files j zero_entry) ≡ false)
    → look_up boot fname dentry n i ≡ (pos 0, (read_dentry_by_index boot k dentry).1)
unfolding look_up
look_up-first boot fname dentry zero i k lo hi e h = absurd (omega arith)
look_up-first boot fname dentry (suc n) i k lo hi e h = elim (Bool-cases (i == k)) [
  | inl here ↦
      let p : i ≡ k = ground arith in
      rw (ap (λ j. has_name fname (get_or boot.files j zero_entry)) p ∙ e)
        (ap (λ j. (pos 0, (read_dentry_by_index boot j dentry).1)) p)
  | inr away ↦ rw (h i (omega arith) (ground arith)) (
      look_up-first boot fname dentry n (i + 1) k (ground arith) (omega arith) e
        (λ j a b. h j (omega arith) b))
]

-- A name of at most 32 characters that the boot block has gives its first entry of that name: the
-- name, the type and the inode of the entry go to `dentry`.
pub look_up_boot-first :
    (boot : BootBlock) (fname : List ℕ) (dentry : DirEntry) (k : ℕ)
    → strlen fname ≤ 32
    → k < boot.num_dir_entries
    → has_name fname (get_or boot.files k zero_entry) ≡ true
    → ((j : ℕ) → j < k → has_name fname (get_or boot.files j zero_entry) ≡ false)
    → length dentry.filename ≡ 32
    → let e = get_or boot.files k zero_entry in
      let r = look_up_boot boot fname dentry in
      (r.0 ≡ pos 0)
      × (text 32 r.1.filename ≡ text 32 e.filename)
      × (r.1.kind ≡ e.kind)
      × (r.1.nr_inode ≡ e.nr_inode)
unfolding look_up_boot read_dentry_by_index
look_up_boot-first boot fname dentry k short hk found first hd =
    let t : ltb 32 (strlen fname) ≡ false = ground arith in
    let u : leb boot.num_dir_entries k ≡ false = ground arith in
    let e = get_or boot.files k zero_entry in
    let r =
      look_up-first boot fname dentry boot.num_dir_entries 0 k (omega arith) (omega arith) found
        (λ j lo. first j) in
    rw (t, r, u)
      (refl, (strncpy_lem dentry.filename e.filename 32 (omega (arith, hd))).0, refl, refl)
