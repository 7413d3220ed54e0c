-- ===== src/Programs/Boot.antt =====
-- The calls of a kernel with one open file of the boot module, over file_read of fs.c.
use mathlib.Core.Path.{subst}
use martian_os.Prelude.{
  ℕ, zero, suc, some, ◌+◌, ◌-◌, ◌/◌, ◌≤◌, ◌<◌, ◌≡◌, refl, ap, sym, ◌∙◌, false, List, [], ◌∷◌, ◌++◌,
  length, min, ◌==◌, if◌then◌else◌, arith,
}
use martian_os.Prelude.Int.{ℤ, pos, minus_one, eqb_ℤ}
use martian_os.Prelude.Machine.{ones32}
use martian_os.Fs.{Image, FileEntry, inode_length, block_size, max_files, file_read}
use martian_os.Fs.Read.{file_bytes, file_bytes-append, GoodBlocks}
use martian_os.Fs.Read.Result.{Fits}
use martian_os.Fs.Read.Pieces.{file_read_part, file_read_end, length-file_bytes}
use martian_os.Programs.{Calls, cat}
use martian_os.Programs.Cat.{cat-concat}
use martian_os.Programs.Files.{Console, concat}

-- The text on the screen, and the entry of descriptor 2.
pub record Boot : Type 0 where
  pub shown : List ℕ
  pub fp : FileEntry

-- The result of a read, and -1 for all other descriptors.
abbrev pub read_result : ℕ × List ℕ × FileEntry → Boot → ℤ × List ℕ × Boot
read_result r w = (if r.0 == ones32 then minus_one else pos r.0, r.1, record w { fp = r.2 })

abbrev pub boot_kernel : Image → List ℕ → Calls
boot_kernel s name = record {
  World = Boot;
  getargs = λ n w. (pos 0, name, w);
  open_file = λ t w. (pos 2, w);
  read =
      λ fd n w. if eqb_ℤ fd (pos 2) then read_result (file_read s w.fp n) w else (minus_one, [], w);
  write = λ fd bs w.
      if eqb_ℤ fd (pos 1)
      then (pos (length bs), record w { shown = w.shown ++ bs })
      else (minus_one, w);
  execute = λ t w. (minus_one, w);
}

-- What reads of `n` bytes give, from the position in the file on.
abbrev pub PiecesFrom : Image → ℕ → ℕ → ℕ → List (List ℕ) → Type 0
PiecesFrom s n ino p [] = p ≡ inode_length s ino
PiecesFrom s n ino p (b ∷ bs) =
    (k : ℕ) × (0 < k)
    × (min (inode_length s ino) (p + n) - p ≡ k)
    × (b ≡ file_bytes s ino p k)
    × PiecesFrom s n ino (p + k) bs

module _ (s : Image) (ino n : ℕ) (fits : Fits s) (hi : ino < max_files) (some_size : 0 < n)
    (room : inode_length s ino + n < ones32)
    (good : GoodBlocks s ino 0 (inode_length s ino / block_size + 1)) where
  -- The whole file has its pieces.
  pub pieces_of :
      (fuel m p : ℕ)
      → p + m ≡ inode_length s ino
      → m < fuel
      → (ps : List (List ℕ)) × PiecesFrom s n ino p ps × (concat ps ≡ file_bytes s ino p m)
  unfolding file_bytes
  pieces_of zero m p all enough = absurd (omega arith)
  pieces_of (suc fuel) zero p all enough = ([], omega (arith, all), refl)
  pieces_of (suc fuel) (suc m) p all enough =
      let k = min (suc m) n in
      let (ps, more, later) =
        pieces_of fuel (suc m - k) (p + k) (omega (arith, all)) (omega arith) in
      (
        file_bytes s ino p k ∷ ps,
        (k, omega arith, omega (arith, all), refl, more),
        ap (λ x. file_bytes s ino p k ++ x) later
            ∙ sym (file_bytes-append s ino k (suc m - k) (suc m) p (p + k) (omega arith) refl),
      )

  module _ (name : List ℕ) where
    abbrev pub Left : Boot → List (List ℕ) → Type 0
    Left w ps = (w.fp.inode ≡ ino) × PiecesFrom s n ino w.fp.file_pos ps

    boot_read :
        (w : Boot) (k : ℕ)
        → w.fp.inode ≡ ino
        → 0 < k
        → min (inode_length s ino) (w.fp.file_pos + n) - w.fp.file_pos ≡ k
        → (boot_kernel s name).read (pos 2) n w ≡ (
          pos k,
          file_bytes s ino w.fp.file_pos k,
          record w { fp = record w.fp { file_pos = w.fp.file_pos + k } },
        )
    boot_read w k same h e =
        let r =
          file_read_part s w.fp n k fits (rw same hi) (rw same (omega arith)) (rw same room)
            (rw same good) (rw same e) in
        let ok : (k == ones32) ≡ false = ground arith in
        rw (r, ok)
          (ap
            (λ i. (
              pos k,
              file_bytes s i w.fp.file_pos k,
              record w { fp = record w.fp { file_pos = w.fp.file_pos + k } },
            ))
            same)

    boot_end :
        (w : Boot)
        → w.fp.inode ≡ ino
        → w.fp.file_pos ≡ inode_length s ino
        → (boot_kernel s name).read (pos 2) n w ≡ (pos 0, [], w)
    boot_end w same e = rw (file_read_end s w.fp n (rw same hi) (rw same e) (omega arith)) refl

    pub give_piece :
        (w : Boot) (p : List ℕ) (ps : List (List ℕ))
        → Left w (p ∷ ps)
        → let r = (boot_kernel s name).read (pos 2) n w in
          (r.0 ≡ pos (length p))
          × (r.1 ≡ p)
          × Left r.2 ps
          × (r.2.shown ≡ w.shown)
          × (0 < length p)
          × (length p ≤ n)
    give_piece w p ps (same, (k, some_there, e, bytes, more)) =
        let long : length p ≡ k =
          ap (λ b. length b) bytes ∙ length-file_bytes s ino k w.fp.file_pos in
        subst
          (λ (r : ℤ × List ℕ × Boot).
            (r.0 ≡ pos (length p))
            × (r.1 ≡ p)
            × Left r.2 ps
            × (r.2.shown ≡ w.shown)
            × (0 < length p)
            × (length p ≤ n))
          (sym (boot_read w k same some_there e))
          (
            ap pos (sym long),
            sym bytes,
            (same, more),
            refl,
            omega (arith, long),
            omega (arith, long),
          )

    pub stop_here :
        (w : Boot)
        → Left w []
        → let r = (boot_kernel s name).read (pos 2) n w in
          (r.0 ≡ pos 0) × Left r.2 [] × (r.2.shown ≡ w.shown)
    stop_here w (same, e) =
        subst (λ (r : ℤ × List ℕ × Boot). (r.0 ≡ pos 0) × Left r.2 [] × (r.2.shown ≡ w.shown))
          (sym (boot_end w same e)) (refl, (same, e), refl)

    -- The programs find on such a kernel what they rely on.
    abbrev pub boot_console : Console (boot_kernel s name) n (pos 2)
    boot_console = record {
      screen = λ w. w.shown;
      Left = λ w ps. Left w ps;
      give = λ w p ps e. give_piece w p ps e;
      stop = λ w e. stop_here w e;
      put = λ bs w ps h e. (refl, refl, e);
    }

-- On a kernel where descriptor 2 is a file of the boot module, at its start, whose block numbers are
-- all good (the one behind its last block too), and whose length is below 2 ^ 32 - 1025: given
-- enough rounds, cat ends with 0 and has put the file's bytes on the screen, each once and in their
-- order, and a newline.
pub cat-file_bytes :
    (s : Image) (ino : ℕ) (name buf : List ℕ) (w : Boot)
    → Fits s
    → ino < max_files
    → inode_length s ino + 1024 < ones32
    → GoodBlocks s ino 0 (inode_length s ino / block_size + 1)
    → w.fp.inode ≡ ino
    → w.fp.file_pos ≡ 0
    → (rounds : ℕ) × (w' : Boot) × (cat (boot_kernel s name) rounds buf w ≡ some (0, w'))
      × (w'.shown ≡ w.shown ++ (file_bytes s ino 0 (inode_length s ino) ++ b'\n' ∷ []))
cat-file_bytes s ino name buf w fits hi room good same start =
    let len = inode_length s ino in
    let (ps, more, all) =
      pieces_of s ino 1024 fits hi (omega arith) room good (suc len) len w.fp.file_pos (omega arith)
        (omega arith) in
    let k = boot_console s ino 1024 fits hi (omega arith) room good name in
    let (w', done, text) =
      cat-concat (boot_kernel s name) (pos 2) k ps buf w refl refl refl (same, more) in
    (
      suc (length ps),
      w',
      done,
      text ∙ ap (λ x. w.shown ++ (x ++ b'\n' ∷ [])) (all ∙ ap (λ p. file_bytes s ino p len) start),
    )
