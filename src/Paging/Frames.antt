-- ===== src/Paging/Frames.antt =====
-- What the page directory shows after its start.
use martian_os.Prelude.{
  ℕ, zero, suc, ◌+◌, ◌<◌, ◌≡◌, refl, Bool, true, false, ◌&&◌, ◌||◌, leb, ltb, ◌==◌, if◌then◌else◌,
  Bool-cases, inl, inr, arith,
}
use martian_os.Process.Types.{update}
use martian_os.Process.System.State.{PageDirEntry}
use martian_os.Paging.{absent, skipped, init_rest, init_page_dir, vbe_page, icon_page}

-- The pages that are in memory from the start: the first 8 MB, the screen, the windows, the icons.
abbrev pub kernel_page : ℕ → Bool
kernel_page i = leb i 1 || (i == icon_page || (leb vbe_page i && leb i (vbe_page + 3)))

-- What the loop leaves at `j`.
abbrev entry_at : (ℕ → PageDirEntry) → ℕ → PageDirEntry
entry_at dir j = if skipped j then dir j else absent j

round_at :
    (i j : ℕ) (dir : ℕ → PageDirEntry)
    → (if skipped i then dir else update dir i (absent i)) j
      ≡ (if i == j then entry_at dir j else dir j)
round_at i j dir = elim (Bool-cases (i == j)) [
  | inl e ↦ let here : i ≡ j = ground arith in rw here (here_at j (skipped j))
  | inr n ↦ rw n (away_at (skipped i) n)
]
  where
    here_at :
        (j : ℕ) (b : Bool)
        → (if b then dir else update dir j (absent j)) j
          ≡ (if j == j then if b then dir j else absent j else dir j)
    here_at j true = ground arith
    here_at j false = ground arith

    away_at : (b : Bool) → (i == j) ≡ false → (if b then dir else update dir i (absent i)) j ≡ dir j
    away_at true n = refl
    away_at false n = rw n

one_more :
    (i j n : ℕ) (skip : Bool) (last next old new : PageDirEntry)
    → next ≡ (if i == j then (if skip then old else new) else old)
    → last ≡ (if leb (i + 1) j && ltb j (i + 1 + n) then (if skip then next else new) else next)
    → last ≡ (if leb i j && ltb j (i + suc n) then (if skip then old else new) else old)
one_more i j n true last next old new e f = ground arith
one_more i j n false last next old new e f = ground arith

-- The entry of a page of the loop is that page's; the rest of the directory stays.
init_rest_at :
    (n i : ℕ) (dir : ℕ → PageDirEntry) (j : ℕ)
    → init_rest n i dir j ≡ (if leb i j && ltb j (i + n) then entry_at dir j else dir j)
unfolding init_rest
init_rest_at zero i dir j = ground arith
init_rest_at (suc n) i dir j =
    let dir' = if skipped i then dir else update dir i (absent i) in
    one_more i j n (skipped j) (init_rest n (i + 1) dir' j) (dir' j) (dir j) (absent j)
      (round_at i j dir) (init_rest_at n (i + 1) dir' j)

-- `init_page_dir`, whatever the directory held: below page 1024, the first 8 MB, the icons, the
-- screen and the three windows are in memory, and no other page is, except that page 31 keeps what
-- it had; and every page but that one shows the frame with its own number.
pub init_page_dir_lem :
    (dir : ℕ → PageDirEntry) (j : ℕ)
    → j < 1024
    → ((init_page_dir dir j).present
        ≡ (if kernel_page j then 1 else if j == 31 then (dir j).present else 0))
      × ((init_page_dir dir j).pg_addr ≡ (if j == 31 then (dir j).pg_addr else j))
unfolding init_page_dir skipped
init_page_dir_lem dir j h = rw (init_rest_at 1024 0 _ j) (ground arith, ground arith)
