-- ===== src/Process/System/Loading.antt =====
-- What syscall_execute puts into the memory of the new process.
use martian_os.Prelude.{
  ℕ, zero, suc, ◌+◌, ◌-◌, ◌*◌, ◌/◌, ◌%◌, ◌<◌, ◌≤◌, ◌≡◌, ◌≢◌, refl, ap, sym, ◌∙◌, inl, inr, ◌&&◌,
  List, [], ◌∷◌, length, get_or, ltb, leb, ◌==◌, if◌then◌else◌, Bool-cases, arith, min,
}
use martian_os.Prelude.Int.{pos}
use martian_os.Fs.{Image, block_size, max_files, inode_length, read_data}
use martian_os.Fs.Read.{file_byte, file_bytes, GoodBlocks}
use martian_os.Fs.Read.Result.{Fits, read_data_lem}
use martian_os.Process.Types.{Drivers, Dentry, update}
use martian_os.Process.System.State.{
  System, PageDirEntry, size_4m, load_virtual, store_virtual, setup_paging_and_flush_tlb,
}
use martian_os.Process.System.Execute.{load_program, program_vir_addr}

get_or-cons : (b : ℕ) (bs : List ℕ) (n m : ℕ) → n ≡ suc m → get_or (b ∷ bs) n 0 ≡ get_or bs m 0
get_or-cons b bs n m e = ap (λ k. get_or (b ∷ bs) k 0) e

get_or-head : (b : ℕ) (bs : List ℕ) (n : ℕ) → n ≡ 0 → get_or (b ∷ bs) n 0 ≡ b
get_or-head b bs n e = ap (λ k. get_or (b ∷ bs) k 0) e

-- The byte at `o`, with the bytes behind it written.
store_first :
    (g : ℕ) (frames : ℕ → ℕ → ℕ) (o b : ℕ) (bs : List ℕ) (f x : ℕ)
    → (if g == f && (leb (o + 1) x && ltb x (o + 1 + length bs))
        then get_or bs (x - (o + 1)) 0
        else update frames g (update (frames g) o b) f x)
      ≡ (if g == f && (leb o x && ltb x (o + suc (length bs)))
          then get_or (b ∷ bs) (x - o) 0
          else frames f x)
store_first g frames o b bs f x = elim (Bool-cases (g == f)) [
  | inr other ↦ rw other refl
  | inl here ↦
      let q : g ≡ f = ground arith in
      let same : frames g x ≡ frames f x = ap (λ k. frames k x) q in
      elim (Bool-cases (o == x)) [
        | inl first ↦ ground (arith, get_or-head b bs (x - o))
        | inr later ↦ ground (arith, same, get_or-cons b bs (x - o) (x - (o + 1)))
      ]
]

-- The frame `f` at `x` after bytes are written from offset `o` of the user page on.
pub store_virtual_lem :
    (dir : ℕ → PageDirEntry) (frames : ℕ → ℕ → ℕ) (o : ℕ) (bytes : List ℕ) (f x : ℕ)
    → o + length bytes ≤ size_4m
    → store_virtual dir frames (32 * size_4m + o) bytes f x ≡ (
        if (dir 32).pg_addr == f && (leb o x && ltb x (o + length bytes))
        then get_or bytes (x - o) 0
        else frames f x)
unfolding store_virtual
store_virtual_lem dir frames o [] f x h = ground arith
store_virtual_lem dir frames o (b ∷ bs) f x h =
    let page : (32 * size_4m + o) / size_4m ≡ 32 = omega arith in
    let offset : (32 * size_4m + o) % size_4m ≡ o = omega arith in
    let next : 32 * size_4m + o + 1 ≡ 32 * size_4m + (o + 1) = omega arith in
    let frames' = update frames (dir 32).pg_addr (update (frames (dir 32).pg_addr) o b) in
    rw (page, offset, next)
      (store_virtual_lem dir frames' (o + 1) bs f x (omega (arith, h))
        ∙ store_first (dir 32).pg_addr frames o b bs f x)

stored :
    (dir : ℕ → PageDirEntry) (frames : ℕ → ℕ → ℕ) (bs : List ℕ) (i : ℕ)
    → i < length bs
    → length bs + 294912 ≤ size_4m
    → load_virtual dir (store_virtual dir frames program_vir_addr bs) (program_vir_addr + i)
      ≡ get_or bs i 0
stored dir frames bs i h room =
    let page : (program_vir_addr + i) / size_4m ≡ 32 = omega arith in
    let offset : (program_vir_addr + i) % size_4m ≡ 294912 + i = omega arith in
    let place : 294912 + i - 294912 ≡ i = omega arith in
    let at_i = ap (λ k. get_or bs k 0) place in
    rw (page, offset)
      (ground (
        arith,
        at_i,
        store_virtual_lem dir frames 294912 bs (dir 32).pg_addr (294912 + i) (omega (arith, room)),
      ))

not_stored :
    (dir : ℕ → PageDirEntry) (frames : ℕ → ℕ → ℕ) (bs : List ℕ) (f x : ℕ)
    → length bs + 294912 ≤ size_4m
    → (dir 32).pg_addr ≢ f
    → store_virtual dir frames program_vir_addr bs f x ≡ frames f x
not_stored dir frames bs f x room ne =
    ground (arith, store_virtual_lem dir frames 294912 bs f x (omega (arith, room)))

get_or-file_bytes :
    (img : Image) (inode p n i : ℕ)
    → i < n
    → get_or (file_bytes img inode p n) i 0 ≡ file_byte img inode (p + i)
unfolding file_bytes
get_or-file_bytes img inode p zero i h = elim h [ ]
get_or-file_bytes img inode p (suc n) zero h = ap (file_byte img inode) (omega arith)
get_or-file_bytes img inode p (suc n) (suc i) h =
    get_or-file_bytes img inode (p + 1) n i (omega arith) ∙ ap (file_byte img inode) (omega arith)

length-file_bytes : (img : Image) (inode p n : ℕ) → length (file_bytes img inode p n) ≡ n
unfolding file_bytes
length-file_bytes img inode p zero = refl
length-file_bytes img inode p (suc n) = ap suc (length-file_bytes img inode (p + 1) n)

module _ (d : Drivers) (image : d.World → Image) where
  -- A program's file, whose block numbers are good and which fits behind the program's address in
  -- the page, is in the memory of process `m` byte by byte from that address on, and no physical
  -- page but the process's own is written.
  pub load_program-file :
      (m : ℕ) (dentry : Dentry) (s : System d.World)
      → m < 6
      → Fits (image s.kernel.world)
      → dentry.nr_inode < max_files
      → 0 < inode_length (image s.kernel.world) dentry.nr_inode
      → inode_length (image s.kernel.world) dentry.nr_inode + 294912 ≤ size_4m
      → GoodBlocks
          (image s.kernel.world)
          dentry.nr_inode
          0
          (inode_length (image s.kernel.world) dentry.nr_inode / block_size + 1)
      → let img = image s.kernel.world in
        let s' = load_program d image (pos m) dentry s in
        ((i : ℕ)
          → i < inode_length img dentry.nr_inode
          → load_virtual s'.page_dir_base s'.frames (program_vir_addr + i)
            ≡ file_byte img dentry.nr_inode i)
        × ((f x : ℕ) → f ≢ m + 2 → s'.frames f x ≡ s.frames f x)
  unfolding load_program setup_paging_and_flush_tlb
  load_program-file m dentry s hm fits hi nonempty room good =
      let img = image s.kernel.world in
      let size = inode_length img dentry.nr_inode in
      let whole =
        read_data_lem img dentry.nr_inode 0 size fits hi nonempty (omega arith)
          (λ j lo up. good j lo (omega arith)) in
      let all : min size (0 + size) - 0 ≡ size = omega arith in
      let bs = (read_data img dentry.nr_inode 0 size).1 in
      let file : bs ≡ file_bytes img dentry.nr_inode 0 size =
        ap (λ r. r.1) whole ∙ ap (file_bytes img dentry.nr_inode 0) all in
      let long : length bs ≡ size = ap length file ∙ length-file_bytes img dentry.nr_inode 0 size in
      let fill : length bs + 294912 ≤ size_4m = rw long room in
      (
        λ i hi'.
            stored _ s.frames bs i (rw long hi') fill
            ∙ ap (λ l. get_or l i 0) file
            ∙ get_or-file_bytes img dentry.nr_inode 0 size i hi'
            ∙ ap (file_byte img dentry.nr_inode) (omega arith),
        λ f x ne. not_stored _ s.frames bs f x fill (λ e. ne (sym e ∙ omega arith)),
      )
