-- ===== src/Process/System/Closing.antt =====
-- What the steps of syscall_halt before the return leave as it was.
use martian_os.Prelude.{
  ℕ, zero, suc, ◌+◌, ◌≡◌, ◌≢◌, refl, ap, sym, ◌∙◌, ◌==◌, Bool-cases, inl, inr, arith,
}
use martian_os.Prelude.Int.{ℤ, pos, pos_part}
use martian_os.Fs.{FileEntry}
use martian_os.Process.Types.{Drivers, Kernel, fd_entry, put_fd, update}
use martian_os.Process.Descriptors.{syscall_close, bad_close_fd, is_free_fd}
use martian_os.Process.System.State.{System, cur_pcb, term, switch_usrmap, user_page}
use martian_os.Process.System.Halt.{close_fds, end_vidmap, clear_vidmap, close_usrmap}

-- The running process's block keeps its parent and its mark of a mapped screen, and every other
-- block is as it was.
pub record SameBlocks {W : Type 0} (k k' : Kernel W) : Type 0 where
  pub ptr : k'.cur_pcb_ptr ≡ k.cur_pcb_ptr
  pub parent : (k'.pcbs k.cur_pcb_ptr).parent_pid ≡ (k.pcbs k.cur_pcb_ptr).parent_pid
  pub others : (b : ℕ) → k.cur_pcb_ptr ≢ b → k'.pcbs b ≡ k.pcbs b

pub update_at : {A : Type 0} (f : ℕ → A) (a : ℕ) (v : A) → update f a v a ≡ v
update_at f a v = ground arith

pub update_other : {A : Type 0} (f : ℕ → A) (a b : ℕ) (v : A) → a ≢ b → update f a v b ≡ f b
update_other f a b v ne = ground arith

module _ {W : Type 0} where
  put_fd-SameBlocks : (k : Kernel W) (i : ℕ) (e : FileEntry) → SameBlocks k (put_fd k i e)
  unfolding put_fd
  put_fd-SameBlocks k i e = record {
    ptr = refl;
    parent = ap (λ p. p.parent_pid) (update_at k.pcbs k.cur_pcb_ptr _);
    others = λ b ne. update_other k.pcbs k.cur_pcb_ptr b _ ne;
  }

  SameBlocks-trans : (a b c : Kernel W) → SameBlocks a b → SameBlocks b c → SameBlocks a c
  SameBlocks-trans a b c p q = record {
    ptr = q.ptr ∙ p.ptr;
    parent =
        ap (λ x. (c.pcbs x).parent_pid) (sym p.ptr)
        ∙ q.parent
        ∙ ap (λ x. (b.pcbs x).parent_pid) p.ptr
        ∙ p.parent;
    others = λ x ne. q.others x (λ e. ne (sym p.ptr ∙ e)) ∙ p.others x ne;
  }

module _ (d : Drivers) where
  close-SameBlocks : (fd : ℤ) (k : Kernel d.World) → SameBlocks k (syscall_close d fd k).1
  unfolding syscall_close
  close-SameBlocks fd k = elim (Bool-cases (bad_close_fd fd)) [
    | inl bad ↦ rw bad (record { ptr = refl; parent = refl; others = λ b ne. refl })
    | inr good ↦ elim (Bool-cases (is_free_fd (fd_entry k (pos_part fd)).flags)) [
      | inl f ↦ rw (good, f) (record { ptr = refl; parent = refl; others = λ b ne. refl })
      | inr u ↦ rw (good, u) (put_fd-SameBlocks k (pos_part fd) _)
    ]
  ]

  pub close_fds-SameBlocks : (n i : ℕ) (k : Kernel d.World) → SameBlocks k (close_fds d n i k)
  unfolding close_fds
  close_fds-SameBlocks zero i k = record { ptr = refl; parent = refl; others = λ b ne. refl }
  close_fds-SameBlocks (suc n) i k =
      let k' = (syscall_close d (pos i) k).1 in
      SameBlocks-trans k k' (close_fds d n (i + 1) k') (close-SameBlocks (pos i) k)
        (close_fds-SameBlocks n (i + 1) k')

module _ {W : Type 0} where
  -- What `end_vidmap` keeps.
  pub record KeepsProcesses (s s' : System W) : Type 0 where
    pub blocks : SameBlocks s.kernel s'.kernel
    pub bitmap : s'.pcb_bitmap ≡ s.pcb_bitmap
    pub stack : s'.tss_esp0 ≡ s.tss_esp0
    pub pages : s'.page_dir_base user_page ≡ s.page_dir_base user_page

  clear_vidmap-KeepsProcesses : (s : System W) → KeepsProcesses s (clear_vidmap s)
  unfolding clear_vidmap
  clear_vidmap-KeepsProcesses s = record {
    blocks = record {
      ptr = refl;
      parent = ap (λ p. p.parent_pid) (update_at s.kernel.pcbs s.kernel.cur_pcb_ptr _);
      others = λ b ne. update_other s.kernel.pcbs s.kernel.cur_pcb_ptr b _ ne;
    };
    bitmap = refl;
    stack = refl;
    pages = refl;
  }

  switch_usrmap-KeepsProcesses :
      (s s' : System W) (index : ℕ)
      → KeepsProcesses s s'
      → KeepsProcesses s (switch_usrmap index 0 s')
  unfolding switch_usrmap
  switch_usrmap-KeepsProcesses s s' index keeps = record {
    blocks = record {
      ptr = keeps.blocks.ptr;
      parent = keeps.blocks.parent;
      others = keeps.blocks.others;
    };
    bitmap = keeps.bitmap;
    stack = keeps.stack;
    pages = keeps.pages;
  }

  close_usrmap-KeepsProcesses :
      (s s' : System W) → KeepsProcesses s s' → KeepsProcesses s (close_usrmap s')
  unfolding close_usrmap
  close_usrmap-KeepsProcesses s s' keeps =
      elim (Bool-cases ((term s' s'.running_term).tid == (term s' s'.viewing_term).tid)) [
        | inl here ↦ rw here (switch_usrmap-KeepsProcesses s s' _ keeps)
        | inr away ↦ rw away (switch_usrmap-KeepsProcesses s s' _ keeps)
      ]

  pub end_vidmap-KeepsProcesses : (s : System W) → KeepsProcesses s (end_vidmap s)
  unfolding end_vidmap
  end_vidmap-KeepsProcesses s = elim (Bool-cases ((cur_pcb s).vidmap_flag == 0)) [
    | inl unmapped ↦ rw unmapped (record {
      blocks = record { ptr = refl; parent = refl; others = λ b ne. refl };
      bitmap = refl;
      stack = refl;
      pages = refl;
    })
    | inr mapped ↦
        rw mapped (close_usrmap-KeepsProcesses s (clear_vidmap s) (clear_vidmap-KeepsProcesses s))
  ]
