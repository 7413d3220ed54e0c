-- ===== src/Process/System/Rounds.antt =====
-- schedule: one switch between two terminals, and a whole round of the three.
use martian_os.Prelude.{
  ℕ, ◌+◌, ◌<◌, ◌≡◌, ◌≢◌, refl, ap, sym, ◌∙◌, List, length, get_or, set, get_or-set, length-set,
  arith,
}
use martian_os.Prelude.Int.{pos}
use martian_os.Fs.{Image}
use martian_os.Process.Types.{Drivers, update}
use martian_os.Process.Pids.{get_pcb_ptr}
use martian_os.Process.System.State.{
  System, resumes, Frame, Terminal, term, no_terminal, user_page, setup_paging_and_flush_tlb,
}
use martian_os.Process.System.Schedule.{schedule, save_current, next_current, resume_next}
use martian_os.Process.System.Closing.{update_at, update_other}
use martian_os.Process.System.Return.{get_pcb_ptr_ne}

-- The processor goes from process `p` of terminal `i` to process `q` of terminal `j`: `p` is saved,
-- and `q` runs in its own page and on its own stack.
pub record Switched {W : Type 0} (fr : Frame) (i j p q : ℕ) (s s' : System W) : Type 0 where
  pub running : s'.running_term ≡ j
  pub pid : s'.cur_pid ≡ pos q
  pub ptr : s'.kernel.cur_pcb_ptr ≡ get_pcb_ptr (pos q)
  pub pages : (s'.page_dir_base user_page).pg_addr ≡ q + 2
  pub stack : s'.tss_esp0 ≡ (s.kernel.pcbs (get_pcb_ptr (pos q))).tss_esp0
  pub saved : s'.kernel.pcbs (get_pcb_ptr (pos p)) ≡ record (s.kernel.pcbs (get_pcb_ptr (pos p))) {
    tss_esp0 = s.tss_esp0;
    esp = fr.esp;
    ebp = fr.ebp;
  }
  pub others : (b : ℕ) → get_pcb_ptr (pos p) ≢ b → s'.kernel.pcbs b ≡ s.kernel.pcbs b
  pub terms : s'.term_arr ≡ set s.term_arr i (record (term s i) { pid = pos p })

get_or_at :
    (t : List Terminal) (i : ℕ) (v : Terminal) → i < length t → get_or (set t i v) i no_terminal ≡ v
get_or_at t i v h = ground (arith, get_or-set t i i v no_terminal h)

get_or_away :
    (t : List Terminal) (i j : ℕ) (v : Terminal)
    → i < length t
    → i ≢ j
    → get_or (set t i v) j no_terminal ≡ get_or t j no_terminal
get_or_away t i j v h n = ground (arith, get_or-set t i j v no_terminal h)

module _ {W : Type 0} where
  saved_fields :
      (fr : Frame) (s : System W) (i p : ℕ)
      → s.running_term ≡ i
      → s.cur_pid ≡ pos p
      → s.kernel.cur_pcb_ptr ≡ get_pcb_ptr (pos p)
      → let s1 = save_current fr s in
        let a = get_pcb_ptr (pos p) in
        (s1.term_arr ≡ set s.term_arr i (record (term s i) { pid = pos p }))
        × (s1.running_term ≡ i)
        × (s1.kernel.pcbs
            ≡ update s.kernel.pcbs a
                (record (s.kernel.pcbs a) { tss_esp0 = s.tss_esp0; esp = fr.esp; ebp = fr.ebp }))
  unfolding save_current
  saved_fields fr s i p running pid ptr = rw (pid, ptr, running) (refl, refl, refl)

  next_fields :
      (s : System W) (i j q : ℕ)
      → s.running_term ≡ i
      → (term s i).next_term_to_run ≡ j
      → (term s j).pid ≡ pos q
      → let n = next_current s in
        (n.running_term ≡ j)
        × (n.cur_pid ≡ pos q)
        × (n.kernel.cur_pcb_ptr ≡ get_pcb_ptr (pos q))
        × (n.kernel.pcbs ≡ s.kernel.pcbs)
        × (n.term_arr ≡ s.term_arr)
  unfolding next_current
  next_fields s i j q running next has = rw (running, next, has) (refl, refl, refl, refl, refl)

module _ (d : Drivers) (image : d.World → Image) where
  -- One call of `schedule` while process `p` runs on terminal `i` and the next terminal `j` has
  -- process `q`: it goes on in the frame that `q` saved.
  pub schedule-Switched :
      (fr : Frame) (s : System d.World) (i j p q : ℕ)
      → length s.term_arr ≡ 3
      → i < 3
      → i ≢ j
      → p < 6
      → q < 6
      → p ≢ q
      → s.running_term ≡ i
      → s.cur_pid ≡ pos p
      → s.kernel.cur_pcb_ptr ≡ get_pcb_ptr (pos p)
      → (term s i).next_term_to_run ≡ j
      → (term s j).pid ≡ pos q
      → let r = schedule d image fr s in
        let next = s.kernel.pcbs (get_pcb_ptr (pos q)) in
        (r.0 ≡ resumes next.esp next.ebp 0) × Switched fr i j p q s r.1
  unfolding schedule resume_next setup_paging_and_flush_tlb
  schedule-Switched fr s i j p q h3 hi ne hp hq npq running pid ptr next has =
      let a = get_pcb_ptr (pos p) in
      let v = record (term s i) { pid = pos p } in
      let s1 = save_current fr s in
      let f = saved_fields fr s i p running pid ptr in
      let n =
        next_fields s1 i j q f.1
          (ap (λ t. (get_or t i no_terminal).next_term_to_run) f.0
            ∙ ap (λ x. x.next_term_to_run) (get_or_at s.term_arr i v (omega arith))
            ∙ next)
          (ap (λ t. (get_or t j no_terminal).pid) f.0
            ∙ ap (λ x. x.pid) (get_or_away s.term_arr i j v (omega arith) ne)
            ∙ has) in
      let blocks = n.3 ∙ f.2 in
      let other : (b : ℕ) → a ≢ b → (next_current s1).kernel.pcbs b ≡ s.kernel.pcbs b =
        λ b nb. ap (λ g. g b) blocks ∙ update_other s.kernel.pcbs a b _ nb in
      let theirs = other (get_pcb_ptr (pos q)) (get_pcb_ptr_ne p q hp hq npq) in
      rw (n.1, n.2)
        (
          ap (λ x. resumes x.esp x.ebp 0) theirs,
          record {
            running = n.0;
            pid = refl;
            ptr = n.2;
            pages = omega arith;
            stack = ap (λ x. x.tss_esp0) theirs;
            saved = ap (λ g. g a) blocks ∙ update_at s.kernel.pcbs a _;
            others = other;
            terms = n.4 ∙ f.0;
          },
        )

module _ {W : Type 0} where
  term_away :
      (fr : Frame) (i j p q x : ℕ) (s s' : System W)
      → Switched fr i j p q s s'
      → length s.term_arr ≡ 3
      → i < 3
      → i ≢ x
      → term s' x ≡ term s x
  term_away fr i j p q x s s' v h3 hi ne =
      ap (λ t. get_or t x no_terminal) v.terms ∙ get_or_away s.term_arr i x _ (omega arith) ne

  term_own :
      (fr : Frame) (i j p q : ℕ) (s s' : System W)
      → Switched fr i j p q s s'
      → length s.term_arr ≡ 3
      → i < 3
      → term s' i ≡ record (term s i) { pid = pos p }
  term_own fr i j p q s s' v h3 hi =
      ap (λ t. get_or t i no_terminal) v.terms ∙ get_or_at s.term_arr i _ (omega arith)

  length_terms :
      (fr : Frame) (i j p q : ℕ) (s s' : System W)
      → Switched fr i j p q s s'
      → length s.term_arr ≡ 3
      → length s'.term_arr ≡ 3
  length_terms fr i j p q s s' v h3 = ap length v.terms ∙ length-set s.term_arr i _ ∙ h3

module _ (d : Drivers) (image : d.World → Image) where
  -- With a process on each of the three terminals, three calls of `schedule` come back to the
  -- process that the first one interrupted: in the frame that it saved, in its own page, and with
  -- the stack pointer for interrupts that it had.
  pub schedule-round :
      (fr1 fr2 fr3 : Frame) (s : System d.World) (i j k p q r : ℕ)
      → length s.term_arr ≡ 3
      → (i < 3) × (j < 3) × (k < 3)
      → (i ≢ j) × (j ≢ k) × (k ≢ i)
      → (p < 6) × (q < 6) × (r < 6)
      → (p ≢ q) × (q ≢ r) × (r ≢ p)
      → s.running_term ≡ i
      → s.cur_pid ≡ pos p
      → s.kernel.cur_pcb_ptr ≡ get_pcb_ptr (pos p)
      → ((term s i).next_term_to_run ≡ j)
        × ((term s j).next_term_to_run ≡ k)
        × ((term s k).next_term_to_run ≡ i)
      → ((term s j).pid ≡ pos q) × ((term s k).pid ≡ pos r)
      → let s1 = (schedule d image fr1 s).1 in
        let s2 = (schedule d image fr2 s1).1 in
        let last = schedule d image fr3 s2 in
        (last.0 ≡ resumes fr1.esp fr1.ebp 0)
        × (last.1.running_term ≡ i)
        × (last.1.cur_pid ≡ pos p)
        × (last.1.kernel.cur_pcb_ptr ≡ get_pcb_ptr (pos p))
        × ((last.1.page_dir_base 32).pg_addr ≡ p + 2)
        × (last.1.tss_esp0 ≡ s.tss_esp0)
  schedule-round fr1 fr2 fr3 s i j k p q r h3 hi ne hp np run pid ptr nx has =
      let s1 = (schedule d image fr1 s).1 in
      let s2 = (schedule d image fr2 s1).1 in
      let back : k ≢ j = λ e. ne.1 (sym e) in
      let v1 =
        (schedule-Switched d image fr1 s i j p q h3 hi.0 ne.0 hp.0 hp.1 np.0 run pid ptr nx.0
          has.0).1 in
      let l1 = length_terms fr1 i j p q s s1 v1 h3 in
      let j1 = term_away fr1 i j p q j s s1 v1 h3 hi.0 ne.0 in
      let k1 = term_away fr1 i j p q k s s1 v1 h3 hi.0 (λ e. ne.2 (sym e)) in
      let v2 =
        (schedule-Switched d image fr2 s1 j k q r l1 hi.1 ne.1 hp.1 hp.2 np.1 v1.running v1.pid
          v1.ptr (ap (λ t. t.next_term_to_run) j1 ∙ nx.1) (ap (λ t. t.pid) k1 ∙ has.1)).1 in
      let l2 = length_terms fr2 j k q r s1 s2 v2 l1 in
      let k2 = term_away fr2 j k q r k s1 s2 v2 l1 hi.1 ne.1 ∙ k1 in
      let i2 =
        term_away fr2 j k q r i s1 s2 v2 l1 hi.1 (λ e. ne.0 (sym e))
        ∙ term_own fr1 i j p q s s1 v1 h3 hi.0 in
      let v3 =
        schedule-Switched d image fr3 s2 k i r p l2 hi.2 ne.2 hp.2 hp.0 np.2 v2.running v2.pid
          v2.ptr (ap (λ t. t.next_term_to_run) k2 ∙ nx.2) (ap (λ t. t.pid) i2) in
      let own =
        v2.others (get_pcb_ptr (pos p)) (get_pcb_ptr_ne q p hp.1 hp.0 (λ e. np.0 (sym e)))
        ∙ v1.saved in
      (
        v3.0 ∙ ap (λ x. resumes x.esp x.ebp 0) own,
        v3.1.running,
        v3.1.pid,
        v3.1.ptr,
        v3.1.pages,
        v3.1.stack ∙ ap (λ x. x.tss_esp0) own,
      )
