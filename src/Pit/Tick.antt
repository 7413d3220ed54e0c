-- ===== src/Pit/Tick.antt =====
-- One tick of the timer.
use martian_os.Prelude.{ℕ, ◌<◌, ◌≡◌, ◌≢◌, refl, sym, ap, ◌∙◌, true, false, ◌∷◌, length}
use martian_os.Prelude.Int.{pos}
use martian_os.Fs.{Image}
use martian_os.Pic.{send_eoi}
use martian_os.Process.Types.{Drivers}
use martian_os.Process.Pids.{get_pcb_ptr}
use martian_os.Process.System.State.{
  System, Outcome, returns, enters_user, resumes, Frame, term, set_interrupts,
}
use martian_os.Process.System.Schedule.{schedule}
use martian_os.Process.System.Rounds.{Switched, schedule-Switched}
use martian_os.Pit.{Timer, after_schedule, pit_int_handler}

-- The interrupt flag is no part of a switch.
Switched-interrupts :
    {W : Type 0} (fr : Frame) (i j p q : ℕ) (s s' : System W)
    → Switched fr i j p q (set_interrupts s false) s'
    → Switched fr i j p q s (set_interrupts s' true)
Switched-interrupts fr i j p q s s' v = record {
  running = v.running;
  pid = v.pid;
  ptr = v.ptr;
  pages = v.pages;
  stack = v.stack;
  saved = v.saved;
  others = v.others;
  terms = v.terms;
}

module _ (d : Drivers) (image : d.World → Image) where
  after_resumes :
      (r : Outcome × System d.World) (esp ebp eax : ℕ)
      → r.0 ≡ resumes esp ebp eax
      → after_schedule d image r ≡ set_interrupts r.1 true
  after_resumes (returns x, s) esp ebp eax e = refl
  after_resumes (enters_user eip, s) esp ebp eax e = cc
  after_resumes (resumes a b c, s) esp ebp eax e = refl

  -- A tick while process `p` runs on terminal `i`, with process `q` on the next terminal `j`: `q` goes
  -- on in the frame that it saved, in its own page and on its own stack, and `p` is saved; the
  -- interrupt is acknowledged once, to the first controller alone, and no mask changes; the system's
  -- characters go to terminal `j` from now on, the one that runs; and interrupts are on.
  pub pit_int_handler-Switched :
      (fr : Frame) (t : Timer d.World) (i j p q : ℕ)
      → length t.system.term_arr ≡ 3
      → i < 3
      → i ≢ j
      → p < 6
      → q < 6
      → p ≢ q
      → t.system.running_term ≡ i
      → t.system.cur_pid ≡ pos p
      → t.system.kernel.cur_pcb_ptr ≡ get_pcb_ptr (pos p)
      → (term t.system i).next_term_to_run ≡ j
      → (term t.system j).pid ≡ pos q
      → (term t.system j).tid ≡ j
      → let r = pit_int_handler d image fr t in
        let saved = t.system.kernel.pcbs (get_pcb_ptr (pos q)) in
        (r.0 ≡ resumes saved.esp saved.ebp 0)
        × Switched fr i j p q t.system r.1.system
        × (r.1.pic ≡ record t.pic { commands = (0x20, 0x60) ∷ t.pic.commands })
        × (r.1.screen_term ≡ r.1.system.running_term)
        × (r.1.system.kernel.interrupts ≡ true)
  unfolding pit_int_handler send_eoi
  pit_int_handler-Switched fr t i j p q h3 hi ne hp hq npq running pid ptr next has own =
      let s = set_interrupts t.system false in
      let r = schedule d image fr s in
      let v = schedule-Switched d image fr s i j p q h3 hi ne hp hq npq running pid ptr next has in
      let now = Switched-interrupts fr i j p q t.system r.1 v.1 in
      rw (after_resumes r _ _ _ v.0) (
        v.0,
        now,
        refl,
        ap (λ x. (term t.system (term t.system x).next_term_to_run).tid) running
            ∙ ap (λ x. (term t.system x).tid) next
            ∙ own
            ∙ sym now.running,
        refl,
      )
