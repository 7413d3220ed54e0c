-- ===== src/Terminals/Start.antt =====
-- The terminals after the start.
use martian_os.Prelude.{
  ℕ, zero, suc, ◌+◌, ◌/◌, ◌^◌, ◌≤◌, ◌<◌, ◌≡◌, refl, sym, List, [], ◌∷◌, length, get_or, ◌==◌,
  if◌then◌else◌, arith,
}
use martian_os.Prelude.Int.{minus_one}
use martian_os.Process.System.State.{Terminal, no_terminal}
use martian_os.Keyboard.{Input, terminal}
use martian_os.Keyboard.Bounds.{IsInput}
use martian_os.Terminals.{clear_terms, place, init_terms, terminal_init, keyboard_init}

-- What holds of three terminals by number holds of each.
pub each : (P : ℕ → Type 0) → P 0 → P 1 → P 2 → (i : ℕ) → i < 3 → P i
each P a b c zero h = a
each P a b c (suc zero) h = b
each P a b c (suc (suc zero)) h = c
each P a b c (suc (suc (suc i))) h = absurd (omega arith)

-- The terminals run in a ring of three, 0, 1, 2 and 0 again; none has a process; the window of
-- terminal `i` is the page of 4 MB that is `i + 1` behind the screen's.
pub record IsRing (t : List Terminal) : Type 0 where
  pub three : length t ≡ 3
  pub next :
      (i : ℕ) → i < 3 → (get_or t i no_terminal).next_term_to_run ≡ (if i == 2 then 0 else i + 1)
  pub idle : (i : ℕ) → i < 3 → (get_or t i no_terminal).pid ≡ minus_one
  pub windows : (i : ℕ) → i < 3 → (get_or t i no_terminal).vid_mem_buffer / 2 ^ 22 ≡ 1012 + 1 + i

init_terms-IsRing : (a b c : Terminal) → IsRing (init_terms (a ∷ b ∷ c ∷ []))
unfolding init_terms place clear_terms
init_terms-IsRing a b c =
    let t = init_terms (a ∷ b ∷ c ∷ []) in
    record {
      three = refl;
      next =
          each (λ i. (get_or t i no_terminal).next_term_to_run ≡ (if i == 2 then 0 else i + 1)) refl
            refl refl;
      idle = each (λ i. (get_or t i no_terminal).pid ≡ minus_one) refl refl refl;
      windows =
          each (λ i. (get_or t i no_terminal).vid_mem_buffer / 2 ^ 22 ≡ 1012 + 1 + i) refl refl
            refl;
    }

start_of :
    {W : Type 0} (s : Input W) (t : List Terminal)
    → length t ≡ 3
    → ((i : ℕ) → i < 3 → length (get_or t i no_terminal).kbd_buf ≡ 128)
    → s.viewing_term ≡ 0
    → IsInput (keyboard_init (terminal_init (record s { term_arr = t }))) × IsRing (init_terms t)
unfolding keyboard_init terminal_init init_terms place clear_terms
start_of s [] three buffers viewed = absurd (omega (arith, three))
start_of s (a ∷ []) three buffers viewed = absurd (omega (arith, three))
start_of s (a ∷ b ∷ []) three buffers viewed = absurd (omega (arith, three))
start_of s (a ∷ b ∷ c ∷ []) three buffers viewed =
    let u = keyboard_init (terminal_init (record s { term_arr = a ∷ b ∷ c ∷ [] })) in
    (
      record {
        three = refl;
        viewed = omega (arith, viewed);
        own = sym viewed;
        inside = omega arith;
        buffers =
            each (λ i. length (terminal u i).kbd_buf ≡ 128) (buffers 0 (omega arith))
              (buffers 1 (omega arith)) (buffers 2 (omega arith));
        saved = each (λ i. (terminal u i).buf_pos ≤ 127) (omega arith) (omega arith) (omega arith);
        tids = each (λ i. (terminal u i).tid ≡ i) refl refl refl;
      },
      init_terms-IsRing a b c,
    )
start_of s (a ∷ b ∷ c ∷ d ∷ t) three buffers viewed = absurd (omega (arith, three))

-- From whatever the memory of three terminals held, of buffers of 128 bytes and with terminal 0
-- viewed, the start leaves the terminals in their ring, and the keyboard in the state from
-- which no typing can write outside of a line buffer.
pub terminal_init-IsInput :
    {W : Type 0} (s : Input W)
    → length s.term_arr ≡ 3
    → ((i : ℕ) → i < 3 → length (terminal s i).kbd_buf ≡ 128)
    → s.viewing_term ≡ 0
    → IsInput (keyboard_init (terminal_init s)) × IsRing (terminal_init s).term_arr
unfolding terminal_init
terminal_init-IsInput s three buffers viewed = start_of s s.term_arr three buffers viewed
