-- ===== src/Ports.antt =====
-- The processor's input and output ports, which lib.h reaches by `inb` and `outb`: an interface of
-- the code that drives a device.
use martian_os.Prelude.{ℕ}

-- `World` is the state of the devices. A read may change it. A value comes before the port.
pub record Ports : Type 1 where
  pub World : Type 0
  pub inb : ℕ → World → ℕ × World
  pub outb : ℕ → ℕ → World → World
