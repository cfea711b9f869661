-- ===== src/Interrupts.antt =====
-- The timer of io/timer.h and the interrupt table of io/idt.h. A write to a port is an event, and
-- what a routine writes is the list of its events in order. `wait_int` ends with an interrupt,
-- which the hardware chooses: a wait runs along a list of them, and none comes between the test of a
-- loop and its wait. Loading the table is assembly.
pub mod Sleep
pub mod Table
mod Tests
use owmice.Base.{
  ℕ, zero, suc, ◌+◌, ◌-◌, ◌*◌, ◌/◌, ◌%◌, ◌^◌, bit_and, Bool, true, false, ◌&&◌, Option, none, some,
  List, [], ◌∷◌, ltb, ◌==◌, if◌then◌else◌,
}

-- `write_port(port, value)`.
pub record PortWrite : Type 0 where
  pub port : ℕ
  pub value : ℕ

abbrev pub write_port : ℕ → ℕ → PortWrite
write_port port value = record { port = port; value = value % 2 ^ 8 }

-- `kticks`, a 64-bit counter, and `sleep_amt`, an `int32_t` by its pattern.
pub record Timer : Type 0 where
  pub kticks : ℕ
  pub sleep_amt : ℕ

-- `n > 0` for the pattern of an `int32_t`.
abbrev pub is_positive : ℕ → Bool
is_positive n = ltb 0 n && ltb n (2 ^ 31)

pub end_of_interrupt : List PortWrite
end_of_interrupt = write_port 0x20 0x20 ∷ write_port 0xA0 0x20 ∷ []

-- The new state, and what is written to the ports.
pub pit_handler_main : Timer → Timer × List PortWrite
pit_handler_main t = (
  record {
    kticks = (t.kticks + 1) % 2 ^ 64;
    sleep_amt =
        if is_positive t.sleep_amt then (t.sleep_amt + 2 ^ 32 - 10) % 2 ^ 32 else t.sleep_amt;
  },
  end_of_interrupt,
)

-- An interrupt that ends a wait: the timer's, or another, which leaves the timer alone.
pub data Interrupt : Type 0 where
  tick : Interrupt
  other : Interrupt

abbrev pub handle : Interrupt → Timer → Timer
handle tick t = (pit_handler_main t).0
handle other t = t

-- The loop of `sleep` along the interrupts that come; `none` while it still waits at their end.
pub sleep_loop : List Interrupt → Timer → Option (Timer × List Interrupt)
sleep_loop [] t = if is_positive t.sleep_amt then none else some (t, [])
sleep_loop (e ∷ es) t =
    let rest = sleep_loop es (handle e t) in
    if is_positive t.sleep_amt then rest else some (t, e ∷ es)

pub sleep : ℕ → List Interrupt → Timer → Option (Timer × List Interrupt)
sleep msec es t = sleep_loop es (record t { sleep_amt = msec })

-- `struct IDT_entry`.
pub record Gate : Type 0 where
  pub offset_lowerbits : ℕ
  pub selector : ℕ
  pub unused : ℕ
  pub type_attr : ℕ
  pub offset_higherbits : ℕ

abbrev pub Idt : Type 0
Idt = ℕ → Gate

pub irq_map_handler : ℕ → ℕ → Idt → Idt
irq_map_handler num base idt i =
    if i == num % 2 ^ 8
    then record {
      offset_lowerbits = bit_and base 0xffff;
      selector = 0x08;
      unused = 0;
      type_attr = 0x8e;
      offset_higherbits = bit_and base 0xffff0000 / 2 ^ 16;
    }
    else idt i

abbrev pit_base_fq : ℕ
pit_base_fq = 1193180

-- For a frequency that is not 0 and the address of `pit_handler`: the table and the port writes.
pub timer_init : ℕ → ℕ → Idt → Idt × List PortWrite
timer_init pit_handler frequency idt =
    let divisor = pit_base_fq / frequency in
    let writes =
      write_port 0x43 0x36
      ∷ write_port 0x40 (bit_and divisor 0xff)
      ∷ write_port 0x40 (bit_and (divisor / 2 ^ 8) 0xff)
      ∷ write_port 0x21 0xfc
      ∷ [] in
    (irq_map_handler 0x20 pit_handler idt, writes)

pub ports_remap : List PortWrite
ports_remap =
    write_port 0x20 0x11
    ∷ write_port 0xA0 0x11
    ∷ write_port 0x21 0x20
    ∷ write_port 0xA1 0x28
    ∷ write_port 0x21 0x00
    ∷ write_port 0xA1 0x00
    ∷ write_port 0x21 0x01
    ∷ write_port 0xA1 0x01
    ∷ write_port 0x21 0xff
    ∷ write_port 0xA1 0xff
    ∷ []

pub int_off : List PortWrite
int_off = write_port 0x21 0xff ∷ []

-- For the table at `idt_addr`: the port writes, and the two words that `load_idt` gets.
pub idt_init : ℕ → List PortWrite × ℕ × ℕ
idt_init idt_addr =
    (ports_remap, (8 * 256 + bit_and idt_addr 0xffff * 2 ^ 16) % 2 ^ 32, idt_addr / 2 ^ 16)
