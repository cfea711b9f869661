-- ===== src/Interrupts/Tests.antt =====
-- The timer and the interrupt table at concrete values.
use owmice.Base.{◌≡◌, refl, arith, some, [], ◌∷◌}
use owmice.Interrupts.{
  Timer, tick, other, sleep, sleep_loop, pit_handler_main, timer_init, write_port, Idt,
}
use owmice.Interrupts.Sleep.{Slept, sleep-Slept}

abbrev at_start : Timer
at_start = record { kticks = 100; sleep_amt = 0 }

-- 15 milliseconds take two ticks; the amount ends at -5.
two_ticks :
    sleep 15 (tick ∷ other ∷ tick ∷ tick ∷ []) at_start
    ≡ some (record { kticks = 102; sleep_amt = 0xfffffffb }, tick ∷ [])
unfolding sleep sleep_loop pit_handler_main
two_ticks = refl

abbrev no_gates : Idt
no_gates i = record {
  offset_lowerbits = 0;
  selector = 0;
  unused = 0;
  type_attr = 0;
  offset_higherbits = 0;
}

-- 100 Hz.
hundred_hertz :
    (timer_init 0x101234 100 no_gates).1
    ≡ write_port 0x43 0x36 ∷ write_port 0x40 0x9b ∷ write_port 0x40 0x2e ∷ write_port 0x21 0xfc ∷ []
unfolding timer_init
hundred_hertz = refl

sleep-Slept_example :
    Slept 2 100
      (tick ∷ other ∷ tick ∷ tick ∷ [])
      (sleep 15 (tick ∷ other ∷ tick ∷ tick ∷ []) at_start)
sleep-Slept_example = sleep-Slept 15 (tick ∷ other ∷ tick ∷ tick ∷ []) at_start (omega arith)
