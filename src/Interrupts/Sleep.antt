-- ===== src/Interrupts/Sleep.antt =====
-- How long `sleep` waits.
use owmice.Base.{
  ℕ, suc, ◌<◌, Bool, false, ◌+◌, ◌-◌, ◌/◌, ◌%◌, ◌^◌, ◌≡◌, arith, refl, ap, true, Option, none, some,
  List, [], ◌∷◌, ◌++◌, Bool-cases, inl, inr, ltb, if◌then◌else◌,
}
use owmice.Interrupts.{
  Timer, Interrupt, tick, other, pit_handler_main, is_positive, sleep_loop, sleep,
}

-- The ticks among some interrupts.
pub ticks : List Interrupt → ℕ
ticks [] = 0
ticks (tick ∷ es) = suc (ticks es)
ticks (other ∷ es) = ticks es

-- The ticks that a time takes.
abbrev pub ticks_of : ℕ → ℕ
ticks_of msec = (msec + 9) / 10

-- No interrupt, or some of which the last one is a tick.
pub ends_with_tick : List Interrupt → Bool
ends_with_tick [] = true
ends_with_tick (tick ∷ []) = true
ends_with_tick (other ∷ []) = false
ends_with_tick (e ∷ f ∷ es) = ends_with_tick (f ∷ es)

-- What a sleep ends in: it waits on with too few ticks; otherwise the interrupts that it took hold
-- as many ticks as it needs, and end with the last of these, or are none if it needs none, and that
-- many ticks are counted.
pub data Slept (need start : ℕ) : List Interrupt → Option (Timer × List Interrupt) → Type 0 where
  waits : {es : List Interrupt} → ticks es < need → Slept need start es none
  wakes :
      (before : List Interrupt) {es after : List Interrupt} {t' : Timer}
      → es ≡ before ++ after
      → ticks before ≡ need
      → ends_with_tick before ≡ true
      → t'.kticks ≡ (start + need) % 2 ^ 64
      → Slept need start es (some (t', after))

-- How much a timer still has to sleep.
abbrev pub left : ℕ → ℕ
left amt = if is_positive amt then (amt + 9) / 10 else 0

left-tick :
    (amt : ℕ) → is_positive amt ≡ true → left amt ≡ suc (left ((amt + 2 ^ 32 - 10) % 2 ^ 32))
left-tick amt h = ground arith

-- One more interrupt at the front.
ends_with_tick-tick :
    (es : List Interrupt) → ends_with_tick es ≡ true → ends_with_tick (tick ∷ es) ≡ true
unfolding ends_with_tick
ends_with_tick-tick [] h = refl
ends_with_tick-tick (e ∷ es) h = h

ends_with_tick-other :
    (es : List Interrupt)
    → 0 < ticks es
    → ends_with_tick es ≡ true
    → ends_with_tick (other ∷ es) ≡ true
unfolding ends_with_tick ticks
ends_with_tick-other [] more h = absurd (omega arith)
ends_with_tick-other (e ∷ es) more h = h

-- One more interrupt before what a sleep ends in.
after_interrupt :
    (e : Interrupt) (need need' : ℕ) (t t' : Timer) (es : List Interrupt)
    (r : Option (Timer × List Interrupt))
    → 0 < need
    → need ≡ ticks (e ∷ []) + need'
    → t'.kticks ≡ (t.kticks + ticks (e ∷ [])) % 2 ^ 64
    → Slept need' t'.kticks es r
    → Slept need t.kticks (e ∷ es) r
unfolding ticks
after_interrupt tick need need' t t' es r pos hn ht (waits short) = waits (omega arith)
after_interrupt other need need' t t' es r pos hn ht (waits short) = waits (omega arith)
after_interrupt tick need need' t t' es r pos hn ht (wakes before split count last total) =
    wakes (tick ∷ before) (ap (◌∷◌ tick) split) (omega arith) (ends_with_tick-tick before last)
      (omega arith)
after_interrupt other need need' t t' es r pos hn ht (wakes before split count last total) =
    wakes (other ∷ before) (ap (◌∷◌ other) split) (omega arith)
      (ends_with_tick-other before (omega arith) last) (omega arith)

pit-kticks : (t : Timer) → (pit_handler_main t).0.kticks ≡ (t.kticks + 1) % 2 ^ 64
unfolding pit_handler_main
pit-kticks t = refl

pit-kticks-lt : (t : Timer) → (pit_handler_main t).0.kticks < 2 ^ 64
pit-kticks-lt t = rw (pit-kticks t) (omega arith)

count_tick :
    (t : Timer)
    → is_positive t.sleep_amt ≡ true
    → (t.sleep_amt + 9) / 10 ≡ suc (left ((t.sleep_amt + 2 ^ 32 - 10) % 2 ^ 32))
    → (t.sleep_amt + 9) / 10 ≡ 1 + left (pit_handler_main t).0.sleep_amt
unfolding pit_handler_main
count_tick t more less = rw more (omega (arith, less))

sleep_loop-Slept :
    (es : List Interrupt) (t : Timer)
    → t.kticks < 2 ^ 64
    → Slept (left t.sleep_amt) t.kticks es (sleep_loop es t)
unfolding sleep_loop ticks ends_with_tick
sleep_loop-Slept [] t h = elim (Bool-cases (is_positive t.sleep_amt)) [
  | inl more ↦ rw more (waits (ground arith))
  | inr over ↦ rw over (wakes [] refl refl refl (omega arith))
]
sleep_loop-Slept (tick ∷ es) t h = elim (Bool-cases (is_positive t.sleep_amt)) [
  | inl more ↦
      let less = rw more at (left-tick t.sleep_amt more) in
      let next = sleep_loop-Slept es ((pit_handler_main t).0) (pit-kticks-lt t) in
      rw more (
        after_interrupt tick _ _ t ((pit_handler_main t).0) es _ (omega (arith, less))
          (count_tick t more less) (pit-kticks t) next)
  | inr over ↦ rw over (wakes [] refl refl refl (omega arith))
]
sleep_loop-Slept (other ∷ es) t h = elim (Bool-cases (is_positive t.sleep_amt)) [
  | inl more ↦
      let next = rw more at (sleep_loop-Slept es t h) in
      rw more (after_interrupt other _ _ t t es _ (ground arith) (omega arith) (omega arith) next)
  | inr over ↦ rw over (wakes [] refl refl refl (omega arith))
]

-- `sleep` of fewer than 2^31 milliseconds ends right at the timer interrupt that fills the time, at 10
-- milliseconds an interrupt, whatever other interrupts come before that one, and takes no interrupt
-- if the time is 0; while too few timer interrupts come it waits; of a larger number of milliseconds
-- it takes no interrupt at all.
pub sleep-Slept :
    (msec : ℕ) (es : List Interrupt) (t : Timer)
    → t.kticks < 2 ^ 64
    → Slept (if ltb msec (2 ^ 31) then ticks_of msec else 0) t.kticks es (sleep msec es t)
unfolding sleep
sleep-Slept msec es t h =
    let need : (if ltb msec (2 ^ 31) then ticks_of msec else 0) ≡ left msec = ground arith in
    rw need (sleep_loop-Slept es (record t { sleep_amt = msec }) h)
