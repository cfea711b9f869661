-- ===== src/Calls/Tests.antt =====
-- Calls at concrete arguments.
use owmice.Base.{◌≡◌, refl}
use owmice.Calls.{Routine, runs, kcall_handle, owmice_draw, syscalls, owmice_call3}
use owmice.Calls.Reach.{Reaches, owapi-Reaches}

-- The color keeps its low byte.
draws : owmice_draw 5 6 300 ≡ runs Routine.draw 5 6 44
unfolding owmice_draw owmice_call3 kcall_handle syscalls
draws = refl

owapi-Reaches_example : Reaches 5 6 300
owapi-Reaches_example = owapi-Reaches 5 6 300
