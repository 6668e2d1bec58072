-- ===== src/Cpus/Ipi/Tests.antt =====
-- A message of type 4 on its way.
use cthulhu_os.Prelude.{refl, false, true, [], ◌∷◌}
use cthulhu_os.Cpus.Ipi.{
  hurry, scribble, shoot, Message, waiting, Channel, lock, announce, write, send, receive, Reach,
  stay, step, initial,
}
use cthulhu_os.Cpus.Ipi.Delivered.{Exchanged, reach-Exchanged}

abbrev none_yet : Message
none_yet = record { message_type = 0; message = 0; message2 = 0; message3 = 0 }

abbrev run : Message
run = record { message_type = 4; message = 0; message2 = 0; message3 = 0 }

abbrev handled : Channel
handled = record (initial none_yet) {
  phase = waiting run;
  apic_message_handled = true;
  fields = run;
  handling = true;
  delivered = run ∷ [];
}

reaches : Reach false (initial none_yet) handled
reaches =
    step
      (step (step (step (step stay (lock _ run refl)) (announce _ run refl)) (write _ run refl))
        (send _ run refl))
      (receive _ refl)

reach-Exchanged_example : Exchanged handled
reach-Exchanged_example = reach-Exchanged none_yet handled reaches

-- Two messages of `send_ipi_nowait`: the second is in the fields before the first is read.
abbrev overwritten : Channel
overwritten = record (initial none_yet) { fields = run; pending = true }

loses : Reach true (initial none_yet) overwritten
loses =
    step
      (step
        (step
          (step (step (step stay (hurry _ none_yet refl refl)) (scribble _ none_yet refl))
            (shoot _ none_yet refl))
          (hurry _ run refl refl))
        (scribble _ run refl))
      (shoot _ run refl)
