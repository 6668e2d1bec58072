-- ===== src/Cpus/Ipi/Delivered.antt =====
-- A message is delivered before its sender goes on (src/kernel/cpus/ipi.c: `send_ipi_message`).
use cthulhu_os.Prelude.{◌≡◌, refl, sym, ◌∙◌, ap, Bool, true, false, List, [], ◌∷◌, ◌++◌, arith}
use cthulhu_os.Cpus.Ipi.{
  Message, Phase, free, locked, announced, written, waiting, Channel, Step, lock, announce, write,
  send, receive, clear, finish, hasty, scribbled, send_self, hurry, scribble, shoot, Reach, stay,
  step, initial,
}

-- The states of the exchange, by where the sender is. While the sender waits, the interrupt is first on
-- its way, then handled, then over.
pub data Exchange
    : Phase → Bool → Message → Bool → Bool → List Message → List Message → Type 0 where
  at_rest : {f : Message} {l : List Message} → Exchange free false f false false l l
  held : {m f : Message} {l : List Message} → Exchange (locked m) false f false false l l
  open_for : {m f : Message} {l : List Message} → Exchange (announced m) true f false false l l
  filled : {m : Message} {l : List Message} → Exchange (written m) true m false false l l
  on_its_way : {m : Message} {l : List Message} → Exchange (waiting m) true m true false l l
  in_hand :
      {m : Message} {l : List Message} → Exchange (waiting m) true m false true (l ++ (m ∷ [])) l
  over :
      {m : Message} {l : List Message} → Exchange (waiting m) false m false false (l ++ (m ∷ [])) l

abbrev pub Exchanged : Channel → Type 0
Exchanged s =
    Exchange s.phase s.apic_message_handled s.fields s.pending s.handling s.delivered s.finished

-- The message that a phase is about; `other` where there is none.
abbrev message_of : Message → Phase → Message
message_of other free = other
message_of other (locked m) = m
message_of other (announced m) = m
message_of other (written m) = m
message_of other (waiting m) = m
message_of other (hasty m) = m
message_of other (scribbled m) = m

after_lock :
    {ph : Phase} {h : Bool} {f : Message} {p hd : Bool} {d fin : List Message} (m : Message)
    → Exchange ph h f p hd d fin
    → ph ≡ free
    → Exchange (locked m) h f p hd d fin
after_lock m at_rest e = held
after_lock m held e = ground arith
after_lock m open_for e = ground arith
after_lock m filled e = ground arith
after_lock m on_its_way e = ground arith
after_lock m in_hand e = ground arith
after_lock m over e = ground arith

after_announce :
    {ph : Phase} {h : Bool} {f : Message} {p hd : Bool} {d fin : List Message} (m : Message)
    → Exchange ph h f p hd d fin
    → ph ≡ locked m
    → Exchange (announced m) true f p hd d fin
after_announce m at_rest e = ground arith
after_announce m held e = open_for
after_announce m open_for e = ground arith
after_announce m filled e = ground arith
after_announce m on_its_way e = ground arith
after_announce m in_hand e = ground arith
after_announce m over e = ground arith

after_write :
    {ph : Phase} {h : Bool} {f : Message} {p hd : Bool} {d fin : List Message} (m : Message)
    → Exchange ph h f p hd d fin
    → ph ≡ announced m
    → Exchange (written m) h m p hd d fin
after_write m at_rest e = ground arith
after_write m held e = ground arith
after_write m open_for e = filled
after_write m filled e = ground arith
after_write m on_its_way e = ground arith
after_write m in_hand e = ground arith
after_write m over e = ground arith

after_send :
    {ph : Phase} {h : Bool} {f : Message} {p hd : Bool} {d fin : List Message} (m : Message)
    → Exchange ph h f p hd d fin
    → ph ≡ written m
    → Exchange (waiting m) h f true hd d fin
after_send m at_rest e = ground arith
after_send m held e = ground arith
after_send m open_for e = ground arith
after_send m filled e = rw (ap (message_of m) e) on_its_way
after_send m on_its_way e = ground arith
after_send m in_hand e = ground arith
after_send m over e = ground arith

after_finish :
    {ph : Phase} {h : Bool} {f : Message} {p hd : Bool} {d fin : List Message} (m : Message)
    → Exchange ph h f p hd d fin
    → ph ≡ waiting m
    → h ≡ false
    → Exchange free h f p hd d (fin ++ (m ∷ []))
after_finish m at_rest e q = ground arith
after_finish m held e q = ground arith
after_finish m open_for e q = ground arith
after_finish m filled e q = ground arith
after_finish m on_its_way e q = ground arith
after_finish m in_hand e q = ground arith
after_finish m over e q = rw (ap (message_of m) e) at_rest

after_receive :
    {ph : Phase} {h : Bool} {f : Message} {p hd : Bool} {d fin : List Message}
    → Exchange ph h f p hd d fin
    → p ≡ true
    → Exchange ph h f false true (d ++ (f ∷ [])) fin
after_receive at_rest e = ground arith
after_receive held e = ground arith
after_receive open_for e = ground arith
after_receive filled e = ground arith
after_receive on_its_way e = in_hand
after_receive in_hand e = ground arith
after_receive over e = ground arith

after_clear :
    {ph : Phase} {h : Bool} {f : Message} {p hd : Bool} {d fin : List Message}
    → Exchange ph h f p hd d fin
    → hd ≡ true
    → Exchange ph false f p false d fin
after_clear at_rest e = ground arith
after_clear held e = ground arith
after_clear open_for e = ground arith
after_clear filled e = ground arith
after_clear on_its_way e = ground arith
after_clear in_hand e = over
after_clear over e = ground arith

after_self :
    {ph : Phase} {h : Bool} {f : Message} {p hd : Bool} {d fin : List Message} (m : Message)
    → Exchange ph h f p hd d fin
    → ph ≡ free
    → Exchange ph false m p hd (d ++ (m ∷ [])) (fin ++ (m ∷ []))
after_self m at_rest e = at_rest
after_self m held e = ground arith
after_self m open_for e = ground arith
after_self m filled e = ground arith
after_self m on_its_way e = ground arith
after_self m in_hand e = ground arith
after_self m over e = ground arith

-- The phases of `send_ipi_nowait` are not among them.
abbrev is_hasty : Phase → Bool
is_hasty (hasty m) = true
is_hasty (scribbled m) = true
is_hasty ph = false

Exchange-is_hasty :
    {ph : Phase} {h : Bool} {f : Message} {p hd : Bool} {d fin : List Message}
    → Exchange ph h f p hd d fin
    → is_hasty ph ≡ false
Exchange-is_hasty at_rest = refl
Exchange-is_hasty held = refl
Exchange-is_hasty open_for = refl
Exchange-is_hasty filled = refl
Exchange-is_hasty on_its_way = refl
Exchange-is_hasty in_hand = refl
Exchange-is_hasty over = refl

never {ℓ} : {A : Type ℓ} → true ≡ false → A
never e = absurd (ground arith)

step-Exchanged : {s s' : Channel} → Exchanged s → Step false s s' → Exchanged s'
step-Exchanged x (lock s m p) = after_lock m x p
step-Exchanged x (announce s m p) = after_announce m x p
step-Exchanged x (write s m p) = after_write m x p
step-Exchanged x (send s m p) = after_send m x p
step-Exchanged x (receive s p) = after_receive x p
step-Exchanged x (clear s p) = after_clear x p
step-Exchanged x (finish s m p q) = after_finish m x p q
step-Exchanged x (send_self s m p) = after_self m x p
step-Exchanged x (hurry s m w p) = never (sym w)
step-Exchanged x (scribble s m p) = never (sym (ap is_hasty p) ∙ Exchange-is_hasty x)
step-Exchanged x (shoot s m p) = never (sym (ap is_hasty p) ∙ Exchange-is_hasty x)

-- If no message is sent by `send_ipi_nowait`, in every state that the steps of the senders of
-- `send_ipi_message` and of the receiver lead to, in whatever order, the exchange is in one of the states of `Exchange`: the messages that the handler has read
-- are those whose senders have gone on, each once and in order, and at most the one whose sender still
-- waits; and the fields are not written while an interrupt is on its way or handled.
pub reach-Exchanged : (f : Message) (s : Channel) → Reach false (initial f) s → Exchanged s
reach-Exchanged f s stay = at_rest
reach-Exchanged f s (step {s = s0} r t) = step-Exchanged (reach-Exchanged f s0 r) t
