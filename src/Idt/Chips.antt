-- ===== src/Idt/Chips.antt =====
-- What the interrupt controllers and the timer chip make of the writes of kernel/idt.c.
use magnos.Base.{ℕ, ◌+◌, ◌*◌, ◌/◌, ◌^◌, ◌≡◌, refl, [], ◌∷◌, ◌==◌, if◌then◌else◌, bit_clear}
use magnos.Ports.{Io, output, input, History, Device}
use magnos.Idt.{pic_remap, pit_init, init_ports}

-- An 8259 controller: the interrupt number of its first line, how it is wired to the other, the masked lines, and which
-- initialization word it waits for (2, 3, 4, or 0 if it is not being initialized).
pub record Pic : Type 0 where
  pub vector : ℕ
  pub wiring : ℕ
  pub mask : ℕ
  pub waits : ℕ

-- A byte at the command port, which begins the initialization if its bit 4 is set, and a byte at the data port.
pub pic_command : ℕ → Pic → Pic
pic_command v p = if bit_clear v 4 then p else record p { waits = 2; mask = 0 }

pub pic_data : ℕ → Pic → Pic
pic_data v p =
    if p.waits == 2
    then record p { vector = v; waits = 3 }
    else if p.waits == 3
    then record p { wiring = v; waits = 4 }
    else if p.waits == 4
    then record p { waits = 0 }
    else record p { mask = v }

pub pic_step : ℕ → Io → Pic → Pic
pic_step base (output port v) p =
    if port == base then pic_command v p else if port == base + 1 then pic_data v p else p
pic_step base (input port v) p = p

-- The controller at `base` behind the reads and writes after `h`, in the order that they were made.
pub pic_after : ℕ → History → Pic → Pic
pic_after base [] p = p
pic_after base (e ∷ h) p = pic_step base e (pic_after base h p)

-- Channel 0 of the 8253 timer: how many bytes of the divisor it waits for, and the divisor.
pub record Pit : Type 0 where
  pub divisor : ℕ
  pub low : ℕ
  pub waits : ℕ

pub pit_step : Io → Pit → Pit
pit_step (output port v) p =
    if port == 0x43
    then (if v / 16 == 3 then record p { waits = 2 } else p)
    else if port == 0x40
    then (if p.waits == 2
        then record p { low = v; waits = 1 }
        else record p { divisor = p.low + v * 2 ^ 8; waits = 2 })
    else p
pit_step (input port v) p = p

pub pit_after : History → Pit → Pit
pit_after [] p = p
pit_after (e ∷ h) p = pit_step e (pit_after h p)

-- Behind `idt_init`, whatever the devices give and however they were set up before: the first controller delivers its
-- lines as interrupts from 32 on and lets only the timer and the keyboard through, the second delivers from 40 on, is
-- wired to line 2 of the first and lets nothing through, both are ready, and the timer divides its clock by 11932.
pub init_ports-chips :
    (device : Device) (p q : Pic) (t : Pit)
    → (pic_after 0x20 (init_ports device []) p
        ≡ record { vector = 32; wiring = 4; mask = 0xFC; waits = 0 })
      × (pic_after 0xA0 (init_ports device []) q
          ≡ record { vector = 40; wiring = 2; mask = 0xFF; waits = 0 })
      × ((pit_after (init_ports device []) t).divisor ≡ 11932)
unfolding init_ports pic_remap pit_init pic_after pic_step pic_command pic_data pit_after pit_step
    bit_clear
init_ports-chips device p q t = (refl, refl, refl)
