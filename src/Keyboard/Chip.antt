-- ===== src/Keyboard/Chip.antt =====
-- The keyboard controller as the commands of `keyboard_init` of kernel/keyboard.c see it.
use magnos.Base.{
  ℕ, ◌+◌, ◌-◌, ◌*◌, ◌/◌, ◌%◌, ◌^◌, ◌<◌, ◌≡◌, Bool, true, false, [], ◌∷◌, Option, none, some, ltb,
  ◌==◌, if◌then◌else◌,
}
use magnos.Ports.{Io, output, input, History, Device, byte_in}
use magnos.Keyboard.Controller.{kb_data_port, kb_status_port, kb_cmd_port, input_full, output_full}

-- The controller: its last command, its configuration, for how many reads of the status its input buffer is still
-- full, and the byte of an answer with the number of reads until it is in the output buffer.
pub record Controller : Type 0 where
  pub command : ℕ
  pub config : ℕ
  pub busy : ℕ
  pub answer : Option ℕ
  pub wait : ℕ

-- The output buffer is full.
abbrev pub is_ready : Option ℕ → ℕ → Bool
is_ready none wait = false
is_ready (some byte) wait = wait == 0

abbrev pub byte_of : Option ℕ → ℕ
byte_of none = 0
byte_of (some byte) = byte

abbrev pub clear_bit4 : ℕ → ℕ
clear_bit4 config = config / 32 * 32 + config % 16

-- The byte that the output buffer gives first, where a new one comes behind what is there.
abbrev pub behind : Option ℕ → ℕ → Option ℕ
behind none byte = some byte
behind (some first) byte = some first

-- A command: 0x20 asks for the configuration, which comes behind a byte that the output buffer still has, and 0xAE
-- enables the keyboard, which clears bit 4.
unfoldable pub commanded : ℕ → ℕ → ℕ → Controller → Controller
commanded slow reply v c =
    if v == 0x20
    then record {
      command = v;
      config = c.config;
      busy = slow;
      answer = behind c.answer c.config;
      wait = reply;
    }
    else record {
      command = v;
      config = if v == 0xAE then clear_bit4 c.config else c.config;
      busy = slow;
      answer = c.answer;
      wait = c.wait;
    }

-- A byte at the data port: behind the command 0x60 the new configuration, otherwise for the keyboard.
unfoldable pub given : ℕ → ℕ → Controller → Controller
given slow v c = record {
  command = 0;
  config = if c.command == 0x60 then v else c.config;
  busy = slow;
  answer = c.answer;
  wait = c.wait;
}

abbrev pub elapsed : Controller → Controller
elapsed c = record {
  command = c.command;
  config = c.config;
  busy = c.busy - 1;
  answer = c.answer;
  wait = c.wait - 1;
}

unfoldable pub taken : Controller → Controller
taken c = record {
  command = c.command;
  config = c.config;
  busy = c.busy;
  answer = if is_ready c.answer c.wait then none else c.answer;
  wait = c.wait;
}

-- An access to a port, where a byte that is accepted keeps the input buffer full for `slow` reads of the status, and
-- an answer takes `reply` reads. A byte that is written while the input buffer is full is lost.
unfoldable pub step : ℕ → ℕ → Io → Controller → Controller
step slow reply (input port v) c =
    if port == kb_status_port then elapsed c else if port == kb_data_port then taken c else c
step slow reply (output port v) c =
    if ltb 0 c.busy
    then c
    else if port == kb_cmd_port
    then commanded slow reply v c
    else if port == kb_data_port
    then given slow v c
    else c

module _ (slow reply : History → ℕ) (start : Controller) where
  unfoldable pub controller_of : History → Controller
  controller_of [] = start
  controller_of (io ∷ h) = step (slow h) (reply h) io (controller_of h)

  -- The status tells the state of the buffers, the data port gives the answer when the output buffer is full, and
  -- neither buffer takes 10000 reads of the status.
  pub record Behaves (device : Device) : Type 0 where
    pub takes : (h : History) → input_full device h ≡ ltb 0 (controller_of h).busy
    pub tells :
        (h : History)
        → output_full device h ≡ is_ready (controller_of h).answer (controller_of h).wait
    pub answers :
        (h : History)
        → is_ready (controller_of h).answer (controller_of h).wait ≡ true
        → byte_in device h kb_data_port ≡ byte_of (controller_of h).answer % 2 ^ 8
    pub accepts : (h : History) → slow h < 10000
    pub replies : (h : History) → reply h < 10000
