-- ===== src/Yoko.antt =====
-- probes/libenergyyoko: the energy that a power meter on a serial port has measured. What the port does is
-- a parameter.
pub mod Number
pub mod Digits
pub mod Places
pub mod Spelling
pub mod Connect
pub mod Fields
pub mod Energy
use Prim.Native.String.{String}
use lpowerprobe.Common.{
  ℕ, zero, suc, ◌≡◌, Bool, true, false, Option, none, some, List, [], ◌∷◌, ◌++◌, get_elem?, ◌==◌,
  if◌then◌else◌,
}
use lpowerprobe.Text.{Text}
use lpowerprobe.Text.Tokens.{tokens}
use lpowerprobe.Yoko.Number.{Real, parse_float_str}

pub data Voltage : Type 0 where
  v_auto v_300 : Voltage

pub data Current : Type 0 where
  c_auto c_05 c_1 c_2 : Current

pub data UpdateRate : Type 0 where
  ur_01 ur_025 ur_05 : UpdateRate

-- The commands that `set_voltage` sends, and the two functions behind it.
unfoldable pub set_voltage : Voltage → List String
set_voltage v_auto = "CONF:CFAC 3\n" ∷ "CONF:VOLT:AUTO ON\n" ∷ []
set_voltage v_300 = "CONF:CFAC 3\n" ∷ "CONF:VOLT:AUTO OFF\n" ∷ "CONF:VOLT:RANG 300V\n" ∷ []

unfoldable pub set_current : Current → List String
set_current c_auto = "CONF:CFAC 3\n" ∷ "CONF:CURR:AUTO ON\n" ∷ []
set_current c_05 = "CONF:CFAC 3\n" ∷ "CONF:CURR:AUTO OFF\n" ∷ "CONF:CURR:RANG 0.5A\n" ∷ []
set_current c_1 = "CONF:CFAC 3\n" ∷ "CONF:CURR:AUTO OFF\n" ∷ "CONF:CURR:RANG 1A\n" ∷ []
set_current c_2 = "CONF:CFAC 3\n" ∷ "CONF:CURR:AUTO OFF\n" ∷ "CONF:CURR:RANG 2A\n" ∷ []

unfoldable pub set_update_rate : UpdateRate → List String
set_update_rate ur_01 = "SAMP:RATE 0.1S\n" ∷ []
set_update_rate ur_025 = "SAMP:RATE 0.25S\n" ∷ []
set_update_rate ur_05 = "SAMP:RATE 0.5S\n" ∷ []

-- What `yoko_connect` sends.
unfoldable pub setup_commands : List String
unfolding set_voltage set_current set_update_rate
setup_commands =
    ("*RST\n" ∷ "*CLS\n" ∷ "CONFIGURE:MODE RMS\n" ∷ "CONFIGURE:FILTER OFF\n"
      ∷ "CONFIGURE:LFILTER OFF\n" ∷ "CONFIGURE:SCALING OFF\n" ∷ "CONFIGURE:AVERAGING OFF\n" ∷ [])
    ++ (set_voltage v_300
        ++ (set_current c_1
            ++ (set_update_rate ur_01
                ++ ("MEAS:NORM:ITEM:PRES INTEG\n" ∷ "SAMPLE:HOLD ON\n" ∷ "INTEGRATE:RESET\n"
                    ∷ "INTEGRATE:MODE NORMAL\n" ∷ "INTEGRATE:TIMER 0,0,0\n" ∷ "INTEGRATE:START\n"
                    ∷ "SAMPLE:HOLD OFF\n" ∷ "STATUS:FILTER1 RISE\n" ∷ "COMM:WAIT 1\n" ∷ "*CLS\n"
                    ∷ "STATUS:FILTER1 RISE\n" ∷ "COMM:WAIT 1\n" ∷ []))))

-- DEFAULT_COM_PATHS, and B9600.
abbrev pub default_com_paths : List String
default_com_paths = "/dev/ttyS0" ∷ "/dev/ttyUSB0" ∷ []

abbrev pub default_com_speed : ℕ
default_com_speed = 13

-- The control characters that are named in the code.
pub data Control : Type 0 where
  vintr vquit verase vkill veof vtime vmin vswtc vstart vstop vsusp veol vreprint vdiscard : Control
  vwerase vlnext veol2 : Control

-- The part of `struct termios` that the code sets; the other flags stay as they are.
pub record Termios : Type 0 where
  pub ispeed : ℕ
  pub ospeed : ℕ
  pub cread : Bool
  pub clocal : Bool
  pub parenb : Bool
  pub cstopb : Bool
  pub char_size : ℕ
  pub ignpar : Bool
  pub icanon : Bool
  pub echo : Bool
  pub c_cc : Control → ℕ

abbrev pub control_characters : Control → ℕ
control_characters vmin = 1
control_characters vintr = 0
control_characters vquit = 0
control_characters verase = 0
control_characters vkill = 0
control_characters veof = 0
control_characters vtime = 0
control_characters vswtc = 0
control_characters vstart = 0
control_characters vstop = 0
control_characters vsusp = 0
control_characters veol = 0
control_characters vreprint = 0
control_characters vdiscard = 0
control_characters vwerase = 0
control_characters vlnext = 0
control_characters veol2 = 0

unfoldable pub configured : Termios → Termios
configured pset = record pset {
  ispeed = default_com_speed;
  ospeed = default_com_speed;
  cread = true;
  clocal = true;
  parenb = false;
  cstopb = false;
  char_size = 8;
  ignpar = true;
  icanon = false;
  echo = false;
  c_cc = control_characters;
}

-- What the calls on the port return.
pub record Port : Type 0 where
  pub opens : String → Option ℕ  -- the descriptor
  pub tcgetattr : Option Termios
  pub cfsetispeed : Bool
  pub cfsetospeed : Bool
  pub tcsetattr : Bool
  pub tcflush : Bool
  pub tcdrain : Bool

-- What is done to the port.
pub data Action : Type 0 where
  open_fd close_fd : ℕ → Action
  set_attributes : ℕ → Termios → Action
  send_cmd : ℕ → String → Action

abbrev pub send_all : ℕ → List String → List Action
send_all fd [] = []
send_all fd (cmd ∷ cmds) = send_cmd fd cmd ∷ send_all fd cmds

-- The loop over the paths.
unfoldable pub first_open : Port → List String → Option ℕ
first_open port [] = none
first_open port (path ∷ paths) = elim (port.opens path) [
  | none ↦ first_open port paths
  | some fd ↦ some fd
]

-- yokoctx_t, less the buffers of its functions.
pub record Context (W : Type 0) : Type 0 where
  pub fd : ℕ
  pub last_e : W

module _ {W : Type 0} ⦃d : Real W⦄ where
  -- `yoko_connect` once the port is open and its settings are read: what is done, and the context or a
  -- null pointer.
  unfoldable pub connect_with : Port → ℕ → Termios → List Action × Option (Context W)
  unfolding configured setup_commands
  connect_with port fd pset =
      let opened = open_fd fd ∷ [] in
      let set = set_attributes fd (configured pset) ∷ [] in
      let sent = send_all fd setup_commands in
      let failed = close_fd fd ∷ [] in
      if port.cfsetispeed
      then if port.cfsetospeed
        then if port.tcsetattr
          then if port.tcflush
            then if port.tcdrain
              then (opened ++ (set ++ sent), some (record { fd = fd; last_e = d.nought }))
              else (opened ++ (set ++ (sent ++ failed)), none)
            else (opened ++ (set ++ failed), none)
          else (opened ++ failed, none)
        else (opened ++ failed, none)
      else (opened ++ failed, none)

  unfoldable pub yoko_connect : Port → List Action × Option (Context W)
  unfolding first_open connect_with
  yoko_connect port = elim (first_open port default_com_paths) [
    | none ↦ ([], none)
    | some fd ↦ elim (port.tcgetattr) [
      | none ↦ (open_fd fd ∷ close_fd fd ∷ [], none)
      | some pset ↦ connect_with port fd pset
    ]
  ]

  -- The action of `yoko_disconnect`, which `fini` calls.
  unfoldable pub yoko_disconnect : Option (Context W) → List Action
  yoko_disconnect none = []
  yoko_disconnect (some ctx) = close_fd ctx.fd ∷ []

-- The string at the start of a buffer, up to the first 0; `none` if there is no 0 in it.
unfoldable pub c_string : Text → Option Text
c_string [] = none
c_string (c ∷ text) = elim (c == 0) [
  | true ↦ some []
  | false ↦ elim (c_string text) [ none ↦ none | some rest ↦ some (c ∷ rest) ]
]

-- The bytes that can be read, and what the read behind them returns: 0 or -1.
pub data Ending : Type 0 where
  connection_lost read_failed : Ending

-- How the loop of `send_req` ends: with a 0 behind the bytes, with a full buffer, or with an error.
pub data Answer : Type 0 where
  line : Text → Answer
  unterminated : Text → Answer
  lost : Ending → Answer

-- The loop for a buffer that has `room` bytes left behind those of `got`.
unfoldable pub read_line : ℕ → Text → Text → Ending → Answer
read_line zero got input ending = unterminated got
read_line (suc room) got [] ending = lost ending
read_line (suc room) got (c ∷ input) ending =
    if c == 10 then line got else read_line room (got ++ (c ∷ [])) input ending

module _ {W : Type 0} ⦃d : Real W⦄ where
  -- The field of an answer, as `strtok_r` finds it in the string that the buffer starts with. A string
  -- without its 0 is read beyond the buffer: that is `none`.
  unfoldable pub field_in : ℕ → Option Text → Option W
  unfolding tokens
  field_in field none = none
  field_in field (some text) = some (parse_float_str (get_elem? (tokens 44 text) field))

  unfoldable pub field_of : ℕ → Answer → Option W
  unfolding c_string field_in
  field_of field (line text) = field_in field (c_string (text ++ (0 ∷ [])))
  field_of field (unterminated text) = field_in field (c_string text)
  field_of field (lost ending) = some d.minus_one

  -- `read_measurement`, with what the meter answers.
  unfoldable pub read_measurement : Option (Context W) → ℕ → Text → Ending → Option W
  unfolding field_of read_line
  read_measurement none field input ending = some d.minus_one
  read_measurement (some ctx) field input ending = field_of field (read_line 1024 [] input ending)

  abbrev pub is_error : W → Bool
  is_error cur =
      if d.negative cur then true else if d.equals cur d.nan then true else d.equals cur d.infinity

  -- `yoko_read_energy` once it has read `cur`.
  unfoldable pub account : W → W → Context W → W × Context W
  account hour cur ctx =
      if is_error cur
      then (d.nought, ctx)
      else (d.sub (d.mul cur hour) ctx.last_e, record ctx { last_e = d.mul cur hour })

  -- `yoko_read_energy`; `hour` is 3600. Only an error can come of a null pointer.
  unfoldable pub yoko_read_energy :
      W → Option (Context W) → Text → Ending → Option (W × Option (Context W))
  unfolding read_measurement account
  yoko_read_energy hour none input ending =
      if is_error d.minus_one then some (d.nought, none) else none
  yoko_read_energy hour (some ctx) input ending =
      elim (read_measurement (some ctx) 1 input ending) [
        | none ↦ none
        | some cur ↦ let (res, ctx') = account hour cur ctx in some (res, some ctx')
      ]

  unfoldable pub yoko_read_power : Option (Context W) → Text → Ending → Option W
  unfolding read_measurement
  yoko_read_power ctx input ending = elim (read_measurement ctx 0 input ending) [
    | none ↦ none
    | some res ↦ some (if is_error res then d.nought else res)
  ]
