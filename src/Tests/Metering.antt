-- ===== src/Tests/Metering.antt =====
-- probes/libenergyyoko with a meter on the second port. A number is kept in thousandths.
use lpowerprobe.Common.{
  ℕ, ◌+◌, ◌-◌, ◌*◌, ◌/◌, ◌^◌, ◌≡◌, ◌⊎◌, refl, Bool, true, false, Option, none, some, [], ◌∷◌, ◌++◌,
  get_elem?, arith, ◌==◌,
}
use lpowerprobe.Text.{Text}
use lpowerprobe.Text.Tokens.{tokens, tokens_from}
use lpowerprobe.Yoko.Number.{
  Real, find_first, scan_up, scan_down, after_dot, parse_digits, parse_float_str,
}
use lpowerprobe.Yoko.Places.{value_of, exponent_of}
use lpowerprobe.Yoko.Fields.{IsField, joined, read_measurement_lem}
use lpowerprobe.Yoko.{
  Termios, Port, Context, yoko_connect, yoko_disconnect, connection_lost, read_line, c_string,
  field_in, field_of, read_measurement,
}
use lpowerprobe.Yoko.Connect.{left_open, Connected, Refused, connect_lem}
use lpowerprobe.Yoko.Energy.{LibData, NanLaws}

abbrev both : (ℕ → ℕ → ℕ) → Option ℕ → Option ℕ → Option ℕ
both f none b = none
both f (some a) none = none
both f (some a) (some b) = some (f a b)

abbrev is : ℕ → Option ℕ → Bool
is a none = false
is a (some b) = a == b

abbrev equal : Option ℕ → Option ℕ → Bool
equal none b = false
equal (some a) b = is a b

abbrev ten_to : Bool → Option ℕ → Option ℕ
ten_to negative none = none
ten_to true (some e) = some (1000 / 10 ^ (e / 1000))
ten_to false (some e) = some (1000 * 10 ^ (e / 1000))

-- `none` is NaN; the infinity and -1 are numbers that do not occur.
instance abbrev thousandths : Real (Option ℕ)
thousandths = record {
  nought = some 0;
  one = some 1000;
  tenth = some 100;
  ten = some 10000;
  minus_one = some 77777777;
  nan = none;
  infinity = some 99999999;
  digit = λ c. some ((c - 48) * 1000);
  add = both (λ a b. a + b);
  sub = both (λ a b. a - b);
  mul = both (λ a b. a * b / 1000);
  signed = λ negative a. a;
  power = ten_to;
  no_exponent = some 0;
  add_exponent = λ eval c coeff. both (λ a b. a + (c - 48) * b) eval coeff;
  negative = is 77777777;
  equals = equal;
}

spelt_value :
    thousandths.mul
      (value_of (49 ∷ 50 ∷ []) (53 ∷ []))
      (thousandths.power false (exponent_of (49 ∷ [])))
    ≡ some 125000
spelt_value = refl

-- `7,2.5E+0` and `7,4.0E+0`.
abbrev first_energy : Text
first_energy = 50 ∷ 46 ∷ 53 ∷ 69 ∷ 43 ∷ 48 ∷ []

abbrev second_energy : Text
second_energy = 52 ∷ 46 ∷ 48 ∷ 69 ∷ 43 ∷ 48 ∷ []

abbrev answer : Text → Text
answer energy = 55 ∷ 44 ∷ (energy ++ (10 ∷ []))

abbrev at_usb : Context (Option ℕ)
at_usb = record { fd = 3; last_e = some 0 }

power-IsField : IsField (55 ∷ [])
power-IsField = record {
  nonempty = λ e. cc;
  solid = (refl, tt);
  in_line = (refl, tt);
  in_string = (refl, tt);
}

first_energy-IsField : IsField first_energy
first_energy-IsField = record {
  nonempty = λ e. cc;
  solid = (refl, (refl, (refl, (refl, (refl, (refl, tt))))));
  in_line = (refl, (refl, (refl, (refl, (refl, (refl, tt))))));
  in_string = (refl, (refl, (refl, (refl, (refl, (refl, tt))))));
}

read_measurement_lem_example :
    read_measurement
      (some at_usb)
      1
      (joined ((55 ∷ []) ∷ first_energy ∷ []) ++ (10 ∷ []))
      connection_lost
    ≡ some (parse_float_str (get_elem? ((55 ∷ []) ∷ first_energy ∷ []) 1))
read_measurement_lem_example =
    read_measurement_lem at_usb ((55 ∷ []) ∷ first_energy ∷ []) 1 [] connection_lost
      (power-IsField, (first_energy-IsField, tt)) (omega arith)

abbrev settings : Termios
settings = record {
  ispeed = 0;
  ospeed = 0;
  cread = false;
  clocal = false;
  parenb = true;
  cstopb = true;
  char_size = 5;
  ignpar = false;
  icanon = true;
  echo = true;
  c_cc = λ c. 9;
}

abbrev usb_port : Port
usb_port = record {
  opens = λ path. some 3;
  tcgetattr = some settings;
  cfsetispeed = true;
  cfsetospeed = true;
  tcsetattr = true;
  tcflush = true;
  tcdrain = false;
}

connect_lem_example :
    let (done, result) = yoko_connect {W = Option ℕ} usb_port in
    (Connected usb_port done result ⊎ Refused usb_port done result)
    × (left_open (done ++ yoko_disconnect result) [] ≡ [])
connect_lem_example = connect_lem usb_port

abbrev closed_lib : LibData (Option ℕ)
closed_lib = record { ctx = some at_usb; e = some 0 }

reads_first :
    read_measurement (some at_usb) 1 (answer first_energy) connection_lost ≡ some (some 2500)
unfolding read_measurement field_of field_in c_string read_line tokens tokens_from parse_float_str
    parse_digits scan_up scan_down after_dot find_first
reads_first = refl

reads_second :
    read_measurement (some at_usb) 1 (answer second_energy) connection_lost ≡ some (some 4000)
unfolding read_measurement field_of field_in c_string read_line tokens tokens_from parse_float_str
    parse_digits scan_up scan_down after_dot find_first
reads_second = refl

-- `9.9E+37`.
reads_nan :
    read_measurement
      (some at_usb)
      1
      (answer (57 ∷ 46 ∷ 57 ∷ 69 ∷ 43 ∷ 51 ∷ 55 ∷ []))
      connection_lost
    ≡ some none
unfolding read_measurement field_of field_in c_string read_line tokens tokens_from parse_float_str
reads_nan = refl

thousandths-NanLaws : NanLaws thousandths
thousandths-NanLaws = record {
  not_negative = refl;
  unequal = λ x. refl;
  mul_nan = λ x. refl;
  sub_nan = sub_none;
}
  where
    sub_none : (x : Option ℕ) → both (λ a b. a - b) x none ≡ none
    sub_none none = refl
    sub_none (some a) = refl
