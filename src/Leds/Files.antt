-- ===== src/Leds/Files.antt =====
-- LedControllerUtil: the attribute files of a LED in sysfs. Whether a path exists, and how a write
-- ends, are arguments.
use ksg_canbus_rpi_sniffer.Prelude.{
  ℕ, Bool, true, false, List, [], ◌∷◌, ◌++◌, ltb, if◌then◌else◌, length,
}
use ksg_canbus_rpi_sniffer.Text.{codes, snprintf, is_empty}

-- What is written: a text, or a number in decimal with a line end.
pub data AttrValue : Type 0 where
  text : List ℕ → AttrValue
  milliseconds : ℕ → AttrValue

pub record FileWrite : Type 0 where
  pub path : List ℕ
  pub value : AttrValue

-- open fails, write fails, write takes only a part, or all is written.
pub data FileAnswer : Type 0 where
  not_opened failed incomplete complete : FileAnswer

-- The result is whether the code returns 0.
unfoldable pub write_to_file : List ℕ → AttrValue → FileAnswer → Bool × List FileWrite
write_to_file path value not_opened = (false, [])
write_to_file path value failed = (false, record { path = path; value = value } ∷ [])
write_to_file path value incomplete = (false, record { path = path; value = value } ∷ [])
write_to_file path value complete = (true, record { path = path; value = value } ∷ [])

unfoldable pub and_then : Bool × List FileWrite → Bool × List FileWrite → Bool × List FileWrite
and_then (false, before) after = (false, before)
and_then (true, before) (ok, after) = (ok, before ++ after)

unfoldable pub led_path : List ℕ → List ℕ
led_path led_name = codes "/sys/class/leds/" ++ led_name

unfoldable pub attr_path : List ℕ → List ℕ → List ℕ
unfolding led_path
attr_path led_name attr = led_path led_name ++ (codes "/" ++ attr)

unfoldable pub exists : (List ℕ → Bool) → List ℕ → Bool
exists present led_name =
    if is_empty led_name then false else present (snprintf 256 (led_path led_name))

module _ (answer : List ℕ → AttrValue → FileAnswer) where
  unfoldable pub write_attr : List ℕ → List ℕ → AttrValue → Bool × List FileWrite
  unfolding write_to_file
  write_attr led_name attr value =
      let path = attr_path led_name attr in
      if ltb (length path) 256 then write_to_file path value (answer path value) else (false, [])

  unfoldable pub take_control : List ℕ → Bool × List FileWrite
  unfolding write_attr
  take_control led_name = write_attr led_name (codes "trigger") (text (codes "none\n"))

  unfoldable pub turn_on : List ℕ → Bool × List FileWrite
  unfolding write_attr
  turn_on led_name = write_attr led_name (codes "brightness") (text (codes "1\n"))

  unfoldable pub turn_off : List ℕ → Bool × List FileWrite
  unfolding write_attr
  turn_off led_name = write_attr led_name (codes "brightness") (text (codes "0\n"))

  unfoldable pub set_trigger : List ℕ → List ℕ → Bool × List FileWrite
  unfolding write_attr
  set_trigger led_name trigger = write_attr led_name (codes "trigger") (text trigger)

  unfoldable pub set_timer : List ℕ → ℕ → ℕ → Bool × List FileWrite
  unfolding write_attr and_then
  set_timer led_name on_ms off_ms =
      and_then (write_attr led_name (codes "trigger") (text (codes "timer\n"))) (
        and_then (write_attr led_name (codes "delay_on") (milliseconds on_ms))
          (write_attr led_name (codes "delay_off") (milliseconds off_ms)))
