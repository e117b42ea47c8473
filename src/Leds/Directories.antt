-- ===== src/Leds/Directories.antt =====
-- Which files the LED code writes to.
use ksg_canbus_rpi_sniffer.Prelude.{
  ℕ, ◌≡◌, refl, Bool, true, false, List, [], ◌∷◌, ◌++◌, ltb, if-either, length,
}
use ksg_canbus_rpi_sniffer.Filter.Rule.{Source}
use ksg_canbus_rpi_sniffer.Connection.Life.{
  CommunicationStatus, status_connected, status_disconnected, status_connecting, status_error,
}
use ksg_canbus_rpi_sniffer.Leds.Files.{
  AttrValue, FileAnswer, FileWrite, not_opened, failed, incomplete, complete, attr_path, exists,
  and_then, write_to_file, write_attr, take_control, set_timer,
}
use ksg_canbus_rpi_sniffer.Leds.Signals.{
  LedConfig, source_led, is_real_hardware, init_led, blink, handle_status_changed,
}

-- A write to an attribute of this LED, whose directory is there.
abbrev pub IsAttrOf : (List ℕ → Bool) → List ℕ → FileWrite → Type 0
IsAttrOf present led_name w =
    (exists present led_name ≡ true) × ((attr : List ℕ) × (w.path ≡ attr_path led_name attr))

abbrev pub All : (FileWrite → Type 0) → List FileWrite → Type 0
All P [] = Unit
All P (w ∷ rest) = P w × All P rest

All-append :
    (P : FileWrite → Type 0) (xs ys : List FileWrite) → All P xs → All P ys → All P (xs ++ ys)
All-append P [] ys h k = k
All-append P (w ∷ xs) ys (h, rest) k = (h, All-append P xs ys rest k)

write_to_file-All :
    (P : FileWrite → Type 0) (path : List ℕ) (value : AttrValue) (end : FileAnswer)
    → P (record { path = path; value = value })
    → All P (write_to_file path value end).1
unfolding write_to_file
write_to_file-All P path value not_opened h = tt
write_to_file-All P path value failed h = (h, tt)
write_to_file-All P path value incomplete h = (h, tt)
write_to_file-All P path value complete h = (h, tt)

and_then-All :
    (P : FileWrite → Type 0) (a b : Bool × List FileWrite)
    → All P a.1
    → All P b.1
    → All P (and_then a b).1
unfolding and_then
and_then-All P (false, before) b h k = h
and_then-All P (true, before) (ok, after) h k = All-append P before after h k

module _ (present : List ℕ → Bool) (answer : List ℕ → AttrValue → FileAnswer) where
  write_attr-All :
      (led_name attr : List ℕ) (value : AttrValue)
      → exists present led_name ≡ true
      → All (IsAttrOf present led_name) (write_attr answer led_name attr value).1
  unfolding write_attr
  write_attr-All led_name attr value there =
      if-either (λ (r : Bool × List FileWrite). All (IsAttrOf present led_name) r.1)
        (ltb (length (attr_path led_name attr)) 256) _ _
        (λ _.
          write_to_file-All (IsAttrOf present led_name) (attr_path led_name attr) value
            (answer (attr_path led_name attr) value) (there, (attr, refl)))
        (λ _. tt)

  set_timer-All :
      (led_name : List ℕ) (on_ms off_ms : ℕ)
      → exists present led_name ≡ true
      → All (IsAttrOf present led_name) (set_timer answer led_name on_ms off_ms).1
  unfolding set_timer
  set_timer-All led_name on_ms off_ms there =
      and_then-All (IsAttrOf present led_name) _ _ (write_attr-All led_name _ _ there) (
        and_then-All (IsAttrOf present led_name) _ _ (write_attr-All led_name _ _ there)
          (write_attr-All led_name _ _ there))

  blink-All :
      (status : CommunicationStatus) (led_name interface_name : List ℕ)
      → exists present led_name ≡ true
      → All (IsAttrOf present led_name) (blink present answer status led_name interface_name)
  unfolding blink
  blink-All status_connected led_name interface_name there =
      if-either (All (IsAttrOf present led_name)) (is_real_hardware present interface_name) _ _
        (λ _. set_timer-All led_name 1500 1500 there) (λ _. set_timer-All led_name _ _ there)
  blink-All status_disconnected led_name interface_name there =
      set_timer-All led_name 1000 200 there
  blink-All status_connecting led_name interface_name there = tt
  blink-All status_error led_name interface_name there = set_timer-All led_name 200 200 there

  init_led-All :
      (led_name : List ℕ) → All (IsAttrOf present led_name) (init_led present answer led_name)
  unfolding init_led take_control
  init_led-All led_name =
      if-either (All (IsAttrOf present led_name)) (exists present led_name) _ _
        (λ there.
          All-append (IsAttrOf present led_name) _ _ (write_attr-All led_name _ _ there)
            (set_timer-All led_name _ _ there))
        (λ _. tt)

  -- Whatever writes fail, a change of a connection's status writes only to attributes of the LED that
  -- the configuration names for that connection, and only while that LED is there; for the external
  -- service this is the LED of the car computer.
  pub handle_status_changed-All :
      (source : Source) (status : CommunicationStatus) (config : LedConfig)
      → All
          (IsAttrOf present (source_led source config))
          (handle_status_changed present answer source status config).1
  unfolding handle_status_changed
  handle_status_changed-All source status config =
      if-either (All (IsAttrOf present (source_led source config))) config.is_leds_feature_on _ _
        (λ _.
          if-either (All (IsAttrOf present (source_led source config)))
            (exists present (source_led source config)) _ _
            (λ there. blink-All status (source_led source config) _ there) (λ _. tt))
        (λ _. tt)
