-- ===== src/Sniffer/Kept.antt =====
-- What the filter cannot do to a frame of Sniffer::handleCanData, whatever rules it has.
use ksg_canbus_rpi_sniffer.Prelude.{
  ℕ, ◌≤◌, ◌<◌, ◌≡◌, refl, sym, ap, ◌∙◌, inl, inr, Bool, true, false, some, List, [], ◌∷◌, ◌++◌,
  if◌then◌else◌, if-either, length, length-drop, length-take, length-append, take, take-append_le,
  suc, zero, le→leb, arith, ◌==◌,
}
use ksg_canbus_rpi_sniffer.Filter.Rule.{CanFilterRule, Source, Verdict, act}
use ksg_canbus_rpi_sniffer.Filter.Spec.{IsSort}
use ksg_canbus_rpi_sniffer.Filter.Order.{Decided}
use ksg_canbus_rpi_sniffer.Filter.Modify.{length-modify_from}
use ksg_canbus_rpi_sniffer.Sniffer.State.{Sniffer}
use ksg_canbus_rpi_sniffer.Sniffer.Frames.{
  local_buffer, frame_dlc, frame_data, with_data, log_command, log, after_filter, handle_can_data,
}
use ksg_canbus_rpi_sniffer.Sniffer.Forwarding.{armed, armed-logging, decided, handle-decided}
use ksg_canbus_rpi_sniffer.Sniffer.Buffers.{
  is_bus, across, logged, length-local_buffer, take-local_buffer, copy_len-short, forward_lem,
}

take-take : (m n : ℕ) (xs : List ℕ) → m ≤ n → take m (take n xs) ≡ take m xs
take-take zero n xs h = refl
take-take (suc m) zero xs h = absurd (omega (arith, h))
take-take (suc m) (suc n) [] h = refl
take-take (suc m) (suc n) (x ∷ xs) h = ap (◌∷◌ x) (take-take m n xs (omega (arith, h)))

length-act :
    (r : CanFilterRule) (bytes : List ℕ) (len : ℕ) → length (act r bytes len).1 ≡ length bytes
unfolding act
length-act r bytes len =
    if-either (λ (v : Verdict). length v.1 ≡ length bytes) (r.action_type == 1) _ _ (λ e. refl)
      λ e.
        if-either (λ (v : Verdict). length v.1 ≡ length bytes) (r.action_type == 2) _ _
          (λ f. length-modify_from 8 0 r bytes len) (λ f. refl)

length-Decided :
    (rs : List CanFilterRule) (k : ℕ) (bytes : List ℕ) (len : ℕ) (source : Source) (v : Verdict)
    → Decided rs k bytes len source v
    → length v.1 ≡ length bytes
length-Decided rs k bytes len source v (inl (r, m, e, a, o)) =
    ap (λ (w : Verdict). length w.1) o ∙ length-act r bytes len
length-Decided rs k bytes len source v (inr (no_rule, o)) = ap (λ (w : Verdict). length w.1) o

module _ (bytes stack data' : List ℕ) (short : length bytes ≤ 72) (whole : length stack ≡ 72)
    (same : length data' ≡ 64) where
  -- The frame with other data.
  abbrev changed : List ℕ
  changed = take (length bytes) (with_data (local_buffer bytes stack) data')

  length-changed : length changed ≡ length bytes
  unfolding with_data
  length-changed = omega (
    arith,
    short,
    same,
    length-take (length bytes) (with_data (local_buffer bytes stack) data'),
    length-append (take 8 (local_buffer bytes stack)) data',
    length-take 8 (local_buffer bytes stack),
    length-local_buffer bytes stack short whole,
  )

  take-changed : 8 ≤ length bytes → take 8 changed ≡ take 8 bytes
  unfolding with_data
  take-changed long =
      let buffer = local_buffer bytes stack in
      take-take 8 (length bytes) (take 8 buffer ++ data') long
      ∙ take-append_le 8 (take 8 buffer) data'
          (omega (arith, length-take 8 buffer, length-local_buffer bytes stack short whole))
      ∙ take-take 8 8 buffer (omega arith)
      ∙ sym (take-take 8 (length bytes) buffer long)
      ∙ ap (take 8) (take-local_buffer bytes stack short)

  log-changed :
      (on : Bool) (source : Source) (forwarded : Bool) (time : ℕ)
      → log on source forwarded time (length bytes) (with_data (local_buffer bytes stack) data')
        ≡ some (logged on (log_command source forwarded) time changed)
  unfolding log
  log-changed false source forwarded time = refl
  log-changed true source forwarded time = rw (
    copy_len-short bytes stack short 64000 (omega arith),
    le→leb (length bytes) 72 short,
    length-changed,
  )

  after_filter-changed :
      (s : Sniffer) (source : Source) (time : ℕ) (forwarded : Bool)
      → after_filter s source bytes time (local_buffer bytes stack) (some (forwarded, data'))
        ≡ some (
          s,
          (if forwarded then across source changed else [])
              ++ logged s.external_service_logging (log_command source forwarded) time changed,
        )
  unfolding after_filter
  after_filter-changed s source time forwarded = rw (
    log-changed s.external_service_logging source forwarded time,
    copy_len-short bytes stack short 72 (omega arith),
    forward_lem changed stack (omega (arith, short, length-changed)) source forwarded,
  )

module _ (sort : List CanFilterRule → List CanFilterRule) (contract : IsSort sort)
    (payload : List ℕ) (few : length payload < 6400) (s : Sniffer) (running : s.running ≡ true)
    (now time : ℕ) (status : List ℕ) where
  -- A running sniffer that got CMD_SET_FILTERS with a payload of less than 6400 bytes, whatever rules
  -- they are, and a frame of 8 to 72 bytes from a bus, whose DLC is at most 64: the sniffer reads and
  -- writes inside its arrays and its local buffer, and there is one frame of the same length, with the id,
  -- the DLC and the other bytes of the header as they came, that goes to the other bus or to no bus; with
  -- logging on it is this frame that the report carries, under the command for its bus and for whether it
  -- was sent; and nothing else is sent.
  pub header_kept :
      (source : Source) (bus : is_bus source ≡ true) (bytes stack : List ℕ)
      (short : length bytes ≤ 72) (whole : length stack ≡ 72)
      (dlc_fits : frame_dlc (local_buffer bytes stack) ≤ 64) (later stamp : ℕ)
      → 8 ≤ length bytes
      → (forwarded : Bool) × (out : List ℕ) × (handle_can_data source bytes later stamp stack
            (armed sort contract payload few s running now time status)
          ≡ some (
            armed sort contract payload few s running now time status,
            (if forwarded then across source out else [])
                ++ logged s.external_service_logging (log_command source forwarded) stamp out,
          ))
        × (length out ≡ length bytes)
        × (take 8 out ≡ take 8 bytes)
  unfolding frame_data
  header_kept source bus bytes stack short whole dlc_fits later stamp long =
      let after = armed sort contract payload few s running now time status in
      let (verdict, ran, how) =
        decided sort contract payload few s running now time status source bus bytes stack short
          whole dlc_fits later stamp in
      let same : length verdict.1 ≡ 64 = omega (
        arith,
        length-Decided _ _ _ _ source verdict how,
        length-drop 8 (local_buffer bytes stack),
        length-local_buffer bytes stack short whole,
      ) in
      let out = changed bytes stack verdict.1 short whole same in
      (
        verdict.0,
        out,
        handle-decided sort contract payload few s running now time status source bus bytes stack
              short whole dlc_fits later stamp
            ∙ after_filter-changed bytes stack verdict.1 short whole same after source stamp
                verdict.0
            ∙ ap
                (λ on. some (
                  after,
                  (if verdict.0 then across source out else [])
                      ++ logged on (log_command source verdict.0) stamp out,
                ))
                (armed-logging sort contract payload few s running now time status source bus bytes
                  stack short whole dlc_fits later stamp),
        length-changed bytes stack verdict.1 short whole same,
        take-changed bytes stack verdict.1 short whole same long,
      )
