-- ===== src/MockMcu/Gpio/Laws.antt =====
-- mock_mcu/src/gpio_bsp.cpp: what a pin reads after it was written, injected and configured.
use remote_bsp.Prelude.{
  ℕ, ◌≡◌, ◌≢◌, List, [], ◌∷◌, All, ◌==◌, refl, sym, ap, ◌∙◌, Bool, Option, none, some, Result, ok,
  err, if◌then◌else◌, arith, Option-cases, inl, inr,
}
use remote_bsp.Prelude.Map.{find, assign, find-assign, find-assign_self}
use remote_bsp.MockMcu.Gpio.{
  GpioDirection, MockGpioBsp, MockGpioError, input, output, PinState, pin_not_configured, configure,
  read, write, write_pin, set_input_value, inject_pin, value_or, initial_value,
}

abbrev level_of : Option PinState → Result MockGpioError Bool
level_of none = err pin_not_configured
level_of (some s) = ok s.value

read_lem : (g : MockGpioBsp) (pin : ℕ) → (read g pin).0 ≡ level_of (find pin g.pins)
unfolding read
read_lem g pin = elim (Option-cases (find pin g.pins)) [
  | inl h ↦ ground (arith, h)
  | inr (s, h) ↦ ground (arith, h)
]

abbrev driven : Bool → PinState
driven v = record { direction = output; value = v }

write_pin_ok :
    (g : MockGpioBsp) (pin : ℕ) (v : Bool) (d : GpioDirection)
    → (write_pin g pin v d).0 ≡ ok tt
    → (write_pin g pin v d).1.pins ≡ assign pin (driven v) g.pins
unfolding write_pin
write_pin_ok g pin v input h = ground (arith, h)
write_pin_ok g pin v output h = refl

write_ok :
    (g : MockGpioBsp) (pin : ℕ) (v : Bool)
    → (write g pin v).0 ≡ ok tt
    → (write g pin v).1.pins ≡ assign pin (driven v) g.pins
unfolding write
write_ok g pin v h = elim (Option-cases (find pin g.pins)) [
  | inl e ↦ ground (arith, h, e)
  | inr (s, e) ↦ ground (arith, h, e, write_pin_ok g pin v s.direction)
]

inject_pin_ok :
    (g : MockGpioBsp) (pin : ℕ) (v : Bool) (d : GpioDirection)
    → (inject_pin g pin v d).0 ≡ ok tt
    → (inject_pin g pin v d).1.pending_input_values ≡ assign pin v g.pending_input_values
unfolding inject_pin
inject_pin_ok g pin v input h = refl
inject_pin_ok g pin v output h = ground (arith, h)

set_input_value_ok :
    (g : MockGpioBsp) (pin : ℕ) (v : Bool)
    → (set_input_value g pin v).0 ≡ ok tt
    → (set_input_value g pin v).1.pending_input_values ≡ assign pin v g.pending_input_values
unfolding set_input_value
set_input_value_ok g pin v h = elim (Option-cases (find pin g.pins)) [
  | inl e ↦ ground (arith, h, e)
  | inr (s, e) ↦ ground (arith, h, e, inject_pin_ok g pin v s.direction)
]

-- A call on the pins.
pub data Call : Type 0 where
  configuring : ℕ → GpioDirection → Bool → Call
  reading : ℕ → Call
  writing : ℕ → Bool → Call
  injecting : ℕ → Bool → Call

unfoldable pub after_call : MockGpioBsp → Call → MockGpioBsp
after_call g (configuring pin direction initial) = configure g pin direction initial
after_call g (reading pin) = (read g pin).1
after_call g (writing pin v) = (write g pin v).1
after_call g (injecting pin v) = (set_input_value g pin v).1

unfoldable pub after_calls : MockGpioBsp → List Call → MockGpioBsp
unfolding after_call
after_calls g [] = g
after_calls g (c ∷ calls) = after_calls (after_call g c) calls

-- A call that neither configures the pin nor writes to it.
abbrev pub Spares : ℕ → Call → Type 0
Spares pin (configuring other direction initial) = other ≢ pin
Spares pin (reading other) = Unit {0}
Spares pin (writing other v) = other ≢ pin
Spares pin (injecting other v) = Unit {0}

write_pin_spares :
    (g : MockGpioBsp) (pin other : ℕ) (v w : Bool) (d : GpioDirection)
    → other ≢ pin
    → find pin g.pins ≡ some (driven v)
    → find pin (write_pin g other w d).1.pins ≡ some (driven v)
unfolding write_pin
write_pin_spares g pin other v w input apart h = h
write_pin_spares g pin other v w output apart h =
    find-assign other pin (driven w) g.pins ∙ ground (arith, apart, h)

write_spares :
    (g : MockGpioBsp) (pin other : ℕ) (v w : Bool)
    → other ≢ pin
    → find pin g.pins ≡ some (driven v)
    → find pin (write g other w).1.pins ≡ some (driven v)
unfolding write
write_spares g pin other v w apart h = elim (Option-cases (find other g.pins)) [
  | inl e ↦ rw (e, write) h
  | inr (s, e) ↦ rw (e, write) (write_pin_spares g pin other v w s.direction apart h)
]

inject_pin_spares :
    (g : MockGpioBsp) (pin other : ℕ) (v w : Bool) (d : GpioDirection)
    → (other ≡ pin → d ≡ output)
    → find pin g.pins ≡ some (driven v)
    → find pin (inject_pin g other w d).1.pins ≡ some (driven v)
unfolding inject_pin
inject_pin_spares g pin other v w output kept h = h
inject_pin_spares g pin other v w input kept h =
    find-assign other pin (record { direction = input; value = w }) g.pins ∙ ground (arith, kept, h)

inject_spares :
    (g : MockGpioBsp) (pin other : ℕ) (v w : Bool)
    → find pin g.pins ≡ some (driven v)
    → find pin (set_input_value g other w).1.pins ≡ some (driven v)
unfolding set_input_value
inject_spares g pin other v w h = elim (Option-cases (find other g.pins)) [
  | inl e ↦ rw (e, set_input_value) h
  | inr (s, e) ↦
      rw (e, set_input_value)
        (inject_pin_spares g pin other v w s.direction
          (λ same. found s (sym e ∙ ap (λ k. find k g.pins) same ∙ h)) h)
]
  where
    found : (s : PinState) → some s ≡ some (driven v) → s.direction ≡ output
    found s h = ground (arith, h)

read_spares :
    (g : MockGpioBsp) (pin other : ℕ) (v : Bool)
    → find pin g.pins ≡ some (driven v)
    → find pin (read g other).1.pins ≡ some (driven v)
unfolding read
read_spares g pin other v h = ground (arith, h)

after_call-driven :
    (g : MockGpioBsp) (pin : ℕ) (v : Bool) (c : Call)
    → Spares pin c
    → find pin g.pins ≡ some (driven v)
    → find pin (after_call g c).pins ≡ some (driven v)
unfolding after_call configure
after_call-driven g pin v (configuring other direction initial) apart h =
    find-assign other pin
      (record { direction = direction; value = initial_value g other direction initial }) g.pins
    ∙ ground (arith, apart, h)
after_call-driven g pin v (reading other) apart h = read_spares g pin other v h
after_call-driven g pin v (writing other w) apart h = write_spares g pin other v w apart h
after_call-driven g pin v (injecting other w) apart h = inject_spares g pin other v w h

after_calls-driven :
    (g : MockGpioBsp) (pin : ℕ) (v : Bool) (calls : List Call)
    → All (Spares pin) calls
    → find pin g.pins ≡ some (driven v)
    → find pin (after_calls g calls).pins ≡ some (driven v)
unfolding after_calls
after_calls-driven g pin v [] spared h = h
after_calls-driven g pin v (c ∷ calls) spared h =
    after_calls-driven (after_call g c) pin v calls spared.1
      (after_call-driven g pin v c spared.0 h)

-- A level that was written with success is what its pin reads after any calls that neither configure
-- the pin nor write to it: reads of any pin, injections into any pin, and whatever is done to other
-- pins. What any other pin reads directly behind the write is as before.
pub read-write :
    (g : MockGpioBsp) (pin other : ℕ) (v : Bool) (calls : List Call)
    → (write g pin v).0 ≡ ok tt
    → All (Spares pin) calls
    → ((read (after_calls (write g pin v).1 calls) pin).0 ≡ ok v)
      × ((read (write g pin v).1 other).0 ≡ (if pin == other then ok v else (read g other).0))
read-write g pin other v calls h spared = (
  read_lem (after_calls written calls) pin
      ∙ ap level_of (
          after_calls-driven written pin v calls spared
            (ap (find pin) (write_ok g pin v h) ∙ find-assign_self pin (driven v) g.pins)),
  read_lem written other
      ∙ ap level_of (ap (find other) (write_ok g pin v h) ∙ find-assign pin other (driven v) g.pins)
      ∙ ground (arith, read_lem g other),
)
  where
    written : MockGpioBsp
    written = (write g pin v).1

-- A level that is injected into a pin that is no output is what the pin reads when it is then
-- configured as an input, whatever initial level the configuration names.
pub read-set_input_value :
    (g : MockGpioBsp) (pin : ℕ) (v initial : Bool)
    → (set_input_value g pin v).0 ≡ ok tt
    → (read (configure (set_input_value g pin v).1 pin input initial) pin).0 ≡ ok v
unfolding configure
read-set_input_value g pin v initial h =
    let injected : MockGpioBsp = (set_input_value g pin v).1 in
    read_lem (configure injected pin input initial) pin
    ∙ ap level_of (
        find-assign_self pin
          (record {
            direction = input;
            value = value_or (find pin injected.pending_input_values) initial;
          })
          injected.pins)
    ∙ ap (λ o. ok (value_or o initial))
        (ap (find pin) (set_input_value_ok g pin v h)
          ∙ find-assign_self pin v g.pending_input_values)
