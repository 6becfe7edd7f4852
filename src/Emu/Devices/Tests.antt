-- ===== src/Emu/Devices/Tests.antt =====
-- emu/src/devices.rs: a periodic timer that counts 1000 at 16 cycles a step.
use nanokrnl.Base.{
  ℕ, zero, suc, ◌+◌, ◌*◌, ◌%◌, ◌-◌, ◌^◌, ◌<◌, ◌≡◌, refl, true, not, ◌&&◌, ◌||◌, none, some, List,
  [], ◌∷◌, ◌==◌, get_or, arith,
}
use nanokrnl.Emu.Devices.{Apic, divisor, highest_below, request, ack, highest_pending}
use nanokrnl.Base.Bits.{bit}
use nanokrnl.Base.Bits.Zeros.{zeros_from}
use nanokrnl.Emu.Devices.Pending.{IsValid, Highest, pending, highest_pending-Highest}
use nanokrnl.Emu.Devices.Timer.{ticks, ticks-fires, quiet_calls, step_of, reloaded_count}

abbrev requests : List ℕ
requests = 0 ∷ 2 ^ 5 ∷ 0 ∷ 2 ^ 33 ∷ []

abbrev apic : Apic
apic = record {
  id = 0;
  svr = 0x1ff;
  tpr = 0;
  lvt_timer = 2 ^ 17 + 0xd1;
  initial_count = 1000;
  current_count = 1000;
  divide_config = 3;
  irr = requests;
}

word-lt : (i : ℕ) → get_or requests i 0 < 2 ^ 64
word-lt zero = omega arith
word-lt (suc zero) = omega arith
word-lt (suc (suc zero)) = omega arith
word-lt (suc (suc (suc zero))) = omega arith
word-lt (suc (suc (suc (suc i)))) = omega arith

requests-IsValid : IsValid requests
requests-IsValid = record { four = refl; wide = word-lt }

highest_pending-Highest_example :
    Highest 256 requests (highest_pending apic)
    × IsValid (request 7 apic).irr
    × (pending (request 7 apic).irr 69 ≡ ((69 == 7) || pending requests 69))
    × IsValid (ack 7 apic).irr
    × (pending (ack 7 apic).irr 69 ≡ (not (69 == 7) && pending requests 69))
highest_pending-Highest_example =
    highest_pending-Highest apic 7 69 requests-IsValid (omega arith) (omega arith)

highest_of_apic : highest_pending apic ≡ some 225
unfolding highest_pending highest_below zeros_from bit
highest_of_apic = refl

ticks-fires_example :
    (ticks 2 4800 apic ≡ (record apic { current_count = 1000 - 2 * step_of 4800 apic }, none))
    × ((ticks (suc (quiet_calls 4800 apic)) 4800 apic).1 ≡ some (apic.lvt_timer % 2 ^ 8))
    × (pending (ticks (suc (quiet_calls 4800 apic)) 4800 apic).0.irr (apic.lvt_timer % 2 ^ 8)
        ≡ true)
    × ((ticks (suc (quiet_calls 4800 apic)) 4800 apic).0.current_count ≡ reloaded_count apic)
unfolding divisor
ticks-fires_example = ticks-fires 4800 2 apic requests-IsValid refl (omega arith) (omega arith)
