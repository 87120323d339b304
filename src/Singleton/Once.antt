-- ===== src/Singleton/Once.antt =====
-- nrf52/src/timer.rs, nrf52/src/twim.rs and nrf52/src/serial.rs: when `take` panics.
use async_on_embedded.Prelude.{
  refl, none, some, if◌then◌else◌, arith, ◌≡◌, ◌||◌, is_some, Bool, true, false, ◌&&◌, not, List,
  [], ◌∷◌,
}
use async_on_embedded.Singleton.{
  take_serial, take_twim, take_timer, take_all, free, Taken, take, Device,
}

abbrev pub same : Device → Device → Bool
same Device.timer Device.timer = true
same Device.timer Device.twim = false
same Device.timer Device.serial = false
same Device.twim Device.timer = false
same Device.twim Device.twim = true
same Device.twim Device.serial = false
same Device.serial Device.timer = false
same Device.serial Device.twim = false
same Device.serial Device.serial = true

-- whether some call is for this device
abbrev pub asked : Device → List (Device × Bool) → Bool
asked d [] = false
asked d ((e, spurious) ∷ calls) = same e d || asked d calls

-- no two calls for one device, and none that fails spuriously
abbrev pub distinct : List (Device × Bool) → Bool
distinct [] = true
distinct ((d, spurious) ∷ calls) = not (asked d calls) && distinct calls

abbrev pub reliable : List (Device × Bool) → Bool
reliable [] = true
reliable ((d, spurious) ∷ calls) = not spurious && reliable calls

abbrev flag : Device → Taken → Bool
flag Device.timer s = s.timer
flag Device.twim s = s.twim
flag Device.serial s = s.serial

abbrev set : Device → Taken → Taken
set Device.timer s = record s { timer = true }
set Device.twim s = record s { twim = true }
set Device.serial s = record s { serial = true }

take-set :
    (d : Device) (spurious : Bool) (s : Taken)
    → take d spurious s ≡ (if not (flag d s) && not spurious then some (set d s) else none)
unfolding take take_timer take_twim take_serial
take-set Device.timer spurious s = ground arith
take-set Device.twim spurious s = ground arith
take-set Device.serial spurious s = ground arith

flag-set : (d e : Device) (s : Taken) → flag d (set e s) ≡ (same e d || flag d s)
flag-set Device.timer Device.timer s = refl
flag-set Device.timer Device.twim s = refl
flag-set Device.timer Device.serial s = refl
flag-set Device.twim Device.timer s = refl
flag-set Device.twim Device.twim s = refl
flag-set Device.twim Device.serial s = refl
flag-set Device.serial Device.timer s = refl
flag-set Device.serial Device.twim s = refl
flag-set Device.serial Device.serial s = refl

-- no call is for a device whose flag is set
abbrev unclaimed : List (Device × Bool) → Taken → Bool
unclaimed [] s = true
unclaimed ((d, spurious) ∷ calls) s = not (flag d s) && unclaimed calls s

same_comm : (d e : Device) → same d e ≡ same e d
same_comm Device.timer Device.timer = refl
same_comm Device.timer Device.twim = refl
same_comm Device.timer Device.serial = refl
same_comm Device.twim Device.timer = refl
same_comm Device.twim Device.twim = refl
same_comm Device.twim Device.serial = refl
same_comm Device.serial Device.timer = refl
same_comm Device.serial Device.twim = refl
same_comm Device.serial Device.serial = refl

unclaimed-set :
    (calls : List (Device × Bool)) (d : Device) (s : Taken)
    → unclaimed calls (set d s) ≡ (not (asked d calls) && unclaimed calls s)
unclaimed-set [] d s = refl
unclaimed-set ((e, spurious) ∷ calls) d s =
    ground (arith, flag-set e d s, same_comm d e, unclaimed-set calls d s)

take_all-fine :
    (calls : List (Device × Bool)) (s : Taken)
    → is_some (take_all calls s) ≡ (reliable calls && distinct calls && unclaimed calls s)
unfolding take_all
take_all-fine [] s = refl
take_all-fine ((d, spurious) ∷ calls) s =
    ground (arith, take-set d spurious s, take_all-fine calls (set d s), unclaimed-set calls d s)

unclaimed-free : (calls : List (Device × Bool)) → unclaimed calls free ≡ true
unfolding free
unclaimed-free [] = refl
unclaimed-free ((Device.timer, spurious) ∷ calls) = unclaimed-free calls
unclaimed-free ((Device.twim, spurious) ∷ calls) = unclaimed-free calls
unclaimed-free ((Device.serial, spurious) ∷ calls) = unclaimed-free calls

-- A program whose flags are new gets through any calls of the three `take` functions exactly if no
-- exchange fails spuriously and no device is taken twice; otherwise it panics.
pub take_all_iff :
    (calls : List (Device × Bool))
    → is_some (take_all calls free) ≡ (reliable calls && distinct calls)
take_all_iff calls = ground (arith, take_all-fine calls free, unclaimed-free calls)
