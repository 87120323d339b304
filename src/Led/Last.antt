-- ===== src/Led/Last.antt =====
-- nrf52/src/led.rs: what a sequence of calls leaves lit.
use async_on_embedded.Prelude.{
  ℕ, ◌≡◌, ◌≢◌, refl, ap, ◌∙◌, Bool, true, false, ◌&&◌, not, List, [], ◌∷◌, arith, ◌==◌,
  if◌then◌else◌,
}
use async_on_embedded.Led.{Port, Led, red, green, blue, pin, init, off, on}

pub data Call : Type 0 where
  turned_on turned_off : Led → Call

call : Call → Port → Port
call (turned_on l) p = on l p
call (turned_off l) p = off l p

pub calls : List Call → Port → Port
unfolding call
calls [] p = p
calls (c ∷ cs) p = calls cs (call c p)

abbrev pub is_lit : Led → Port → Bool
is_lit l p = p.is_output (pin l) && not (p.high (pin l))

abbrev pub same : Led → Led → Bool
same l m = pin l == pin m

-- whether the last call for this LED turned it on
abbrev pub last : Led → List Call → Bool → Bool
last l [] before = before
last l (turned_on m ∷ cs) before = last l cs (if same m l then true else before)
last l (turned_off m ∷ cs) before = last l cs (if same m l then false else before)

call-turned_on :
    (l m : Led) (p : Port)
    → p.is_output (pin l) ≡ true
    → is_lit l (call (turned_on m) p) ≡ (if same m l then true else is_lit l p)
unfolding call on
call-turned_on l m p o = ground (arith, o)

call-turned_off :
    (l m : Led) (p : Port)
    → p.is_output (pin l) ≡ true
    → is_lit l (call (turned_off m) p) ≡ (if same m l then false else is_lit l p)
unfolding call off
call-turned_off l m p o = ground (arith, o)

calls-last :
    (cs : List Call) (l : Led) (p : Port)
    → p.is_output (pin l) ≡ true
    → is_lit l (calls cs p) ≡ last l cs (is_lit l p)
unfolding calls call on off
calls-last [] l p o = refl
calls-last (turned_on m ∷ cs) l p o =
    calls-last cs l (on m p) o ∙ ap (last l cs) (call-turned_on l m p o)
calls-last (turned_off m ∷ cs) l p o =
    calls-last cs l (off m p) o ∙ ap (last l cs) (call-turned_off l m p o)

init-is_output : (l : Led) (p : Port) → (init p).is_output (pin l) ≡ true
unfolding init
init-is_output red p = refl
init-is_output green p = refl
init-is_output blue p = refl

init-dark : (l : Led) (p : Port) → is_lit l (init p) ≡ false
unfolding init
init-dark red p = refl
init-dark green p = refl
init-dark blue p = refl

calls_elsewhere :
    (cs : List Call) (n : ℕ) (p : Port) → ((l : Led) → pin l ≢ n) → (calls cs p).high n ≡ p.high n
unfolding calls call on off
calls_elsewhere [] n p other = refl
calls_elsewhere (turned_on m ∷ cs) n p other =
    calls_elsewhere cs n (on m p) other ∙ ground (arith, other m)
calls_elsewhere (turned_off m ∷ cs) n p other =
    calls_elsewhere cs n (off m p) other ∙ ground (arith, other m)

-- After `init`, whatever the port was, and any calls: an LED is lit exactly if the last call for it,
-- if there was one, turned it on. Neither touches the output of a pin that is no LED's.
pub last_call :
    (cs : List Call) (p : Port)
    → ((l : Led) → is_lit l (calls cs (init p)) ≡ last l cs false)
      × ((n : ℕ) → ((l : Led) → pin l ≢ n) → (calls cs (init p)).high n ≡ p.high n)
unfolding init
last_call cs p = (
  λ l. calls-last cs l (init p) (init-is_output l p) ∙ ap (last l cs) (init-dark l p),
  λ n other.
      calls_elsewhere cs n (init p) other ∙ ground (arith, other red, other green, other blue),
)
