-- ===== src/Validate/Decimal.antt =====
-- validate.go, `itoa`: the digits read back as the number.
use leadflow_v3_server.Base.{
  ℕ, zero, suc, ◌+◌, ◌-◌, ◌*◌, ◌/◌, ◌%◌, ◌<◌, ◌≤◌, true, false, List, [], ◌∷◌, ◌≡◌, refl, sym, ap,
  ◌∙◌, eqb, eqb→eq, All, ℤ, pos, negsuc, some, Bool-cases, inl, inr, arith, if◌then◌else◌, subst,
  Option,
}
use leadflow_v3_server.Validate.{write_digits, write_sign, without_sign, itoa}

-- 10 to the power `n`.
abbrev pub tens : ℕ → ℕ
tens zero = 1
tens (suc n) = 10 * tens n

-- Decimal digits, behind those that are worth `a`.
abbrev pub value_of : ℕ → List ℕ → ℕ
value_of a [] = a
value_of a (d ∷ ds) = value_of (10 * a + (d - b'0')) ds

abbrev pub negated : ℕ → ℤ
negated zero = pos zero
negated (suc n) = negsuc n

abbrev pub read_int : List ℕ → ℤ
read_int [] = pos zero
read_int (c ∷ ds) = if eqb c b'-' then negated (value_of 0 ds) else pos (value_of 0 (c ∷ ds))

abbrev pub unsigned : List ℕ → List ℕ
unsigned [] = []
unsigned (c ∷ ds) = if eqb c b'-' then ds else c ∷ ds

abbrev pub IsDecimal : ℕ → Type 0
IsDecimal d = (b'0' ≤ d) × (d ≤ b'9')

abbrev pub IsPlain : List ℕ → Type 0
IsPlain [] = ⊥
IsPlain (d ∷ []) = Unit
IsPlain (d ∷ (e ∷ ds)) = b'0' < d

-- One decimal digit or more, the first of several not being a zero.
abbrev pub IsNumeral : List ℕ → Type 0
IsNumeral ds = All IsDecimal ds × IsPlain ds

abbrev IsLed : List ℕ → Type 0
IsLed [] = ⊥
IsLed (d ∷ ds) = b'0' < d

led-IsPlain : (ds : List ℕ) → IsLed ds → IsPlain ds
led-IsPlain [] l = l
led-IsPlain (d ∷ []) l = tt
led-IsPlain (d ∷ (e ∷ ds)) l = l

-- What the loop leaves: the room, and the digits.
record Written (room r n : ℕ) (b : List ℕ) : Type 0 where
  left : ℕ
  digits : List ℕ
  written : write_digits room n b ≡ some (left, digits)
  roomy : room ≤ left + r
  worth : value_of 0 digits ≡ value_of n b
  are_digits : All IsDecimal digits
  led : IsLed digits

-- The digits so far, when none is left to write.
stop :
    (room r n : ℕ) (b : List ℕ)
    → write_digits room n b ≡ some (room, b)
    → n ≡ 0
    → All IsDecimal b
    → (n ≡ 0 → IsLed b)
    → Written room r n b
stop room r n b w e a l = record {
  left = room;
  digits = b;
  written = w;
  roomy = omega arith;
  worth = ap (λ m. value_of m b) (sym e);
  are_digits = a;
  led = l e;
}

write_digits-Written :
    (room r n : ℕ) (b : List ℕ)
    → r ≤ room
    → n < tens r
    → All IsDecimal b
    → (n ≡ 0 → IsLed b)
    → Written room r n b
unfolding write_digits
write_digits-Written zero zero n b h k a l =
    let e : eqb n 0 ≡ true = ground arith in stop zero zero n b (rw e refl) (eqb→eq n 0 e) a l
write_digits-Written zero (suc r) n b h k a l = absurd (omega arith)
write_digits-Written (suc room) zero n b h k a l =
    let e : eqb n 0 ≡ true = ground arith in stop (suc room) zero n b (rw e refl) (eqb→eq n 0 e) a l
write_digits-Written (suc room) (suc r) n b h k a l = elim (Bool-cases (eqb n 0)) [
  | inl e ↦ stop (suc room) (suc r) n b (rw e refl) (eqb→eq n 0 e) a l
  | inr e ↦
      let w =
        write_digits-Written room r (n / 10) ((b'0' + n % 10) ∷ b) (omega arith) (omega arith)
          ((omega arith, omega arith), a) (λ q. ground arith) in
      record {
        left = w.left;
        digits = w.digits;
        written = rw e w.written;
        roomy = omega (arith, w.roomy);
        worth = w.worth ∙ ap (λ m. value_of m b) (omega arith);
        are_digits = w.are_digits;
        led = w.led;
      }
]

-- The twelve bytes hold twelve digits, or a sign and eleven.
abbrev pub Fits : ℤ → Type 0
Fits (pos n) = n < tens 12
Fits (negsuc n) = suc n < tens 11

-- A decimal text that reads as the number.
abbrev pub IsDecimalOf : ℤ → Option (List ℕ) → Type 0
IsDecimalOf z o = (s : List ℕ) × ((o ≡ some s) × (read_int s ≡ z) × IsNumeral (unsigned s))

read_digits :
    (ds : List ℕ) → All IsDecimal ds → (read_int ds ≡ pos (value_of 0 ds)) × (unsigned ds ≡ ds)
read_digits [] a = (refl, refl)
read_digits (c ∷ ds) a = let e : eqb c b'-' ≡ false = ground (arith, a.0) in rw e (refl, refl)

-- The text that `itoa` writes for a number of at most twelve digits, or a negative number of at most eleven,
-- is decimal: behind a possible minus sign there are only digits, one at least, without a leading zero. It
-- reads back as the number, and there is no panic.
pub itoa-read_int : (z : ℤ) → Fits z → IsDecimalOf z (itoa z)
unfolding itoa
itoa-read_int (pos zero) h = (_, (refl, refl, (((omega arith, omega arith), tt), tt)))
itoa-read_int (pos (suc n)) h =
    let w = write_digits-Written 12 12 (suc n) [] (omega arith) h tt (λ e. omega arith) in
    let read = read_digits w.digits w.are_digits in
    (
      w.digits,
      (
        ap without_sign w.written,
        read.0 ∙ ap (λ m. pos m) w.worth,
        subst IsNumeral (sym read.1) (w.are_digits, led-IsPlain w.digits w.led),
      ),
    )
itoa-read_int (negsuc n) h =
    signed (write_digits-Written 12 11 (suc n) [] (omega arith) h tt (λ e. omega arith))
  where
    signed :
        Written 12 11 (suc n) [] → IsDecimalOf (negsuc n) (write_sign (write_digits 12 (suc n) []))
    signed w =
        elim w.left
            as (λ left.
              write_digits 12 (suc n) [] ≡ some (left, w.digits)
              → 12 ≤ left + 11
              → IsDecimalOf (negsuc n) (write_sign (write_digits 12 (suc n) []))) [
                | zero ↦ λ e r. absurd (omega arith)
                | suc left ↦ λ e r. (
                  b'-' ∷ w.digits,
                  (ap write_sign e, ap negated w.worth, (w.are_digits, led-IsPlain w.digits w.led)),
                )
              ]
          w.written w.roomy
