-- ===== src/Strconv/RoundTrip.antt =====
-- Reading back the text of a number gives the number.
use Prim.Native.Char.{code}
use Prim.Native.String.{◌++◌}
use text.Mathlib.TextLemmas.{cons-append, nil-append, append-ne-nil_of_right_ne-nil, cons≢nil}
use uptime_robot_operator.Prelude.{
  ℕ, zero, suc, ◌+◌, ◌-◌, ◌*◌, ◌/◌, ◌%◌, ◌^◌, ◌<◌, ◌≡◌, ◌≢◌, refl, ◌∙◌, ap, String, Option, none,
  some, arith, ltb, leb, ◌&&◌, ◌==◌, true, false, same_text_iff, Bool-cases, inl, inr, lt→ltb,
  ltb→lt,
}
use uptime_robot_operator.Text.{is_blank}
use uptime_robot_operator.Prelude.Int.{ℤ, pos, negsuc}
use uptime_robot_operator.Strconv.{digits, unsigned, atoi, digit, decimal, itoa, positive, negative}

-- a 64-bit int
abbrev pub InRange : ℤ → Type 0
InRange (pos n) = n < 2 ^ 63
InRange (negsuc n) = n < 2 ^ 63

none≢some : (n : ℕ) → ◌≢◌ {A = Option ℕ} none (some n)
none≢some n e = cc

-- one more digit at the end
digits-digit : (d acc : ℕ) → d < 10 → digits acc (digit d) ≡ some (acc * 10 + d)
unfolding digits digit
digits-digit zero acc h = ground arith
digits-digit (suc zero) acc h = ground arith
digits-digit (suc (suc zero)) acc h = ground arith
digits-digit (suc (suc (suc zero))) acc h = ground arith
digits-digit (suc (suc (suc (suc zero)))) acc h = ground arith
digits-digit (suc (suc (suc (suc (suc zero))))) acc h = ground arith
digits-digit (suc (suc (suc (suc (suc (suc zero)))))) acc h = ground arith
digits-digit (suc (suc (suc (suc (suc (suc (suc zero))))))) acc h = ground arith
digits-digit (suc (suc (suc (suc (suc (suc (suc (suc zero)))))))) acc h = ground arith
digits-digit (suc (suc (suc (suc (suc (suc (suc (suc (suc zero))))))))) acc h = ground arith
digits-digit (suc (suc (suc (suc (suc (suc (suc (suc (suc (suc d)))))))))) acc h =
    absurd (omega arith)

digits-append :
    (s t : String) (acc n : ℕ) → digits acc s ≡ some n → digits acc (s ++ t) ≡ digits n t
unfolding digits
digits-append String.[] t acc n h = rw (nil-append t) (ground arith)
digits-append (String.◌∷◌ c s) t acc n h =
    rw (cons-append c s t) (elim (Bool-cases (leb 48 (code c) && leb (code c) 57)) [
      | inl e ↦ rw e (digits-append s t (acc * 10 + (code c - 48)) n (rw e at h))
      | inr e ↦ absurd (none≢some _ (rw e at h))
    ])

digits-decimal : (fuel n : ℕ) → n < fuel → digits 0 (decimal fuel n) ≡ some n
unfolding decimal
digits-decimal zero n h = absurd (omega arith)
digits-decimal (suc fuel) n h = elim (Bool-cases (ltb n 10)) [
  | inl small ↦ rw small (digits-digit n 0 (ltb→lt n 10 small) ∙ ap some (omega arith))
  | inr large ↦ rw large (
      digits-append (decimal fuel (n / 10)) (digit (n % 10)) 0 (n / 10)
        (digits-decimal fuel (n / 10) (ground arith))
      ∙ digits-digit (n % 10) (n / 10) (omega arith)
      ∙ ap some (omega arith))
]

digit_nonempty : (n : ℕ) → digit n ≢ ""
unfolding digit
digit_nonempty zero e = cons≢nil e
digit_nonempty (suc zero) e = cons≢nil e
digit_nonempty (suc (suc zero)) e = cons≢nil e
digit_nonempty (suc (suc (suc zero))) e = cons≢nil e
digit_nonempty (suc (suc (suc (suc zero)))) e = cons≢nil e
digit_nonempty (suc (suc (suc (suc (suc zero))))) e = cons≢nil e
digit_nonempty (suc (suc (suc (suc (suc (suc zero)))))) e = cons≢nil e
digit_nonempty (suc (suc (suc (suc (suc (suc (suc zero))))))) e = cons≢nil e
digit_nonempty (suc (suc (suc (suc (suc (suc (suc (suc zero)))))))) e = cons≢nil e
digit_nonempty (suc (suc (suc (suc (suc (suc (suc (suc (suc n))))))))) e = cons≢nil e

decimal_nonempty : (fuel n : ℕ) → decimal (suc fuel) n ≢ ""
unfolding decimal
decimal_nonempty fuel n = elim (Bool-cases (ltb n 10)) [
  | inl small ↦ rw small (digit_nonempty n)
  | inr large ↦ rw large (append-ne-nil_of_right_ne-nil _ (digit_nonempty (n % 10)))
]

unsigned_of_digits : (s : String) → s ≢ "" → unsigned s ≡ digits 0 s
unfolding unsigned
unsigned_of_digits String.[] h = absurd (h refl)
unsigned_of_digits (String.◌∷◌ c s) h = refl

-- a digit is no sign
no_sign : (c : ℕ) → (leb 48 c && leb c 57) ≡ true → ((c == b'+') ≡ false) × ((c == b'-') ≡ false)
no_sign c h = ground arith

positive_in_range : (o : Option ℕ) (n : ℕ) → o ≡ some n → n < 2 ^ 63 → positive o ≡ some (pos n)
positive_in_range o n e b = rw e (rw (lt→ltb n _ b))

negative_in_range :
    (o : Option ℕ) (n : ℕ) → o ≡ some (suc n) → n < 2 ^ 63 → negative o ≡ some (negsuc n)
negative_in_range o n e b = rw e (rw (lt→ltb n _ b))

atoi_of_digits :
    (s : String) (n : ℕ) → s ≢ "" → digits 0 s ≡ some n → n < 2 ^ 63 → atoi s ≡ some (pos n)
unfolding atoi
atoi_of_digits String.[] n h e b = absurd (h refl)
atoi_of_digits (String.◌∷◌ c s) n h e b = elim (Bool-cases (leb 48 (code c) && leb (code c) 57)) [
  | inl d ↦ rw (no_sign (code c) d).0 (
      rw (no_sign (code c) d).1
        (positive_in_range _ n (unsigned_of_digits (String.◌∷◌ c s) h ∙ e) b))
  | inr d ↦ absurd (none≢some _ (unfold digits in rw d at e))
]

atoi_of_minus :
    (s : String) (n : ℕ)
    → s ≢ ""
    → digits 0 s ≡ some (suc n)
    → n < 2 ^ 63
    → atoi ("-" ++ s) ≡ some (negsuc n)
atoi_of_minus s n h e b =
    rw (cons-append _ "" s)
      (rw (nil-append s) (unfold atoi in negative_in_range _ n (unsigned_of_digits s h ∙ e) b))

-- Atoi reads back every int that Itoa has written.
pub atoi-itoa : (i : ℤ) → InRange i → atoi (itoa i) ≡ some i
unfolding itoa
atoi-itoa (pos n) h =
    atoi_of_digits (decimal (suc n) n) n (decimal_nonempty n n)
      (digits-decimal (suc n) n (omega arith)) h
atoi-itoa (negsuc n) h =
    atoi_of_minus (decimal (suc (suc n)) (suc n)) n (decimal_nonempty (suc n) (suc n))
      (digits-decimal (suc (suc n)) (suc n) (omega arith)) h

not_blank : (s : String) → s ≢ "" → is_blank s ≡ false
not_blank s h = ground (arith, same_text_iff s "", h)

minus-ne-blank : (s : String) → is_blank ("-" ++ s) ≡ false
minus-ne-blank s = rw (cons-append _ "" s) (not_blank _ (λ e. cons≢nil e))

-- Itoa never writes the empty text.
pub itoa-ne-blank : (i : ℤ) → is_blank (itoa i) ≡ false
unfolding itoa
itoa-ne-blank (pos n) = not_blank (decimal (suc n) n) (decimal_nonempty n n)
itoa-ne-blank (negsuc n) = minus-ne-blank (decimal (suc (suc n)) (suc n))
