-- ===== src/Base/Int.antt =====
-- Signed integers over the native numbers, under the library's names, and how `{}` prints them.
use interpol.Base.{
  ℕ, zero, suc, ◌+◌, ◌-◌, ◌*◌, ◌/◌, ◌%◌, ◌^◌, Bool, false, ◌≤◌, ◌≡◌, ◌≢◌, refl, sym, ap, ◌∙◌, [],
  ◌∷◌, arith, ◌==◌, if◌then◌else◌, Text, All, codes, Bool-cases, inl, inr, drop,
}

-- `negsuc n` is -(n + 1).
pub data ℤ : Type 0 where
  pos : ℕ → ℤ
  negsuc : ℕ → ℤ

infixl 70 ◌*ℤ◌
unfoldable pub ◌*ℤ◌ : ℤ → ℤ → ℤ
pos a *ℤ pos b = pos (a * b)
pos zero *ℤ negsuc b = pos 0
pos (suc a) *ℤ negsuc b = negsuc (suc a * suc b - 1)
negsuc a *ℤ pos zero = pos 0
negsuc a *ℤ pos (suc b) = negsuc (suc a * suc b - 1)
negsuc a *ℤ negsuc b = pos (suc a * suc b)

-- The conversion to `uint32_t`.
unfoldable pub to_u32 : ℤ → ℕ
to_u32 (pos n) = n % 2 ^ 32
to_u32 (negsuc n) = 2 ^ 32 - 1 - n % 2 ^ 32

abbrev pub is_zero : ℤ → Bool
is_zero (pos n) = n == 0
is_zero (negsuc n) = false

-- The decimal digits of `n` in front of `out`; each round divides by ten.
unfoldable pub digits : ℕ → ℕ → Text → Text
digits zero n out = out
digits (suc fuel) n out =
    let rest = digits fuel (n / 10) ((b'0' + n % 10) ∷ out) in if n == 0 then out else rest

unfoldable pub decimal : ℕ → Text
unfolding digits
decimal n = if n == 0 then b'0' ∷ [] else digits n n []

-- `{}` on an `i32`.
unfoldable pub show_int : ℤ → Text
unfolding decimal
show_int (pos n) = decimal n
show_int (negsuc n) = b'-' ∷ decimal (suc n)

-- What a text of digits stands for, after digits worth `acc`.
value : ℕ → Text → ℕ
value acc [] = acc
value acc (c ∷ s) = value (acc * 10 + (c - b'0')) s

-- With fuel of at least `n`, the digits of `n` read back as `n`, and none of them is a sign.
value-digits : (fuel n : ℕ) (out : Text) → n ≤ fuel → value 0 (digits fuel n out) ≡ value n out
unfolding value digits
value-digits zero n out h = ap (λ k. value k out) (omega arith)
value-digits (suc fuel) n out h = elim (Bool-cases (n == 0)) [
  | inl done ↦ rw done (ap (λ k. value k out) (ground arith))
  | inr more ↦ rw more (
      value-digits fuel (n / 10) ((b'0' + n % 10) ∷ out) (ground arith)
      ∙ ap (λ k. value k out) (omega arith))
]

digits-All :
    (fuel n : ℕ) (out : Text) → All (λ c. b'0' ≤ c) out → All (λ c. b'0' ≤ c) (digits fuel n out)
unfolding digits
digits-All zero n out h = h
digits-All (suc fuel) n out h = ground (arith, digits-All fuel (n / 10) ((b'0' + n % 10) ∷ out))

value-decimal : (n : ℕ) → value 0 (decimal n) ≡ n
unfolding value decimal
value-decimal n = ground (arith, value-digits n n [])

decimal-All : (n : ℕ) → All (λ c. b'0' ≤ c) (decimal n)
unfolding decimal
decimal-All n = ground (arith, digits-All n n [])

decimal-ne-minus : (n : ℕ) (s : Text) → decimal n ≢ b'-' ∷ s
decimal-ne-minus n s e = absurd (omega (arith, (rw e at (decimal-All n)).0))

-- No two integers are printed alike.
pub show_int-injective : (a b : ℤ) → show_int a ≡ show_int b → a ≡ b
unfolding show_int
show_int-injective (pos n) (pos m) e =
    ap pos (sym (value-decimal n) ∙ ap (value 0) e ∙ value-decimal m)
show_int-injective (pos n) (negsuc m) e = absurd (decimal-ne-minus n _ e)
show_int-injective (negsuc n) (pos m) e = absurd (decimal-ne-minus m _ (sym e))
show_int-injective (negsuc n) (negsuc m) e =
    ground (arith, value-decimal (suc n), value-decimal (suc m), ap (λ t. value 0 (drop 1 t)) e)

show_int_max : show_int (pos 2147483647) ≡ codes "2147483647"
unfolding show_int
show_int_max = refl

show_int_minus : show_int (negsuc 0) ≡ codes "-1"
unfolding show_int
show_int_minus = refl
