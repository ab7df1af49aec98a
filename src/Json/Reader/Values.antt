-- ===== src/Json/Reader/Values.antt =====
-- The values of the fields are read back.
use interpol.Builder.{Setting}
use interpol.Base.{
  codes, String, ℕ, zero, suc, ◌+◌, ◌/◌, ◌%◌, ◌≤◌, ◌<◌, Bool, true, false, ◌≡◌, refl, ap, Text, [],
  ◌∷◌, ◌++◌, some, none, ◌==◌, arith, Bool-cases, inl, inr,
}
use interpol.Base.Int.{ℤ, pos, negsuc, digits, decimal, show_int}
use interpol.Types.{MpiOp}
use interpol.Json.Format.{bool_text, quoted, op_name}
use interpol.Json.Reader.{
  IsEnd, is_digit, more_digits, read_nat, read_int, read_bool, read_op, read_member, Reader, strip,
}

pub IsEnd→not_digit : (c : ℕ) → IsEnd c → is_digit c ≡ false
IsEnd→not_digit c (inl h) = ground arith
IsEnd→not_digit c (inr h) = ground arith

digits-append :
    (fuel n : ℕ) (out rest : Text) → digits fuel n out ++ rest ≡ digits fuel n (out ++ rest)
unfolding digits
digits-append zero n out rest = refl
digits-append (suc fuel) n out rest =
    ground (arith, digits-append fuel (n / 10) ((b'0' + n % 10) ∷ out) rest)

digits_zero : (fuel : ℕ) (out : Text) → digits fuel 0 out ≡ out
unfolding digits
digits_zero zero out = refl
digits_zero (suc fuel) out = refl

the_zero : (n : ℕ) → (n / 10 == 0) ≡ true → n / 10 ≡ 0
the_zero n h = ground arith

-- The digits of a positive number in front of a text.
read_nat-digits :
    (fuel n : ℕ) (out : Text)
    → 0 < n
    → n ≤ fuel
    → read_nat (digits fuel n out) ≡ some (more_digits n out)
unfolding read_nat digits more_digits
read_nat-digits zero n out pos_n h = absurd (omega arith)
read_nat-digits (suc fuel) n out pos_n h = elim (Bool-cases (n / 10 == 0)) [
  | inl last ↦ ground (
    arith,
    digits_zero fuel ((b'0' + n % 10) ∷ out),
    ap (λ k. digits fuel k ((b'0' + n % 10) ∷ out)) (the_zero n last),
  )
  | inr more ↦ ground (arith, read_nat-digits fuel (n / 10) ((b'0' + n % 10) ∷ out))
]

more_digits_end :
    (n c : ℕ) (rest : Text) → is_digit c ≡ false → more_digits n (c ∷ rest) ≡ (n, c ∷ rest)
unfolding more_digits
more_digits_end n c rest h = rw h

pub read_nat-decimal :
    (n c : ℕ) (rest : Text)
    → is_digit c ≡ false
    → read_nat (decimal n ++ c ∷ rest) ≡ some (n, c ∷ rest)
unfolding decimal read_nat
read_nat-decimal n c rest h = ground (
  arith,
  digits-append n n [] (c ∷ rest),
  read_nat-digits n n (c ∷ rest),
  more_digits_end n c rest h,
)

read_nat-minus : (t : Text) → read_nat (b'-' ∷ t) ≡ none
unfolding read_nat
read_nat-minus t = refl

pub read_int-show_int :
    (n : ℤ) (c : ℕ) (rest : Text)
    → is_digit c ≡ false
    → read_int (show_int n ++ c ∷ rest) ≡ some (n, c ∷ rest)
unfolding read_int show_int strip
read_int-show_int (pos n) c rest h = ground (arith, read_nat-decimal n c rest h)
read_int-show_int (negsuc n) c rest h =
    ground (arith, read_nat-minus (decimal (suc n) ++ c ∷ rest), read_nat-decimal (suc n) c rest h)

pub read_bool-bool_text :
    (b : Bool) (rest : Text) → read_bool (bool_text b ++ rest) ≡ some (b, rest)
unfolding read_bool
read_bool-bool_text true rest = refl
read_bool-bool_text false rest = refl

pub read_op-op_name :
    (op : MpiOp) (rest : Text) → read_op (quoted (op_name op) rest) ≡ some (op, rest)
unfolding read_op
read_op-op_name MpiOp.opnull rest = refl
read_op-op_name MpiOp.max rest = refl
read_op-op_name MpiOp.min rest = refl
read_op-op_name MpiOp.sum rest = refl
read_op-op_name MpiOp.prod rest = refl
read_op-op_name MpiOp.land rest = refl
read_op-op_name MpiOp.band rest = refl
read_op-op_name MpiOp.lor rest = refl
read_op-op_name MpiOp.bor rest = refl
read_op-op_name MpiOp.lxor rest = refl
read_op-op_name MpiOp.bxor rest = refl
read_op-op_name MpiOp.minloc rest = refl
read_op-op_name MpiOp.maxloc rest = refl
read_op-op_name MpiOp.replace rest = refl

-- The same text at the front of both.
strip_same : (p q t : Text) → strip (p ++ q) (p ++ t) ≡ strip q t
unfolding strip
strip_same [] q t = refl
strip_same (c ∷ p) q t = ground (arith, strip_same p q t)

-- A field whose value is read back.
pub read_member-quoted :
    {A : Type 0} (name : String) (setting : A → Setting) (read : Reader A) (v : A) (t rest : Text)
    → read t ≡ some (v, rest)
    → read_member name setting read (quoted (codes name) (b':' ∷ t)) ≡ some (setting v, rest)
unfolding read_member strip
read_member-quoted name setting read v t rest h =
    rw (strip_same (codes name) (b'"' ∷ b':' ∷ []) (b'"' ∷ b':' ∷ t), h)

module _ (name : String) (c : ℕ) (rest : Text) (end : IsEnd c) where
  pub int_member :
      (setting : ℤ → Setting) (v : ℤ)
      → read_member name setting read_int (quoted (codes name) (b':' ∷ (show_int v ++ c ∷ rest)))
        ≡ some (setting v, c ∷ rest)
  int_member setting v =
      read_member-quoted name setting read_int v (show_int v ++ c ∷ rest) (c ∷ rest)
        (read_int-show_int v c rest (IsEnd→not_digit c end))

  pub nat_member :
      (setting : ℕ → Setting) (v : ℕ)
      → read_member name setting read_nat (quoted (codes name) (b':' ∷ (decimal v ++ c ∷ rest)))
        ≡ some (setting v, c ∷ rest)
  nat_member setting v =
      read_member-quoted name setting read_nat v (decimal v ++ c ∷ rest) (c ∷ rest)
        (read_nat-decimal v c rest (IsEnd→not_digit c end))

  pub bool_member :
      (setting : Bool → Setting) (v : Bool)
      → read_member name setting read_bool (quoted (codes name) (b':' ∷ (bool_text v ++ c ∷ rest)))
        ≡ some (setting v, c ∷ rest)
  bool_member setting v =
      read_member-quoted name setting read_bool v (bool_text v ++ c ∷ rest) (c ∷ rest)
        (read_bool-bool_text v (c ∷ rest))

  pub op_member :
      (setting : MpiOp → Setting) (v : MpiOp)
      → read_member name setting read_op
          (quoted (codes name) (b':' ∷ quoted (op_name v) (c ∷ rest)))
        ≡ some (setting v, c ∷ rest)
  op_member setting v =
      read_member-quoted name setting read_op v (quoted (op_name v) (c ∷ rest)) (c ∷ rest)
        (read_op-op_name v (c ∷ rest))
