-- ===== src/Text/Decimal.antt =====
-- strconv.Itoa: what is printed can be read back, so that two numbers print differently.
use Prim.Native.Char.{code}
use Prim.Native.String.{char_at}
use exnode.Base.{
  ltb→lt, ltb→le, ℕ, zero, suc, ◌+◌, ◌-◌, ◌*◌, ◌/◌, ◌%◌, ◌<◌, String, ◌≡◌, refl, sym, ap, ◌∙◌, ltb,
  Bool-cases, inl, inr, arith,
}
use exnode.Text.{digits, format_nat}

-- The value of the digits of a text, from the number read so far.
abbrev pub value_from : ℕ → String → ℕ
value_from n String.[] = n
value_from n (String.◌∷◌ c s) = value_from (n * 10 + (code c - 48)) s

pub digit : (k : ℕ) → k < 10 → code (char_at "0123456789" k) ≡ 48 + k
digit zero h = refl
digit (suc zero) h = refl
digit (suc (suc zero)) h = refl
digit (suc (suc (suc zero))) h = refl
digit (suc (suc (suc (suc zero)))) h = refl
digit (suc (suc (suc (suc (suc zero))))) h = refl
digit (suc (suc (suc (suc (suc (suc zero)))))) h = refl
digit (suc (suc (suc (suc (suc (suc (suc zero))))))) h = refl
digit (suc (suc (suc (suc (suc (suc (suc (suc zero)))))))) h = refl
digit (suc (suc (suc (suc (suc (suc (suc (suc (suc zero))))))))) h = refl
digit (suc (suc (suc (suc (suc (suc (suc (suc (suc (suc k)))))))))) h = omega arith

-- One more digit than steps are needed.
value-digits :
    (fuel n : ℕ) (out : String) → n < fuel → value_from 0 (digits fuel n out) ≡ value_from n out
unfolding digits
value-digits zero n out h = omega arith
value-digits (suc fuel) n out h =
    let d = digit (n % 10) (omega arith) in
    elim (Bool-cases (ltb n 10)) [
      | inl last ↦
          let below = ltb→lt n 10 last in rw last (ap (λ k. value_from k out) (omega arith))
      | inr more ↦
          let above = ltb→le n 10 more in
          rw more
            (value-digits fuel (n / 10) _ (omega arith) ∙ ap (λ k. value_from k out) (omega arith))
    ]

-- The digits of a number have its value.
pub value-format_nat : (n : ℕ) → value_from 0 (format_nat n) ≡ n
unfolding format_nat
value-format_nat n = value-digits (suc n) n "" (omega arith)

pub format_nat_inj : (m n : ℕ) → format_nat m ≡ format_nat n → m ≡ n
format_nat_inj m n h = sym (value-format_nat m) ∙ ap (value_from 0) h ∙ value-format_nat n
