-- ===== src/Connector/Names.antt =====
-- Generated table names fit the limits of the engines.
use Prim.Native.String.{count}
use Prim.Native.String.{◌++◌ as text_append}
use text.Mathlib.TextLemmas.{append_cancel_right, length-append, length-nil, length-cons}
use holypipe.Prelude.{◌∙◌, ℕ, zero, suc, ◌+◌, ◌-◌, ◌≤◌, ◌<◌, ◌≡◌, refl, sym, ap, String, arith, max}
use holypipe.Connector.{take_chars, bounded_name}

count-take_chars-le : (n : ℕ) (s : String) → count (take_chars n s) ≤ n
unfolding take_chars
count-take_chars-le zero s = omega (arith, length-nil)
count-take_chars-le (suc n) String.[] = omega (arith, length-nil)
count-take_chars-le (suc n) (String.◌∷◌ c s) =
    omega (arith, length-cons c (take_chars n s), count-take_chars-le n s)

take_chars_short : (n : ℕ) (s : String) → count s ≤ n → take_chars n s ≡ s
unfolding take_chars
take_chars_short zero String.[] h = refl
take_chars_short zero (String.◌∷◌ c s) h = absurd (omega (arith, length-cons c s))
take_chars_short (suc n) String.[] h = refl
take_chars_short (suc n) (String.◌∷◌ c s) h =
    ap (String.◌∷◌ c) (take_chars_short n s (omega (arith, length-cons c s)))

-- With a suffix shorter than the limit, a bounded name keeps the limit.
pub count-bounded_name-le :
    (base suffix : String) (limit : ℕ)
    → count suffix < limit
    → count (bounded_name base suffix limit) ≤ limit
unfolding bounded_name
count-bounded_name-le base suffix limit h = omega (
  arith,
  length-append (take_chars (max (limit - count suffix) 1) base) suffix,
  count-take_chars-le (max (limit - count suffix) 1) base,
)

-- A base that fits beside the suffix is not cut, so that such tables have shadow tables of
-- different names.
bounded_name_injective :
    (base other suffix : String) (limit : ℕ)
    → count base + count suffix ≤ limit
    → count other + count suffix ≤ limit
    → bounded_name base suffix limit ≡ bounded_name other suffix limit
    → base ≡ other
unfolding bounded_name
bounded_name_injective base other suffix limit fits also e = append_cancel_right base other suffix (
    ap (λ b. text_append b suffix) (sym (take_chars_short _ base (omega arith)))
    ∙ e
    ∙ ap (λ b. text_append b suffix) (take_chars_short _ other (omega arith)))
