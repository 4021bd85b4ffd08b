-- ===== src/Tests/Transport.antt =====
-- A decimal that goes to the external engine.
use agentic_quant.Prelude.Int.{pos, negsuc}
use agentic_quant.Prelude.{◌≡◌, ◌↔◌, refl, false}
use agentic_quant.Prelude.Result.{ok}
use agentic_quant.LeanDecimal.Representable.{Representable, decimal_bits_iff}
use agentic_quant.LeanDecimal.{
  DecimalTuple, Words, SameValue, strip, signed_word, fit_words, scaled_bits, decimal_bits,
  decimal_bits_back,
}

-- `Decimal("42949672.960")`
sent : DecimalTuple
sent = record { negative = false; coefficient = 42_949_672_960; exponent = negsuc 2 }

expected : Words
expected = record { low = pos 0; middle = pos 1; high = pos 0; negative = false; scale = 2 }

sent_words : decimal_bits sent ≡ ok expected
unfolding sent expected decimal_bits scaled_bits strip fit_words signed_word
sent_words = refl

decimal_bits_back_example : SameValue sent expected
decimal_bits_back_example = decimal_bits_back sent expected sent_words

decimal_bits_iff_example : ((w : Words) × (decimal_bits sent ≡ ok w)) ↔ Representable sent
decimal_bits_iff_example = decimal_bits_iff sent
