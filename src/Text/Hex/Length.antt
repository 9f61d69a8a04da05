-- ===== src/Text/Hex/Length.antt =====
-- The length of an encoded text.
use Prim.Native.Char.{len_utf8}
use Prim.Native.String
use Prim.Native.String.len
use hwcontrol.Base.{
  ℕ, zero, suc, ◌*◌, ◌/◌, ◌%◌, ◌<◌, true, ◌≡◌, refl, ◌∙◌, List, [], ◌∷◌, arith, ltb, both, length,
  ltb→lt,
}
use hwcontrol.Text.Hex.{digit, encode}
use hwcontrol.Text.Hex.Laws.{are_bytes}

len_utf8-digit : (n : ℕ) → n < 16 → len_utf8 (digit n) ≡ 1
unfolding digit
len_utf8-digit zero h = refl
len_utf8-digit (suc zero) h = refl
len_utf8-digit (suc (suc zero)) h = refl
len_utf8-digit (suc (suc (suc zero))) h = refl
len_utf8-digit (suc (suc (suc (suc zero)))) h = refl
len_utf8-digit (suc (suc (suc (suc (suc zero))))) h = refl
len_utf8-digit (suc (suc (suc (suc (suc (suc zero)))))) h = refl
len_utf8-digit (suc (suc (suc (suc (suc (suc (suc zero))))))) h = refl
len_utf8-digit (suc (suc (suc (suc (suc (suc (suc (suc zero)))))))) h = refl
len_utf8-digit (suc (suc (suc (suc (suc (suc (suc (suc (suc zero))))))))) h = refl
len_utf8-digit (suc (suc (suc (suc (suc (suc (suc (suc (suc (suc zero)))))))))) h = refl
len_utf8-digit (suc (suc (suc (suc (suc (suc (suc (suc (suc (suc (suc zero))))))))))) h = refl
len_utf8-digit (suc (suc (suc (suc (suc (suc (suc (suc (suc (suc (suc (suc zero)))))))))))) h = refl
len_utf8-digit (suc (suc (suc (suc (suc (suc (suc (suc (suc (suc (suc (suc (suc zero)))))))))))))
      h =
    refl
len_utf8-digit
      (suc (suc (suc (suc (suc (suc (suc (suc (suc (suc (suc (suc (suc (suc zero)))))))))))))) h =
    refl
len_utf8-digit
      (suc (suc (suc (suc (suc (suc (suc (suc (suc (suc (suc (suc (suc (suc (suc zero)))))))))))))))
      h =
    refl
len_utf8-digit
      (suc
        (suc (suc (suc (suc (suc (suc (suc (suc (suc (suc (suc (suc (suc (suc (suc n))))))))))))))))
      h =
    absurd (omega arith)

-- Two digits for each byte.
pub len-encode : (bs : List ℕ) → are_bytes bs ≡ true → String.len (encode bs) ≡ 2 * length bs
unfolding encode
len-encode [] h = len.nil
len-encode (b ∷ bs) h =
    let small : b < 256 = ltb→lt b 256 (both (ltb b 256) (are_bytes bs) h).0 in
    let parts = both (ltb b 256) (are_bytes bs) h in
    let high = len_utf8-digit (b / 16) (omega arith) in
    let low = len_utf8-digit (b % 16) (omega arith) in
    len.cons (digit (b / 16)) (String.◌∷◌ (digit (b % 16)) (encode bs))
    ∙ omega (arith, high, low, len.cons (digit (b % 16)) (encode bs), len-encode bs parts.1)
