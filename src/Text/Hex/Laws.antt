-- ===== src/Text/Hex/Laws.antt =====
-- Byte strings encoded and decoded.
use Prim.Native.Char.{code}
use hwcontrol.Base.{
  ℕ, zero, suc, ◌/◌, ◌%◌, ◌<◌, Bool, true, ◌≡◌, refl, ap, some, List, [], ◌∷◌, arith, ltb, all,
}
use hwcontrol.Text.Hex.{nibble, digit, decode, encode}

nibble-digit : (n : ℕ) → n < 16 → nibble (code (digit n)) ≡ some n
unfolding nibble digit
nibble-digit zero h = refl
nibble-digit (suc zero) h = refl
nibble-digit (suc (suc zero)) h = refl
nibble-digit (suc (suc (suc zero))) h = refl
nibble-digit (suc (suc (suc (suc zero)))) h = refl
nibble-digit (suc (suc (suc (suc (suc zero))))) h = refl
nibble-digit (suc (suc (suc (suc (suc (suc zero)))))) h = refl
nibble-digit (suc (suc (suc (suc (suc (suc (suc zero))))))) h = refl
nibble-digit (suc (suc (suc (suc (suc (suc (suc (suc zero)))))))) h = refl
nibble-digit (suc (suc (suc (suc (suc (suc (suc (suc (suc zero))))))))) h = refl
nibble-digit (suc (suc (suc (suc (suc (suc (suc (suc (suc (suc zero)))))))))) h = refl
nibble-digit (suc (suc (suc (suc (suc (suc (suc (suc (suc (suc (suc zero))))))))))) h = refl
nibble-digit (suc (suc (suc (suc (suc (suc (suc (suc (suc (suc (suc (suc zero)))))))))))) h = refl
nibble-digit (suc (suc (suc (suc (suc (suc (suc (suc (suc (suc (suc (suc (suc zero))))))))))))) h =
    refl
nibble-digit
      (suc (suc (suc (suc (suc (suc (suc (suc (suc (suc (suc (suc (suc (suc zero)))))))))))))) h =
    refl
nibble-digit
      (suc (suc (suc (suc (suc (suc (suc (suc (suc (suc (suc (suc (suc (suc (suc zero)))))))))))))))
      h =
    refl
nibble-digit
      (suc
        (suc (suc (suc (suc (suc (suc (suc (suc (suc (suc (suc (suc (suc (suc (suc n))))))))))))))))
      h =
    absurd (omega arith)

-- Every element of the list is a byte.
abbrev pub are_bytes : List ℕ → Bool
are_bytes bs = all (λ b. ltb b 256) bs

pub decode-encode : (bs : List ℕ) → are_bytes bs ≡ true → decode (encode bs) ≡ some bs
unfolding decode encode
decode-encode [] h = refl
decode-encode (b ∷ bs) h =
    let small : b < 256 = ground arith in
    rw
      (
        nibble-digit (b / 16) (omega arith),
        nibble-digit (b % 16) (omega arith),
        decode-encode bs (ground arith),
      )
      (ap (λ k. some (k ∷ bs)) (omega arith))
