-- ===== src/Tests/Checksums.antt =====
-- The checksum of a number that is right, and with one digit changed.
use external_libtextclassifi.Prelude.{true, false, ◌∷◌, ◌++◌, ◌≡◌, refl, arith}
use external_libtextclassifi.Text.{codes}
use external_libtextclassifi.Checksum.{
  weight, add_digit, luhn_step, luhn_loop, verify_luhn_checksum,
}
use external_libtextclassifi.Checksum.Errors.{verify_luhn_checksum-digit}

right_number : verify_luhn_checksum (codes "7992 739" ++ 56 ∷ codes "713") true ≡ true
unfolding verify_luhn_checksum luhn_loop luhn_step add_digit weight
right_number = refl

-- White space is refused where it is not ignored.
refused_space : verify_luhn_checksum (codes "7992 7398713") false ≡ false
unfolding verify_luhn_checksum luhn_loop luhn_step add_digit weight
refused_space = refl

verify_luhn_checksum-digit_example :
    verify_luhn_checksum (codes "7992 739" ++ 55 ∷ codes "713") true ≡ false
verify_luhn_checksum-digit_example =
    verify_luhn_checksum-digit true (codes "7992 739") (codes "713") 56 55 refl refl (omega arith)
      right_number
