-- ===== src/Auth/Password/Policy.antt =====
-- The password policy of internal/auth/password.go, against its description.
use Prim.Native.String.{len}
use iskele.Common.{
  ℕ, ◌+◌, ◌≤◌, String, ◌≡◌, refl, Bool, not, ◌&&◌, ◌||◌, List, [], ◌∷◌, arith, any, codes, ◌↔◌,
}
use iskele.Store.Platform.{Platform}
use iskele.Store.Exec.{ok}
use iskele.Auth.Password.{
  Classes, see, classes_from, classes_in, count_classes, one_if, validate_password,
  min_password_length, max_password_length,
}

module _ (os : Platform) where
  -- the class of a character: the first of lower, upper, digit that it is in, or symbol
  abbrev pub upper_only : ℕ → Bool
  upper_only r = not (os.is_lower r) && os.is_upper r

  abbrev pub digit_only : ℕ → Bool
  digit_only r = not (os.is_lower r) && not (os.is_upper r) && os.is_digit r

  abbrev pub symbol_only : ℕ → Bool
  symbol_only r = not (os.is_lower r) && not (os.is_upper r) && not (os.is_digit r)

  classes_from-any :
      (c : Classes) (rs : List ℕ)
      → classes_from os c rs ≡ record {
        lower = c.lower || any os.is_lower rs;
        upper = c.upper || any upper_only rs;
        digit = c.digit || any digit_only rs;
        symbol = c.symbol || any symbol_only rs;
      }
  unfolding classes_from see
  classes_from-any c [] = ground arith
  classes_from-any c (r ∷ rs) = ground (arith, classes_from-any (see os r c) rs)

  -- how many of the four classes occur in the text
  abbrev pub occurring : String → ℕ
  occurring s =
      one_if (any os.is_lower (codes s))
      + one_if (any upper_only (codes s))
      + one_if (any digit_only (codes s))
      + one_if (any symbol_only (codes s))

  classes_in-occurring : (s : String) → classes_in os s ≡ occurring s
  unfolding classes_in count_classes
  classes_in-occurring s = rw classes_from-any refl

  -- `ValidatePassword` accepts exactly the passwords of 12 to 1024 bytes in which two of the four
  -- classes occur.
  pub validate_password-accepts :
      (password : String)
      → (validate_password os password ≡ ok tt) ↔ (
          (min_password_length ≤ len password)
          × (len password ≤ max_password_length)
          × (2 ≤ occurring password))
  unfolding validate_password
  validate_password-accepts password =
      let e = classes_in-occurring password in
      (λ h. ground (arith, e, h), λ h. ground (arith, e, h))
