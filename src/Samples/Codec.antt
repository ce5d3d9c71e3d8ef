-- ===== src/Samples/Codec.antt =====
-- Concrete functions in place of the third-party ones, and proofs that they keep what is documented
-- of those: texts of unary numbers for base64, code points for the AEAD.
use Prim.Native.Char.{Char, char, code, IsScalar, nul, len_utf8}
use Prim.Native.Nat.{compare, Ordering}
use Prim.Native.String as Str
use iskele.Common.{
  ℕ, zero, suc, ◌/◌, ◌%◌, String, ◌≡◌, ◌≢◌, ◌⊎◌, inl, inr, refl, ap, Option, none, some, List, [],
  ◌∷◌, codes, if◌then◌else◌, eqb, length,
}

module _ (n : ℕ) where
  abbrev scalar_or_not :
      (o p q : Ordering)
      → compare n 55296 ≡ o
      → compare 57343 n ≡ p
      → compare n 1114112 ≡ q
      → IsScalar n ⊎ (IsScalar n → ⊥)
  scalar_or_not Ordering.lt p q e f g = inl (rw e tt)
  scalar_or_not Ordering.eq Ordering.lt Ordering.lt e f g = inl (rw (e, f, g) tt)
  scalar_or_not Ordering.eq Ordering.lt _ e f g = inr (rw (e, f, g) (λ a. a))
  scalar_or_not Ordering.eq _ _ e f g = inr (rw (e, f) (λ a. a))
  scalar_or_not Ordering.gt Ordering.lt Ordering.lt e f g = inl (rw (e, f, g) tt)
  scalar_or_not Ordering.gt Ordering.lt _ e f g = inr (rw (e, f, g) (λ a. a))
  scalar_or_not Ordering.gt _ _ e f g = inr (rw (e, f) (λ a. a))

  scalar_unique :
      (o p q : Ordering)
      → compare n 55296 ≡ o
      → compare 57343 n ≡ p
      → compare n 1114112 ≡ q
      → (a b : IsScalar n) → a ≡ b
  scalar_unique Ordering.lt p q e f g = rw e (λ a b. refl)
  scalar_unique Ordering.eq Ordering.lt Ordering.lt e f g = rw (e, f, g) (λ a b. refl)
  scalar_unique Ordering.eq Ordering.lt _ e f g = rw (e, f, g) (λ a b. absurd a)
  scalar_unique Ordering.eq _ _ e f g = rw (e, f) (λ a b. absurd a)
  scalar_unique Ordering.gt Ordering.lt Ordering.lt e f g = rw (e, f, g) (λ a b. refl)
  scalar_unique Ordering.gt Ordering.lt _ e f g = rw (e, f, g) (λ a b. absurd a)
  scalar_unique Ordering.gt _ _ e f g = rw (e, f) (λ a b. absurd a)

  abbrev character_if : IsScalar n ⊎ (IsScalar n → ⊥) → Char
  character_if (inl a) = char n a
  character_if (inr non) = nul

  character_if-scalar :
      (d : IsScalar n ⊎ (IsScalar n → ⊥)) (a : IsScalar n) → character_if d ≡ char n a
  character_if-scalar (inl b) a = ap (λ x. char n x) (scalar_unique _ _ _ refl refl refl b a)
  character_if-scalar (inr non) a = absurd (non a)

-- the character of a code point
abbrev character : ℕ → Char
character n = character_if n (scalar_or_not n _ _ _ refl refl refl)

abbrev pub text_of : List ℕ → String
text_of [] = String.[]
text_of (n ∷ ns) = String.◌∷◌ (character n) (text_of ns)

pub text_of-codes : (s : String) → text_of (codes s) ≡ s
text_of-codes String.[] = refl
text_of-codes (String.◌∷◌ (char n a) s) =
    rw (character_if-scalar n (scalar_or_not n _ _ _ refl refl refl) a, text_of-codes s) refl

-- a number in unary, ended by a comma
abbrev unary : ℕ → String → String
unary zero rest = String.◌∷◌ (char 44 tt) rest
unary (suc n) rest = String.◌∷◌ (char 97 tt) (unary n rest)

abbrev pub encode : List ℕ → String
encode [] = ""
encode (b ∷ bs) = unary b (encode bs)

abbrev prepend : ℕ → Option (List ℕ) → Option (List ℕ)
prepend b none = none
prepend b (some bs) = some (b ∷ bs)

abbrev bump : Option (List ℕ) → Option (List ℕ)
bump (some (b ∷ bs)) = some (suc b ∷ bs)
bump _ = none

abbrev pub decode : String → Option (List ℕ)
decode String.[] = some []
decode (String.◌∷◌ c s) =
    let rest = decode s in if eqb (code c) 44 then prepend 0 rest else bump rest

decode-unary :
    (b : ℕ) (bs : List ℕ) (s : String) → decode s ≡ some bs → decode (unary b s) ≡ some (b ∷ bs)
decode-unary zero bs s h = rw h refl
decode-unary (suc b) bs s h = rw (decode-unary b bs s h) refl

pub decode-encode : (bs : List ℕ) → decode (encode bs) ≡ some bs
decode-encode [] = refl
decode-encode (b ∷ bs) = decode-unary b bs (encode bs) (decode-encode bs)

pub encode_nonempty : (b : ℕ) (bs : List ℕ) → encode (b ∷ bs) ≢ ""
encode_nonempty zero bs e = cc
encode_nonempty (suc b) bs e = cc

-- a decimal digit, and a number's last six
abbrev digit : ℕ → Char
digit zero = char 48 tt
digit (suc zero) = char 49 tt
digit (suc (suc zero)) = char 50 tt
digit (suc (suc (suc zero))) = char 51 tt
digit (suc (suc (suc (suc zero)))) = char 52 tt
digit (suc (suc (suc (suc (suc zero))))) = char 53 tt
digit (suc (suc (suc (suc (suc (suc zero)))))) = char 54 tt
digit (suc (suc (suc (suc (suc (suc (suc zero))))))) = char 55 tt
digit (suc (suc (suc (suc (suc (suc (suc (suc zero)))))))) = char 56 tt
digit _ = char 57 tt

abbrev pub six_digits : ℕ → String
six_digits n = String.◌∷◌ (digit (n / 100000 % 10)) (
    String.◌∷◌ (digit (n / 10000 % 10)) (
      String.◌∷◌ (digit (n / 1000 % 10)) (
        String.◌∷◌ (digit (n / 100 % 10))
          (String.◌∷◌ (digit (n / 10 % 10)) (String.◌∷◌ (digit (n % 10)) String.[])))))

digit_width : (n : ℕ) → len_utf8 (digit n) ≡ 1
digit_width zero = refl
digit_width (suc zero) = refl
digit_width (suc (suc zero)) = refl
digit_width (suc (suc (suc zero))) = refl
digit_width (suc (suc (suc (suc zero)))) = refl
digit_width (suc (suc (suc (suc (suc zero))))) = refl
digit_width (suc (suc (suc (suc (suc (suc zero)))))) = refl
digit_width (suc (suc (suc (suc (suc (suc (suc zero))))))) = refl
digit_width (suc (suc (suc (suc (suc (suc (suc (suc zero)))))))) = refl
digit_width _ = refl

pub len-six_digits : (n : ℕ) → Str.len (six_digits n) ≡ 6
len-six_digits n =
    rw
      (
        Str.len.cons, Str.len.cons, Str.len.cons, Str.len.cons, Str.len.cons, Str.len.cons,
        digit_width, digit_width, digit_width, digit_width, digit_width, digit_width,
      )
      refl

abbrev pub repeat : ℕ → ℕ → List ℕ
repeat zero b = []
repeat (suc n) b = b ∷ repeat n b

pub length-repeat : (n b : ℕ) → length (repeat n b) ≡ n
length-repeat zero b = refl
length-repeat (suc n) b = ap (λ k. suc k) (length-repeat n b)
