-- ===== src/Auth/TestCodec.antt =====
-- A coding of claims as texts of the digits 0 and 1, for the tests: a number stands as so many ones
-- and a zero.
use invora_api.Base.{
  ℕ, zero, suc, ◌≡◌, refl, ap, ◌+◌, true, false, Option, none, some, [], ◌∷◌, all, length, ◌==◌,
  arith, if◌then◌else◌, Bool,
}
use invora_api.Text.{Text, has_char, same_text, same_text_refl}
use invora_api.Auth.Tokens.{
  Json, text, number, boolean, other, Claims, Loaded, no_json, object, Codec, IsCodec, is_ascii,
}

abbrev write : ℕ → Text → Text
write zero rest = 48 ∷ rest
write (suc n) rest = 49 ∷ write n rest

abbrev one_more : Option (ℕ × Text) → Option (ℕ × Text)
one_more none = none
one_more (some (n, rest)) = some (suc n, rest)

abbrev read : Text → Option (ℕ × Text)
read [] = none
read (c ∷ t) = let n = read t in if c == 49 then one_more n else some (0, t)

read-write : (n : ℕ) (rest : Text) → read (write n rest) ≡ some (n, rest)
read-write zero rest = refl
read-write (suc n) rest = rw (read-write n rest) refl

abbrev and_then :
    {A B : Type 0} → Option (A × Text) → (A → Text → Option (B × Text)) → Option (B × Text)
and_then none f = none
and_then (some (a, rest)) f = f a rest

abbrev write_chars : Text → Text → Text
write_chars [] rest = rest
write_chars (c ∷ t) rest = write c (write_chars t rest)

abbrev read_chars : ℕ → Text → Option (Text × Text)
read_chars zero rest = some ([], rest)
read_chars (suc n) s =
    and_then (read s) (λ c s'. and_then (read_chars n s') (λ t rest. some (c ∷ t, rest)))

read-write_chars : (t rest : Text) → read_chars (length t) (write_chars t rest) ≡ some (t, rest)
read-write_chars [] rest = refl
read-write_chars (c ∷ t) rest = rw (read-write c (write_chars t rest), read-write_chars t rest) refl

abbrev write_json : Option Json → Text → Text
write_json (some (text t)) rest = write 0 (write (length t) (write_chars t rest))
write_json (some (number n)) rest = write 1 (write n rest)
write_json (some other) rest = write 2 rest
write_json (some (boolean true)) rest = write 3 rest
write_json (some (boolean false)) rest = write 4 rest
write_json none rest = write 5 rest

abbrev read_value : ℕ → Text → Option (Option Json × Text)
read_value zero s =
    and_then (read s) (λ n s'. and_then (read_chars n s') (λ t rest. some (some (text t), rest)))
read_value (suc zero) s = and_then (read s) (λ n rest. some (some (number n), rest))
read_value (suc (suc zero)) rest = some (some other, rest)
read_value (suc (suc (suc zero))) rest = some (some (boolean true), rest)
read_value (suc (suc (suc (suc zero)))) rest = some (some (boolean false), rest)
read_value (suc (suc (suc (suc (suc _))))) rest = some (none, rest)

abbrev read_json : Text → Option (Option Json × Text)
read_json s = and_then (read s) read_value

read-write_json : (v : Option Json) (rest : Text) → read_json (write_json v rest) ≡ some (v, rest)
read-write_json (some (text t)) rest =
    rw (read-write (length t) (write_chars t rest), read-write_chars t rest) refl
read-write_json (some (number n)) rest = rw (read-write n rest) refl
read-write_json (some other) rest = refl
read-write_json (some (boolean true)) rest = refl
read-write_json (some (boolean false)) rest = refl
read-write_json none rest = refl

abbrev encode : Claims → Text
encode o = write_json o.alg (
    write_json o.typ
      (write_json o.type (write_json o.sub (write_json o.exp (write_json o.iat [])))))

abbrev read_claims : Text → Option (Claims × Text)
read_claims s = and_then (read_json s) (λ alg s₀. and_then (read_json s₀) (λ typ s₁.
    and_then (read_json s₁) (λ type s₂. and_then (read_json s₂) (λ sub s₃.
      and_then (read_json s₃) (λ exp s₄. and_then (read_json s₄) (λ iat rest.
        some (
          record { alg = alg; typ = typ; type = type; sub = sub; exp = exp; iat = iat },
          rest,
        )))))))

abbrev whole : Option (Claims × Text) → Loaded
whole none = no_json
whole (some (o, _)) = object o

abbrev decode : Text → Loaded
decode s = whole (read_claims s)

decode-encode : (o : Claims) → decode (encode o) ≡ object o
decode-encode o =
    rw
      (
        read-write_json o.alg (
            write_json o.typ
              (write_json o.type (write_json o.sub (write_json o.exp (write_json o.iat []))))),
        read-write_json o.typ
            (write_json o.type (write_json o.sub (write_json o.exp (write_json o.iat [])))),
        read-write_json o.type (write_json o.sub (write_json o.exp (write_json o.iat []))),
        read-write_json o.sub (write_json o.exp (write_json o.iat [])),
        read-write_json o.exp (write_json o.iat []),
        read-write_json o.iat [],
      )
      refl

-- Texts of the digits 0 and 1.
abbrev is_bit : ℕ → Bool
is_bit c = if c == 48 then true else c == 49

write-bits : (n : ℕ) (rest : Text) → all is_bit rest ≡ true → all is_bit (write n rest) ≡ true
write-bits zero rest h = h
write-bits (suc n) rest h = write-bits n rest h

write_chars-bits : (t rest : Text) → all is_bit rest ≡ true → all is_bit (write_chars t rest) ≡ true
write_chars-bits [] rest h = h
write_chars-bits (c ∷ t) rest h = write-bits c (write_chars t rest) (write_chars-bits t rest h)

write_json-bits :
    (v : Option Json) (rest : Text) → all is_bit rest ≡ true → all is_bit (write_json v rest) ≡ true
write_json-bits (some (text t)) rest h =
    write-bits (length t) (write_chars t rest) (write_chars-bits t rest h)
write_json-bits (some (number n)) rest h = write-bits n rest h
write_json-bits (some other) rest h = h
write_json-bits (some (boolean true)) rest h = h
write_json-bits (some (boolean false)) rest h = h
write_json-bits none rest h = h

encode-bits : (o : Claims) → all is_bit (encode o) ≡ true
encode-bits o = write_json-bits o.alg _ (
    write_json-bits o.typ _ (
      write_json-bits o.type _
        (write_json-bits o.sub _ (write_json-bits o.exp _ (write_json-bits o.iat [] refl)))))

bits→ascii : (t : Text) → all is_bit t ≡ true → all is_ascii t ≡ true
bits→ascii [] h = refl
bits→ascii (c ∷ t) h = ground (arith, bits→ascii t)

bits→no_dot : (t : Text) → all is_bit t ≡ true → has_char 46 t ≡ false
bits→no_dot [] h = refl
bits→no_dot (c ∷ t) h = ground (arith, bits→no_dot t)

abbrev ones : ℕ → Text
ones zero = []
ones (suc n) = 49 ∷ ones n

length-ones : (n : ℕ) → length (ones n) ≡ n
length-ones zero = refl
length-ones (suc n) = ap suc (length-ones n)

-- A stand-in for a signature: so many ones as its texts have characters.
abbrev sign : Text → Text → Text
sign secret input = ones (length secret + length input)

ones-no_dot : (n : ℕ) → has_char 46 (ones n) ≡ false
ones-no_dot zero = refl
ones-no_dot (suc n) = ones-no_dot n

abbrev pub test_codec : Codec
test_codec = record {
  encode = encode;
  decode = decode;
  sign = sign;
  same_signature = λ s t. some (same_text s t);
  uuid = λ t. some (length t);
  uuid_text = ones;
}

pub test_codec-IsCodec : IsCodec test_codec
test_codec-IsCodec = record {
  decodes = decode-encode;
  encode_ascii = λ o. bits→ascii (encode o) (encode-bits o);
  encode_no_dot = λ o. bits→no_dot (encode o) (encode-bits o);
  sign_no_dot = λ secret input. ones-no_dot (length secret + length input);
  same = λ t. ap some (same_text_refl t);
  reads_uuid = λ n. ap some (length-ones n);
}
