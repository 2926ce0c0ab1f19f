-- ===== src/Auth/TokenLaws.antt =====
-- Access tokens: reading what was written (app/modules/auth/domain/tokens.py).
use invora_api.Base.{
  ℕ, ◌+◌, ◌*◌, ◌≡◌, refl, true, ◌&&◌, all, inl, inr, [], ◌∷◌, ◌++◌, leb, arith, Bool-cases,
  if◌then◌else◌,
}
use invora_api.Text.{Text, split_on, split_on-none, split_on-append}
use invora_api.Result.{ok, err}
use invora_api.Auth.Status.{expired_access_token}
use invora_api.Auth.Tokens.{
  Codec, IsCodec, Claims, header, payload, seconds, signing_input, create_access_token,
  decode_access_token, is_ascii,
}

all-append : (s t : Text) → all is_ascii (s ++ t) ≡ (all is_ascii s && all is_ascii t)
all-append [] t = refl
all-append (c ∷ s) t = ground (arith, all-append s t)

module _ (c : Codec) (k : IsCodec c) (subject : ℕ) (secret : Text) (lifetime issued : ℕ) where
  abbrev claims : Claims
  claims = payload c subject issued (issued + lifetime)

  abbrev signed : Text
  signed = c.sign secret (signing_input (c.encode header) (c.encode claims))

  parts :
      split_on 46 (create_access_token c subject secret lifetime issued)
      ≡ c.encode header ∷ c.encode claims ∷ signed ∷ []
  unfolding create_access_token
  parts =
      rw
        (
          split_on-append 46 (c.encode header) (c.encode claims ++ 46 ∷ signed)
              (k.encode_no_dot header),
          split_on-append 46 (c.encode claims) signed (k.encode_no_dot claims),
          split_on-none 46 signed
              (k.sign_no_dot secret (signing_input (c.encode header) (c.encode claims))),
        )
        refl

  ascii : all is_ascii (signing_input (c.encode header) (c.encode claims)) ≡ true
  ascii =
      rw
        (
          all-append (c.encode header) (46 ∷ c.encode claims),
          k.encode_ascii header,
          k.encode_ascii claims,
        )
        refl

  -- A token is read with its secret as the subject that it was written for, and as expiring at the
  -- whole second in which its lifetime ends; from that second on it is refused as expired.
  pub decode-create_access_token :
      (now : ℕ)
      → let expires_at = seconds (issued + lifetime) * 1_000_000 in
        decode_access_token c (create_access_token c subject secret lifetime issued) secret now ≡ (
          if leb expires_at now
          then err expired_access_token
          else ok (record { subject = subject; expires_at = expires_at }))
  unfolding decode_access_token payload
  decode-create_access_token now =
      rw (parts, ascii, k.same signed, k.decodes header, k.decodes claims, k.reads_uuid subject)
        (elim (Bool-cases (leb (seconds (issued + lifetime) * 1_000_000) now)) [
          | inl expired ↦ rw expired refl
          | inr live ↦ rw live refl
        ])
