-- ===== src/Auth/Genuine.antt =====
-- The access tokens that decode_access_token of app/modules/auth/domain/tokens.py accepts.
use invora_api.Base.{
  ℕ, ◌*◌, ◌<◌, ◌≡◌, ◌↔◌, refl, sym, ap, ◌∙◌, Bool, true, false, all, Option, none, some, not, List,
  [], ◌∷◌, leb, arith,
}
use invora_api.Text.{Text, codes, same_text→eq, split_on}
use invora_api.Result.{Result, ok, bind-eq-ok, reject_if}
use invora_api.Auth.Status.{AuthError, expired_access_token, invalid_access_token, encode_error}
use invora_api.Auth.Tokens.{
  Codec, Claims, Json, Loaded, no_json, no_object, object, loaded, as_object, text, number, boolean,
  other, signing_input, AccessTokenPayload, decode_access_token, is_ascii, three_parts, or_invalid,
  as_number, as_text, is_text,
}

three_parts-ok :
    (ws : List Text) (p : Text × Text × Text) → three_parts ws ≡ ok p → ws ≡ p.0 ∷ p.1 ∷ p.2 ∷ []
three_parts-ok [] p h = cc
three_parts-ok (a ∷ []) p h = cc
three_parts-ok (a ∷ b ∷ []) p h = cc
three_parts-ok (a ∷ b ∷ s ∷ []) p h = cc
three_parts-ok (a ∷ b ∷ s ∷ t ∷ ws) p h = cc

or_invalid-ok : {A : Type 0} (o : Option A) (a : A) → or_invalid o ≡ ok a → o ≡ some a
or_invalid-ok none a h = cc
or_invalid-ok (some b) a h = cc

reject_if-ok : (b : Bool) (e : AuthError) (u : Unit {0}) → reject_if b e ≡ ok u → b ≡ false
reject_if-ok true e u h = cc
reject_if-ok false e u h = refl

accepted : (b : Bool) → not b ≡ false → b ≡ true
accepted true h = refl
accepted false h = cc

later :
    (raw now subject : ℕ) (p : AccessTokenPayload)
    → leb (raw * 1_000_000) now ≡ false
    → ◌≡◌ {A = Result AuthError AccessTokenPayload}
        (ok (record { subject = subject; expires_at = raw * 1_000_000 }))
        (ok p)
    → now < p.expires_at
later raw now subject p h e = ground arith

-- A whole number of seconds, as which JSON's true and false count too.
abbrev pub seconds_of : Option Json → Option ℕ
seconds_of (some (number n)) = some n
seconds_of (some (boolean true)) = some 1
seconds_of (some (boolean false)) = some 0
seconds_of _ = none

-- What a token says that is valid at a moment: it has three parts of ASCII, of which the third is the
-- signature of the first two with the secret; it is an access token for HS256; and its subject and its
-- expiry, which is still to come, are those of the payload.
pub record Genuine (c : Codec) (token secret : Text) (now : ℕ) (p : AccessTokenPayload)
    : Type 0 where
  pub parts : Text × Text × Text
  pub splits : split_on 46 token ≡ parts.0 ∷ parts.1 ∷ parts.2 ∷ []
  pub in_ascii : all is_ascii (signing_input parts.0 parts.1) ≡ true
  pub signed_by :
      c.same_signature parts.2 (c.sign secret (signing_input parts.0 parts.1)) ≡ some true
  pub head : Claims
  pub claims : Claims
  pub head_read : c.decode parts.0 ≡ object head
  pub claims_read : c.decode parts.1 ≡ object claims
  pub algorithm : head.alg ≡ some (text (codes "HS256"))
  pub access : claims.type ≡ some (text (codes "access"))
  pub expiry : ℕ
  pub expires : seconds_of claims.exp ≡ some expiry
  pub expires_at : p.expires_at ≡ expiry * 1_000_000
  pub unexpired : now < p.expires_at
  pub subject_text : Text
  pub names : claims.sub ≡ some (text subject_text)
  pub subject : c.uuid subject_text ≡ some p.subject

is_text-eq : (o : Option Json) (t : Text) → is_text o t ≡ true → o ≡ some (text t)
is_text-eq none t h = cc
is_text-eq (some (text s)) t h = ap (λ x. some (text x)) (same_text→eq s t h)
is_text-eq (some (number n)) t h = cc
is_text-eq (some (boolean b)) t h = cc
is_text-eq (some other) t h = cc

as_number-ok : (o : Option Json) (n : ℕ) → as_number o ≡ ok n → seconds_of o ≡ some n
as_number-ok none n h = cc
as_number-ok (some (number m)) n h = cc
as_number-ok (some (text t)) n h = cc
as_number-ok (some (boolean true)) n h = cc
as_number-ok (some (boolean false)) n h = cc
as_number-ok (some other) n h = cc

as_text-ok : (o : Option Json) (t : Text) → as_text o ≡ ok t → o ≡ some (text t)
as_text-ok none t h = cc
as_text-ok (some (text s)) t h = cc
as_text-ok (some (number m)) t h = cc
as_text-ok (some (boolean b)) t h = cc
as_text-ok (some other) t h = cc

ok-inj :
    (q p : AccessTokenPayload) → ◌≡◌ {A = Result AuthError AccessTokenPayload} (ok q) (ok p) → q ≡ p
ok-inj q p h = cc

object-ok : (d l : Loaded) (o : Claims) → loaded d ≡ ok l → as_object l ≡ ok o → d ≡ object o
object-ok no_json l o h k = cc
object-ok no_object l o h k = let e : l ≡ no_object = cc in let k' = (rw e at k) in cc
object-ok (object p) l o h k =
    let e : l ≡ object p = cc in let k' = (rw e at k) in ap object (cc k')

as_number-of : (o : Option Json) (n : ℕ) → seconds_of o ≡ some n → as_number o ≡ ok n
as_number-of none n h = cc
as_number-of (some (number m)) n h = cc
as_number-of (some (text t)) n h = cc
as_number-of (some (boolean true)) n h = cc
as_number-of (some (boolean false)) n h = cc
as_number-of (some other) n h = cc

accepted-Genuine :
    (c : Codec) (token secret : Text) (now : ℕ) (p : AccessTokenPayload)
    → decode_access_token c token secret now ≡ ok p
    → Genuine c token secret now p
unfolding decode_access_token
accepted-Genuine c token secret now p h =
    let (ps, e₁, h₁) = bind-eq-ok (three_parts (split_on 46 token)) _ h in
    let (u₂, e₂, h₂) =
      bind-eq-ok (reject_if (not (all is_ascii (signing_input ps.0 ps.1))) encode_error) _ h₁ in
    let (genuine, e₃, h₃) =
      bind-eq-ok (or_invalid (c.same_signature ps.2 (c.sign secret (signing_input ps.0 ps.1)))) _
        h₂ in
    let (u₄, e₄, h₄) = bind-eq-ok (reject_if (not genuine) invalid_access_token) _ h₃ in
    let (l₀, e₅, h₅) = bind-eq-ok (loaded (c.decode ps.0)) _ h₄ in
    let (l₁, e₆, h₆) = bind-eq-ok (loaded (c.decode ps.1)) _ h₅ in
    let (head, e₅', h₆') = bind-eq-ok (as_object l₀) _ h₆ in
    let no_alg = not (is_text head.alg (codes "HS256")) in
    let (v₇, alg, h₇') = bind-eq-ok (reject_if no_alg invalid_access_token) _ h₆' in
    let (claims, e₆', h₇'') = bind-eq-ok (as_object l₁) _ h₇' in
    let no_access = not (is_text claims.type (codes "access")) in
    let (u₇, type, h₇) = bind-eq-ok (reject_if no_access invalid_access_token) _ h₇'' in
    let (raw, e₈, h₈) = bind-eq-ok (as_number claims.exp) _ h₇ in
    let (sub, e₉, h₉) = bind-eq-ok (as_text claims.sub) _ h₈ in
    let (u₁₀, e₁₀, h₁₀) =
      bind-eq-ok (reject_if (leb (raw * 1_000_000) now) expired_access_token) _ h₉ in
    let (sub_id, e₁₁, h₁₁) = bind-eq-ok (or_invalid (c.uuid sub)) _ h₁₀ in
    let same = ok-inj (record { subject = sub_id; expires_at = raw * 1_000_000 }) p h₁₁ in
    record {
      parts = ps;
      splits = three_parts-ok (split_on 46 token) ps e₁;
      in_ascii =
          accepted (all is_ascii (signing_input ps.0 ps.1))
            (reject_if-ok (not (all is_ascii (signing_input ps.0 ps.1))) encode_error u₂ e₂);
      signed_by =
          or_invalid-ok (c.same_signature ps.2 (c.sign secret (signing_input ps.0 ps.1))) genuine e₃
          ∙ ap some (accepted genuine (reject_if-ok (not genuine) invalid_access_token u₄ e₄));
      head = head;
      claims = claims;
      head_read = object-ok (c.decode ps.0) l₀ head e₅ e₅';
      claims_read = object-ok (c.decode ps.1) l₁ claims e₆ e₆';
      algorithm = is_text-eq head.alg (codes "HS256") (
          accepted (is_text head.alg (codes "HS256"))
            (reject_if-ok no_alg invalid_access_token v₇ alg));
      access = is_text-eq claims.type (codes "access") (
          accepted (is_text claims.type (codes "access"))
            (reject_if-ok no_access invalid_access_token u₇ type));
      expiry = raw;
      expires = as_number-ok claims.exp raw e₈;
      expires_at = sym (ap (λ (q : AccessTokenPayload). q.expires_at) same);
      unexpired =
          later raw now sub_id p
            (reject_if-ok (leb (raw * 1_000_000) now) expired_access_token u₁₀ e₁₀) h₁₁;
      subject_text = sub;
      names = as_text-ok claims.sub sub e₉;
      subject =
          or_invalid-ok (c.uuid sub) sub_id e₁₁
          ∙ ap (λ (q : AccessTokenPayload). some q.subject) same;
    }

not_yet : (x now : ℕ) → now < x → leb x now ≡ false
not_yet x now h = ground arith

Genuine-accepted :
    (c : Codec) (token secret : Text) (now : ℕ) (p : AccessTokenPayload)
    → Genuine c token secret now p
    → decode_access_token c token secret now ≡ ok p
unfolding decode_access_token
Genuine-accepted c token secret now p g =
    rw
      (
        g.splits,
        g.in_ascii,
        g.signed_by,
        g.head_read,
        g.claims_read,
        g.algorithm,
        g.access,
        as_number-of g.claims.exp g.expiry g.expires,
        g.names,
        sym g.expires_at,
        not_yet p.expires_at now g.unexpired,
        g.subject,
      )
      refl

-- A token is accepted, and read as a payload, exactly when it is genuine: no token is but a signed
-- access token for that subject with that expiry, before it expires; and every such token is.
pub decode_access_token-Genuine :
    (c : Codec) (token secret : Text) (now : ℕ) (p : AccessTokenPayload)
    → (decode_access_token c token secret now ≡ ok p) ↔ Genuine c token secret now p
decode_access_token-Genuine c token secret now p =
    (accepted-Genuine c token secret now p, Genuine-accepted c token secret now p)
