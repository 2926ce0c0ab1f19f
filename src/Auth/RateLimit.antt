-- ===== src/Auth/RateLimit.antt =====
-- app/modules/auth/infrastructure/rate_limit.py: AuthRateLimiter on its Redis store. The commands of
-- Redis are parameters that act on a state of the server.
use invora_api.Base.{
  ℕ, ◌+◌, ◌≤◌, ◌<◌, ◌≡◌, Bool, Option, none, some, List, [], ◌∷◌, ◌++◌, ltb, leb, if◌then◌else◌,
  ◌==◌,
}
use invora_api.Text.{Text, codes, normalize}
use invora_api.Result.{Result, ok, err}
use invora_api.Auth.Status.{AuthError, rate_limit_exceeded, rate_limit_unavailable}
use invora_api.Exec.{Exec, pure, raise_if, ◌>>=◌, ◌>>◌}

-- INCR, EXPIRE and TTL, where a time that is not known counts as 0 seconds; `lost` tells whether the
-- call of a script raises an exception in a state, and which state that leaves.
pub record Redis (S : Type 0) : Type 0 where
  pub incr : Text → S → ℕ × S
  pub expire : Text → ℕ → S → S
  pub ttl : Text → S → ℕ
  pub lost : S → Option S

-- What the documentation of Redis says of the number at a key, as long as no key expires: INCR adds
-- one to it, and a timeout of some seconds leaves it.
pub record IsCounting {S : Type 0} (r : Redis S) (value : Text → S → ℕ) : Type 0 where
  pub counted : (k : Text) (s : S) → (r.incr k s).0 ≡ value k s + 1
  pub stored : (k : Text) (s : S) → value k (r.incr k s).1 ≡ value k s + 1
  pub others : (j k : Text) (s : S) → value j s ≤ value j (r.incr k s).1
  pub kept :
      (j k : Text) (seconds : ℕ) (s : S) → 0 < seconds → value j (r.expire k seconds s) ≡ value j s
  pub lost_kept : (j : Text) (s t : S) → r.lost s ≡ some t → value j s ≤ value j t

pub record RateLimitCounter : Type 0 where
  pub attempts : ℕ
  pub retry_after_seconds : ℕ

abbrev pub at_least_one : ℕ → ℕ
at_least_one n = if leb n 1 then 1 else n

-- What comes back from the script, or the exception in place of it.
abbrev pub reply : {S : Type 0} → Option S → (ℕ × ℕ) × S → Result AuthError RateLimitCounter × S
reply (some t) _ = (err rate_limit_unavailable, t)
reply none ((attempts, ttl), s) =
    (ok (record { attempts = attempts; retry_after_seconds = at_least_one ttl }), s)

module _ {S : Type 0} (r : Redis S) where
  -- `_INCREMENT_WITH_EXPIRY`
  unfoldable pub increment_with_expiry : Text → ℕ → S → (ℕ × ℕ) × S
  increment_with_expiry key window_seconds s =
      let (attempts, s₁) = r.incr key s in
      let s₂ = if attempts == 1 then r.expire key window_seconds s₁ else s₁ in
      ((attempts, r.ttl key s₂), s₂)

  unfoldable pub increment : Text → ℕ → Exec S AuthError RateLimitCounter
  unfolding increment_with_expiry
  increment key window_seconds s = reply (r.lost s) (increment_with_expiry key window_seconds s)

-- The settings of the limiter, and the hexadecimal HMAC that hides a subject.
pub record Limiter : Type 0 where
  pub hmac : Text → Text
  pub enabled : Bool
  pub window_seconds : ℕ
  pub login_attempts_per_ip : ℕ
  pub login_attempts_per_account : ℕ
  pub registration_attempts_per_ip : ℕ
  pub refresh_attempts_per_ip : ℕ

unfoldable pub key : Limiter → Text → Text → Text
key l scope subject =
    codes "invora:rate-limit:auth:" ++ (scope ++ 58 ∷ l.hmac (scope ++ 58 ∷ subject))

-- A limit: its scope, its subject and the attempts that it allows.
pub record Limit : Type 0 where
  pub scope : Text
  pub subject : Text
  pub maximum_attempts : ℕ

module _ {S : Type 0} (r : Redis S) (l : Limiter) where
  -- The loop of `_enforce`.
  unfoldable pub enforce_all : List Limit → Exec S AuthError Unit
  unfolding increment key
  enforce_all [] = pure tt
  enforce_all (limit ∷ limits) = do
    counter ← increment r (key l limit.scope limit.subject) l.window_seconds
    raise_if (ltb limit.maximum_attempts counter.attempts)
        (rate_limit_exceeded counter.retry_after_seconds)
    enforce_all limits

  unfoldable pub enforce : List Limit → Exec S AuthError Unit
  unfolding enforce_all
  enforce limits = if l.enabled then enforce_all limits else pure tt

-- `client_ip or "unknown"`
abbrev pub or_unknown : Option Text → Text
or_unknown none = codes "unknown"
or_unknown (some []) = codes "unknown"
or_unknown (some (c ∷ t)) = c ∷ t

abbrev pub login_account : Text → Text
login_account email = normalize email

abbrev pub login_limits : Limiter → Option Text → Text → List Limit
login_limits l client_ip email =
    record {
      scope = codes "login-ip";
      subject = or_unknown client_ip;
      maximum_attempts = l.login_attempts_per_ip;
    }
    ∷ record {
      scope = codes "login-account";
      subject = login_account email;
      maximum_attempts = l.login_attempts_per_account;
    }
    ∷ []

module _ {S : Type 0} (r : Redis S) (l : Limiter) where
  unfoldable pub enforce_login : Option Text → Text → Exec S AuthError Unit
  unfolding enforce
  enforce_login client_ip email = enforce r l (login_limits l client_ip email)

  unfoldable pub enforce_registration : Option Text → Exec S AuthError Unit
  unfolding enforce
  enforce_registration client_ip = enforce r l (
      record {
        scope = codes "register-ip";
        subject = or_unknown client_ip;
        maximum_attempts = l.registration_attempts_per_ip;
      }
      ∷ [])

  unfoldable pub enforce_refresh : Option Text → Exec S AuthError Unit
  unfolding enforce
  enforce_refresh client_ip = enforce r l (
      record {
        scope = codes "refresh-ip";
        subject = or_unknown client_ip;
        maximum_attempts = l.refresh_attempts_per_ip;
      }
      ∷ [])
