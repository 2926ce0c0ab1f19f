-- ===== src/Auth/RateLaws.antt =====
-- How many attempts the limiter lets through in a window.
use invora_api.Base.{
  ℕ, ◌+◌, ◌-◌, ◌≤◌, ◌<◌, ◌≡◌, refl, ap, sym, ◌∙◌, Bool, true, false, ◌&&◌, suc, Option, List, [],
  ◌∷◌, ltb, inl, inr, arith, Bool-cases, Option-cases, if◌then◌else◌, ◌==◌,
}
use invora_api.Text.{Text, codes, same_text, same_text→eq}
use invora_api.Result.{Result, ok, err}
use invora_api.Exec.Rules.{bind-post, raise_if-post}
use invora_api.Auth.Status.{AuthError}
use invora_api.Auth.RateLimit.{
  Redis, IsCounting, Limiter, Limit, RateLimitCounter, increment, increment_with_expiry, key,
  enforce_all, enforce, enforce_login, login_account, login_limits, or_unknown,
}

abbrev is_ok : {E A : Type 0} → Result E A → Bool
is_ok (ok _) = true
is_ok (err _) = false

abbrev attempts_of : Result AuthError RateLimitCounter → ℕ
attempts_of (ok counter) = counter.attempts
attempts_of (err _) = 0

module _ {S : Type 0} (r : Redis S) (value : Text → S → ℕ) (c : IsCounting r value) (l : Limiter)
    (window : 0 < l.window_seconds) where
  abbrev incremented : Text → S → S
  incremented k s = (increment_with_expiry r k l.window_seconds s).1

  expired_value :
      (b : Bool) (j k : Text) (s : S)
      → value j (if b then r.expire k l.window_seconds s else s) ≡ value j s
  expired_value true j k s = c.kept j k l.window_seconds s window
  expired_value false j k s = refl

  incremented_value : (k : Text) (s : S) → value k (incremented k s) ≡ value k s + 1
  unfolding increment_with_expiry
  incremented_value k s = rw (expired_value ((r.incr k s).0 == 1) k k (r.incr k s).1) (c.stored k s)

  incremented_others : (j k : Text) (s : S) → value j s ≤ value j (incremented k s)
  unfolding increment_with_expiry
  incremented_others j k s =
      rw (expired_value ((r.incr k s).0 == 1) j k (r.incr k s).1) (c.others j k s)

  increment_attempts :
      (k : Text) (s : S) → ((increment_with_expiry r k l.window_seconds s).0).0 ≡ value k s + 1
  unfolding increment_with_expiry
  increment_attempts k s = c.counted k s

  increment_others : (j k : Text) (s : S) → value j s ≤ value j (increment r k l.window_seconds s).1
  unfolding increment
  increment_others j k s = elim (Option-cases (r.lost s)) [
    | inl reached ↦ rw reached (incremented_others j k s)
    | inr (t, lost) ↦ rw lost (c.lost_kept j s t lost)
  ]

  -- The counter that comes back, when one does.
  increment_counter :
      (k : Text) (s s' : S) (counter : RateLimitCounter)
      → increment r k l.window_seconds s ≡ (ok counter, s')
      → (counter.attempts ≡ value k s + 1) × (value k s' ≡ value k s + 1)
  unfolding increment
  increment_counter k s s' counter h = elim (Option-cases (r.lost s)) [
    | inl reached ↦
        let h' = (rw reached at h) in
        (
          sym (ap (λ o. attempts_of o.0) h') ∙ increment_attempts k s,
          sym (ap (λ o. value k o.1) h') ∙ incremented_value k s,
        )
    | inr (t, lost) ↦ let h' = (rw lost at h) in cc
  ]

  enforce_all_others :
      (j : Text) (limits : List Limit) (s : S) → value j s ≤ value j (enforce_all r l limits s).1
  unfolding enforce_all
  enforce_all_others j [] s = ground arith
  enforce_all_others j (limit ∷ limits) s =
      let k = key l limit.scope limit.subject in
      bind-post (λ o. value j s ≤ value j o.1) (increment r k l.window_seconds) _ s
        (λ counter s' got.
          let grown = increment_others j k s in
          let moved = ap (λ o. value j o.1) got in
          raise_if-post (λ o. value j s ≤ value j o.1) (ltb limit.maximum_attempts counter.attempts)
            _ _ s' (λ few. let rest = enforce_all_others j limits s' in omega arith)
            (λ many. omega arith))
        (λ e s' got.
          let grown = increment_others j k s in
          let moved = ap (λ o. value j o.1) got in omega arith)

  -- A call that passes has counted its last limit's key once more, and within the limit.
  enforce_last :
      (limit : Limit) (s : S)
      → is_ok (enforce_all r l (limit ∷ []) s).0 ≡ true
      → let k = key l limit.scope limit.subject in
        let s' = (enforce_all r l (limit ∷ []) s).1 in
        (value k s' ≡ value k s + 1) × (value k s' ≤ limit.maximum_attempts)
  unfolding enforce_all
  enforce_last limit s =
      let k = key l limit.scope limit.subject in
      bind-post
        (λ o.
          is_ok o.0 ≡ true → (value k o.1 ≡ value k s + 1) × (value k o.1 ≤ limit.maximum_attempts))
        (increment r k l.window_seconds) _ s
        (λ counter s' got.
          let (attempts, moved) = increment_counter k s s' counter got in
          raise_if-post
            (λ o.
              is_ok o.0 ≡ true
              → (value k o.1 ≡ value k s + 1) × (value k o.1 ≤ limit.maximum_attempts))
            (ltb limit.maximum_attempts counter.attempts) _ _ s'
            (λ few passes. (moved, ground arith)) (λ many passes. cc))
        (λ e s' got passes. cc)

  abbrev pub account_key : Text → Text
  account_key account = key l (codes "login-account") account

  abbrev account_limit : Text → Limit
  account_limit account = record {
    scope = codes "login-account";
    subject = account;
    maximum_attempts = l.login_attempts_per_account;
  }

  enforce_login_passes :
      (client_ip : Option Text) (email : Text) (s : S)
      → l.enabled ≡ true
      → is_ok (enforce_login r l client_ip email s).0 ≡ true
      → let k = account_key (login_account email) in
        let s' = (enforce_login r l client_ip email s).1 in
        (value k s + 1 ≤ value k s') × (value k s + 1 ≤ l.login_attempts_per_account)
  unfolding enforce_login enforce enforce_all
  enforce_login_passes client_ip email s enabled =
      let k = account_key (login_account email) in
      let ip = key l (codes "login-ip") (or_unknown client_ip) in
      rw enabled (
        bind-post
          (λ o.
            is_ok o.0 ≡ true
            → (value k s + 1 ≤ value k o.1) × (value k s + 1 ≤ l.login_attempts_per_account))
          (increment r ip l.window_seconds) _ s
          (λ counter s' got.
            raise_if-post
              (λ o.
                is_ok o.0 ≡ true
                → (value k s + 1 ≤ value k o.1) × (value k s + 1 ≤ l.login_attempts_per_account))
              (ltb l.login_attempts_per_ip counter.attempts) _ _ s'
              (λ few passes.
                let grown = increment_others k ip s in
                let moved = ap (λ o. value k o.1) got in
                let (counted, within) =
                  enforce_last (account_limit (login_account email)) s' passes in
                (omega arith, omega arith))
              (λ many passes. cc))
          (λ e s' got passes. cc))

  enforce_others :
      (j : Text) (limits : List Limit) (s : S) → value j s ≤ value j (enforce r l limits s).1
  unfolding enforce
  enforce_others j limits s = elim (Bool-cases l.enabled) [
    | inl enabled ↦ rw enabled (enforce_all_others j limits s)
    | inr disabled ↦ rw disabled (ground arith)
  ]

  enforce_login_others :
      (j : Text) (client_ip : Option Text) (email : Text) (s : S)
      → value j s ≤ value j (enforce_login r l client_ip email s).1
  unfolding enforce_login
  enforce_login_others j client_ip email s = enforce_others j (login_limits l client_ip email) s

module _ {S : Type 0} (r : Redis S) (l : Limiter) where
  -- The attempts for an account that pass, among login attempts made one after the other.
  unfoldable pub passed : Text → List (Option Text × Text) → S → ℕ
  unfolding enforce_login
  passed account [] s = 0
  passed account ((client_ip, email) ∷ logins) s =
      let (result, s') = enforce_login r l client_ip email s in
      let later = passed account logins s' in
      if same_text (login_account email) account && is_ok result then suc later else later

-- While no key expires, of all login attempts for one account, from whatever addresses they come, no
-- more pass an enabled limiter than the limit of the account less what was counted for it before; this
-- is so when the script is lost on some calls, too.
pub passed-within :
    {S : Type 0} (r : Redis S) (value : Text → S → ℕ) (c : IsCounting r value) (l : Limiter)
    (account : Text) (logins : List (Option Text × Text)) (s : S)
    → 0 < l.window_seconds
    → l.enabled ≡ true
    → passed r l account logins s
      ≤ l.login_attempts_per_account - value (key l (codes "login-account") account) s
unfolding passed
passed-within r value c l account [] s window enabled = omega arith
passed-within r value c l account ((client_ip, email) ∷ logins) s window enabled =
    let o = enforce_login r l client_ip email s in
    let rest = passed-within r value c l account logins o.1 window enabled in
    let grown =
      enforce_login_others r value c l window (key l (codes "login-account") account) client_ip
        email s in
    elim (Bool-cases (same_text (login_account email) account && is_ok o.0)) [
      | inl passes ↦
          let same = same_text→eq (login_account email) account (ground arith) in
          let (more, within) =
            enforce_login_passes r value c l window client_ip email s enabled (ground arith) in
          let k = ap (λ a. value (key l (codes "login-account") a) s) same in
          let k' = ap (λ a. value (key l (codes "login-account") a) o.1) same in
          rw passes (omega arith)
      | inr other ↦ rw other (omega arith)
    ]
