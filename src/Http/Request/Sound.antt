-- ===== src/Http/Request/Sound.antt =====
-- What `read_request` guarantees of a request that it returns, and of the shared byte count.
use resonantia.Prelude.{Option-cases, inr, inl, refl, true, some, ◌+◌, ◌≤◌, ◌&&◌, ◌≡◌, ℕ, arith}
use resonantia.Http.Auth.{authorized}
use resonantia.Http.Request.{
  settle, ltb, not, length, List, Bool, Bytes, bad_request, payload_too_large, unauthorized, Step,
  next, stop, ◌>>=◌, stop_if, Request, ReadOutcome, receive_body, read_request, read_body, reserve,
  front, admit, read_head, parse_head, destroy, or_zero, or_empty, needs_length, is_api, is_some,
  max_body_bytes, max_inflight_body_bytes,
}
use resonantia.Http.Request.Body.{read_body-length}

>>=-eq-next {ℓ κ} :
    {A : Type ℓ} {B : Type κ} (m : Step A) (f : A → Step B) {b : B}
    → (m >>= f) ≡ next b
    → (a : A) × (m ≡ next a) × (f a ≡ next b)
>>=-eq-next (next a) f h = (a, refl, h)
>>=-eq-next (stop r) f h = cc

-- A request that reaches the handler.
pub record IsAdmitted (auth_token : Bytes) (r : Request) (o : ReadOutcome) : Type 0 where
  pub bounded : or_zero r.content_length ≤ max_body_bytes
  pub whole : length r.body ≡ or_zero r.content_length
  pub declared : needs_length r ≡ true → is_some r.content_length ≡ true
  pub allowed : is_api r.path ≡ true → authorized (or_empty r.authorization) auth_token ≡ true
  pub reserved : o.reserved ≡ or_zero r.content_length
  pub counted : o.inflight ≤ max_inflight_body_bytes

-- The checks in front of the body.
record IsChecked (auth_token : Bytes) (r : Request) : Type 0 where
  bounded : or_zero r.content_length ≤ max_body_bytes
  declared : needs_length r ≡ true → is_some r.content_length ≡ true
  allowed : is_api r.path ≡ true → authorized (or_empty r.authorization) auth_token ≡ true

admit-IsChecked :
    (auth_token : Bytes) (r : Request) → admit auth_token r ≡ next tt → IsChecked auth_token r
unfolding admit
admit-IsChecked auth_token r h =
    let (_, h₁, k₁) =
      >>=-eq-next (stop_if (ltb max_body_bytes (or_zero r.content_length)) payload_too_large) _ h in
    let (_, h₂, h₃) =
      >>=-eq-next (stop_if (needs_length r && not (is_some r.content_length)) bad_request) _ k₁ in
    record {
      bounded = ground (arith, h₁);
      declared = λ e. first (needs_length r) (is_some r.content_length) h₂ e;
      allowed = λ e. second (is_api r.path) (authorized (or_empty r.authorization) auth_token) h₃ e;
    }
  where
    first : (a b : Bool) → stop_if (a && not b) bad_request ≡ next tt → a ≡ true → b ≡ true
    first a b h e = ground arith

    second : (a b : Bool) → stop_if (a && not b) unauthorized ≡ next tt → a ≡ true → b ≡ true
    second a b h e = ground arith

front-IsChecked :
    (auth_token : Bytes) (pieces : List Bytes) {r : Request} {body : Bytes} {rest : List Bytes}
    → front auth_token pieces ≡ next (r, body, rest)
    → IsChecked auth_token r
unfolding front
front-IsChecked auth_token pieces {r} h =
    let ((head, body₁, rest₁), _, h₁) = >>=-eq-next (read_head pieces) _ h in
    let (r₁, _, h₂) = >>=-eq-next (parse_head head) _ h₁ in
    let (u, a, h₃) = >>=-eq-next (admit auth_token r₁) _ h₂ in
    let same : r₁ ≡ r = cc h₃ in rw (← same) (admit-IsChecked auth_token r₁ a)

reserve-le :
    (inflight n : ℕ) {grown : ℕ}
    → reserve inflight n ≡ some grown
    → (grown ≡ inflight + n) × (grown ≤ max_inflight_body_bytes)
unfolding reserve
reserve-le inflight n h = ground arith

receive_body-IsAdmitted :
    (auth_token : Bytes) (r : Request) (body : Bytes) (pieces : List Bytes) (inflight : ℕ)
    {r' : Request}
    → IsChecked auth_token r
    → (receive_body r body pieces inflight).result ≡ next r'
    → IsAdmitted auth_token r' (receive_body r body pieces inflight)
unfolding receive_body
receive_body-IsAdmitted auth_token r body pieces inflight {r'} c h =
    elim (Option-cases (reserve inflight (or_zero r.content_length))) [
      | inl e ↦ absurd (let x = rw (e, receive_body) at h in cc)
      | inr (grown, e) ↦
          let (b, got, k) =
            >>=-eq-next (read_body (or_zero r.content_length) body pieces) _
              (rw (e, receive_body) at h) in
          let same : record r { body = b } ≡ r' = cc k in
          rw (e, receive_body)
            (rw (← same) (record {
              bounded = c.bounded;
              whole = read_body-length (or_zero r.content_length) body pieces got;
              declared = c.declared;
              allowed = c.allowed;
              reserved = refl;
              counted = (reserve-le inflight (or_zero r.content_length) e).1;
            }))
    ]

-- A request that reaches the handler has all of its body and no more, at most `max_body_bytes`; a
-- POST or PUT declared its length; under /api/ it carries the token; and what it reserves is its
-- length, with the total within the limit.
pub read_request-IsAdmitted :
    (auth_token : Bytes) (pieces : List Bytes) (inflight : ℕ) {r : Request}
    → (read_request auth_token pieces inflight).result ≡ next r
    → IsAdmitted auth_token r (read_request auth_token pieces inflight)
unfolding read_request
read_request-IsAdmitted auth_token pieces inflight {r} h = go (front auth_token pieces) refl h
  where
    go :
        (s : Step (Request × Bytes × List Bytes))
        → front auth_token pieces ≡ s
        → (settle inflight s).result ≡ next r
        → IsAdmitted auth_token r (settle inflight s)
    go (stop q) e k = cc
    go (next (q, body, rest)) e k =
        receive_body-IsAdmitted auth_token q body rest inflight
          (front-IsChecked auth_token pieces e) k

-- Whatever the outcome: the count stays within its limit while the request lives, and is what it was
-- before once the request is destroyed.
pub read_request-balanced :
    (auth_token : Bytes) (pieces : List Bytes) (inflight : ℕ)
    → inflight ≤ max_inflight_body_bytes
    → ((read_request auth_token pieces inflight).inflight ≤ max_inflight_body_bytes)
      × (destroy (read_request auth_token pieces inflight) ≡ inflight)
unfolding read_request receive_body destroy
read_request-balanced auth_token pieces inflight h = go (front auth_token pieces)
  where
    go :
        (s : Step (Request × Bytes × List Bytes))
        → ((settle inflight s).inflight ≤ max_inflight_body_bytes)
          × (destroy (settle inflight s) ≡ inflight)
    go (stop q) = (h, omega arith)
    go (next (q, body, rest)) = elim (Option-cases (reserve inflight (or_zero q.content_length))) [
      | inl e ↦ rw (e, receive_body) (h, omega arith)
      | inr (grown, e) ↦
          let (sum, le) = reserve-le inflight (or_zero q.content_length) e in
          rw (e, receive_body) (le, omega arith)
    ]
