-- ===== src/Api/Middleware.antt =====
-- orchestrator/src/api/middleware.rs: the bearer token.
use ai_assistant.Prelude.{
  ℕ, String, ◌<>◌, ◌≡◌, ◌↔◌, ◌≢◌, ◌⊎◌, inl, inr, refl, ap, ◌∙◌, Option-cases, Bool-cases, Option,
  none, some, Result, ok, err, ◌==◌, eq_iff, strip_prefix, strip_prefix_iff, if◌then◌else◌,
}
use ai_assistant.Config.{AuthSettings}
use ai_assistant.AccessControl.{ValidatedUser, from_settings}

abbrev pub unauthorized : ℕ
unauthorized = 401

-- What follows "Bearer " in the header.
abbrev provided : Option String → Option String
provided none = none
provided (some header) = strip_prefix "Bearer " header

abbrev checked : String → Option String → Result ℕ String
checked expected none = err unauthorized
checked expected (some t) = if t == expected then ok t else err unauthorized

abbrev token_of : Option String → Option String → Result ℕ String
token_of none header = ok ""
token_of (some expected) header = checked expected (provided header)

abbrev admit : AuthSettings → Result ℕ String → Result ℕ ValidatedUser
admit settings (err code) = err code
admit settings (ok token) = ok (record { token = token; policy = from_settings settings })

-- A refusal with a status code, or the user that the handlers find in the request's extensions.
-- `header` is the `authorization` header, where it is there and is text.
unfoldable pub auth_middleware : AuthSettings → Option String → Result ℕ ValidatedUser
auth_middleware settings header = admit settings (token_of settings.token header)

abbrev bearer : String → Option String
bearer token = some ("Bearer " <> token)

verdict :
    (expected : String) (header : Option String)
    → ((header ≡ bearer expected) × (checked expected (provided header) ≡ ok expected))
      ⊎ ((header ≢ bearer expected) × (checked expected (provided header) ≡ err unauthorized))
verdict expected none = inr (λ e. cc, refl)
verdict expected (some h) = elim (Option-cases (strip_prefix "Bearer " h)) [
  | inl other ↦ inr (
    λ e.
        let found =
          (strip_prefix_iff "Bearer " h expected).1
            (let same_text : h ≡ "Bearer " <> expected = cc in same_text) in
        cc,
    rw other,
  )
  | inr (t, found) ↦ elim (Bool-cases (t == expected)) [
    | inl alike ↦
        let same = (eq_iff t expected).0 alike in
        inl (
          ap some ((strip_prefix_iff "Bearer " h expected).0 (found ∙ ap some same)),
          rw (found, alike) (ap ok same),
        )
    | inr unlike ↦ inr (
      (λ e.
          let found' =
            (strip_prefix_iff "Bearer " h expected).1
              (let same_text : h ≡ "Bearer " <> expected = cc in same_text) in
          let same : t ≡ expected = cc in let alike = (eq_iff t expected).1 same in cc),
      rw (found, unlike),
    )
  ]
]

-- With a token configured, a request is admitted, as the user with that token and the configured
-- policy, exactly when its header is "Bearer " and that token; otherwise it is refused with 401.
pub auth_middleware_iff :
    (settings : AuthSettings) (header : Option String) (expected : String)
    → settings.token ≡ some expected
    → ((auth_middleware settings header
          ≡ ok (record { token = expected; policy = from_settings settings }))
        ↔ (header ≡ some ("Bearer " <> expected)))
      × ((auth_middleware settings header ≡ err 401) ↔ (header ≢ some ("Bearer " <> expected)))
unfolding auth_middleware
auth_middleware_iff settings header expected h = elim (verdict expected header) [
  | inl (same, accepted) ↦
      rw (h, accepted) ((λ _. same, λ _. refl), (λ e. cc, λ ne. absurd (ne same)))
  | inr (other, refused) ↦
      rw (h, refused) ((λ e. cc, λ same. absurd (other same)), (λ _. other, λ _. refl))
]

-- With no token configured every request is admitted with an empty token, and its policy permits
-- the tools that the settings list, not all tools.
pub auth_middleware-disabled :
    (settings : AuthSettings) (header : Option String)
    → settings.token ≡ none
    → auth_middleware settings header ≡ ok (record { token = ""; policy = from_settings settings })
unfolding auth_middleware
auth_middleware-disabled settings header h = rw h
