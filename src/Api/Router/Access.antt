-- ===== src/Api/Router/Access.antt =====
-- Who comes through to the handlers of orchestrator/src/api/router.rs, and with which policy.
use ai_assistant.Prelude.{
  ℕ, String, ◌<>◌, subst, sym, ◌==◌, eq_iff, Bool-cases, ◌≡◌, ◌↔◌, ◌≢◌, ◌⊎◌, refl, ap, inl, inr,
  true, [], Option, none, some, Result, ok, err, contains,
}
use ai_assistant.Config.{Settings, AuthSettings}
use ai_assistant.AccessControl.{
  ValidatedUser, from_settings, from_settings-permits, allows_tool, allows_model,
}
use ai_assistant.Api.Middleware.{auth_middleware, auth_middleware_iff, auth_middleware-disabled}
use ai_assistant.Api.Router.{Route, ws, webhook, health, Parts, build_router, enter, admitted}

-- The header that the settings ask for; without a token any will do.
abbrev pub Presents : Option String → Option String → Type 0
Presents none header = Unit
Presents (some token) header = header ≡ some ("Bearer " <> token)

abbrev pub token_or_empty : Option String → String
token_or_empty none = ""
token_or_empty (some token) = token

-- The user has the settings' token and the settings' lists; an empty list permits all.
pub record Authorised (auth : AuthSettings) (user : ValidatedUser) : Type 0 where
  pub token : user.token ≡ token_or_empty auth.token
  pub tools :
      (name : String)
      → (allows_tool user.policy name ≡ true)
        ↔ ((auth.allowed_tools ≡ []) ⊎ (contains auth.allowed_tools name ≡ true))
  pub models :
      (name : String)
      → (allows_model user.policy name ≡ true)
        ↔ ((auth.allowed_models ≡ []) ⊎ (contains auth.allowed_models name ≡ true))

-- What a request is given at the door.
pub data Access (auth : AuthSettings) (header : Option String)
    : Route → Result ℕ (Option ValidatedUser) → Type 0 where
  free : Access auth header health (ok none)
  let_in :
      {route : Route} (user : ValidatedUser)
      → route ≢ health
      → Presents auth.token header
      → Authorised auth user
      → Access auth header route (ok (some user))
  turned_away :
      {route : Route}
      → route ≢ health
      → ¬ Presents auth.token header
      → Access auth header route (err 401)

settings-Authorised :
    (auth : AuthSettings) (token : String)
    → token ≡ token_or_empty auth.token
    → Authorised auth (record { token = token; policy = from_settings auth })
settings-Authorised auth token e = record {
  token = e;
  tools = λ name. (from_settings-permits auth name).0;
  models = λ name. (from_settings-permits auth name).1;
}

is_or_not :
    (header : Option String) (asked : String) → (header ≡ some asked) ⊎ (header ≢ some asked)
is_or_not none asked = inr (λ e. cc)
is_or_not (some h) asked = elim (Bool-cases (h == asked)) [
  | inl alike ↦ inl (ap some ((eq_iff h asked).0 alike))
  | inr unlike ↦ inr (λ e. let same : h ≡ asked = cc in let alike = (eq_iff h asked).1 same in cc)
]

module _ (auth : AuthSettings) (header : Option String) (route : Route)
    (door : route ≢ health) where
  abbrev Given : Result ℕ ValidatedUser → Type 0
  Given r = Access auth header route (admitted r)

  -- The middleware on a configured token, or on none.
  auth_middleware-Access :
      (o : Option String) → auth.token ≡ o → Given (auth_middleware auth header)
  auth_middleware-Access none e =
      let presents : Presents auth.token header = rw e tt in
      subst Given (sym (auth_middleware-disabled auth header e))
        (let_in _ door presents (settings-Authorised auth "" (rw e refl)))
  auth_middleware-Access (some expected) e = elim (is_or_not header ("Bearer " <> expected)) [
    | inl same ↦
        let presents : Presents auth.token header = rw e same in
        subst Given (sym ((auth_middleware_iff auth header expected e).0.1 same))
          (let_in _ door presents (settings-Authorised auth expected (rw e refl)))
    | inr other ↦
        let absent : ¬ Presents auth.token header = rw e other in
        subst Given (sym ((auth_middleware_iff auth header expected e).1.1 other))
          (turned_away door absent)
  ]

module _ {W N : Type 0} (parts : Parts W N) (settings : Settings) where
  -- `GET /health` takes no user. Another route lets a request in exactly when it presents the token
  -- of the settings, if they have one, and turns it away with 401 otherwise; the user who is let in
  -- has that token, and may use the tools and the models that the settings list, or all where a list
  -- is empty.
  pub enter-Access :
      (route : Route) (header : Option String)
      → Access settings.auth header route (enter (build_router parts settings) route header)
  unfolding build_router enter
  enter-Access health header = free
  enter-Access ws header =
      auth_middleware-Access settings.auth header ws (λ e. cc) settings.auth.token refl
  enter-Access webhook header =
      auth_middleware-Access settings.auth header webhook (λ e. cc) settings.auth.token refl
