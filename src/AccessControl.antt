-- ===== src/AccessControl.antt =====
-- orchestrator/src/access_control/mod.rs: the caller's policy. A set is a list of its elements.
use ai_assistant.Prelude.{
  String, ◌≡◌, ◌↔◌, ◌⊎◌, inl, refl, Bool, true, List, [], ◌∷◌, Option, none, some, contains, arith,
}
use ai_assistant.Config.{AuthSettings}

pub record AccessPolicy : Type 0 where
  pub allowed_tools : Option (List String)
  pub allowed_models : Option (List String)

-- An empty list in the settings means no restriction.
abbrev restriction : List String → Option (List String)
restriction [] = none
restriction (x ∷ xs) = some (x ∷ xs)

unfoldable pub from_settings : AuthSettings → AccessPolicy
from_settings s = record {
  allowed_tools = restriction s.allowed_tools;
  allowed_models = restriction s.allowed_models;
}

unfoldable pub allow_all : AccessPolicy
allow_all = record { allowed_tools = none; allowed_models = none }

abbrev permits : Option (List String) → String → Bool
permits none name = true
permits (some allowed) name = contains allowed name

unfoldable pub allows_tool : AccessPolicy → String → Bool
allows_tool p tool_name = permits p.allowed_tools tool_name

unfoldable pub allows_model : AccessPolicy → String → Bool
allows_model p model = permits p.allowed_models model

pub record ValidatedUser : Type 0 where
  pub token : String
  pub policy : AccessPolicy

-- A policy built from the settings permits a tool exactly when the configured list is empty or
-- holds the tool's name, and a model exactly when the list of models is empty or holds it.
pub from_settings-permits :
    (s : AuthSettings) (name : String)
    → ((allows_tool (from_settings s) name ≡ true)
        ↔ ((s.allowed_tools ≡ []) ⊎ (contains s.allowed_tools name ≡ true)))
      × ((allows_model (from_settings s) name ≡ true)
          ↔ ((s.allowed_models ≡ []) ⊎ (contains s.allowed_models name ≡ true)))
unfolding from_settings allows_tool allows_model
from_settings-permits s name = (side s.allowed_tools, side s.allowed_models)
  where
    side :
        (l : List String)
        → (permits (restriction l) name ≡ true) ↔ ((l ≡ []) ⊎ (contains l name ≡ true))
    side [] = (λ _. inl refl, λ _. refl)
    side (x ∷ xs) = ground arith
