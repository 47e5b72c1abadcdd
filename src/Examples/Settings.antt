-- ===== src/Examples/Settings.antt =====
-- The theorem of `Config.Listed`, and the loading of the settings.
use ai_assistant.Prelude.{
  ◌≡◌, refl, [], ◌∷◌, map, ok, chars, trim, trim_start, trim_end, is_whitespace,
}
use ai_assistant.Config.{str, seq, deserialize_comma_separated_vec}
use ai_assistant.Config.Listed.{IsItem, join, deserialize_comma_separated_vec-join}

git-IsItem : IsItem "git"
unfolding chars trim trim_start trim_end is_whitespace
git-IsItem = record { one = (refl, (refl, (refl, tt))); trimmed = refl; filled = λ e. cc }

jq-IsItem : IsItem "jq"
unfolding chars trim trim_start trim_end is_whitespace
jq-IsItem = record { one = (refl, (refl, tt)); trimmed = refl; filled = λ e. cc }

deserialize_comma_separated_vec-join_example :
    (deserialize_comma_separated_vec (str (join " " ("git" ∷ "jq" ∷ []))) ≡ ok ("git" ∷ "jq" ∷ []))
    × (deserialize_comma_separated_vec (seq (map (λ s. ok s) ("git" ∷ "jq" ∷ [])))
        ≡ ok ("git" ∷ "jq" ∷ []))
unfolding chars is_whitespace
deserialize_comma_separated_vec-join_example =
    deserialize_comma_separated_vec-join " " ("git" ∷ "jq" ∷ []) (refl, tt) (refl, tt)
      (git-IsItem, (jq-IsItem, tt))
