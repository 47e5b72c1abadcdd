-- ===== src/Examples/Fences.antt =====
-- The theorems of `AgentLoop.Fence` at a reply of the engine.
use ai_assistant.Prelude.{
  ◌≡◌, refl, some, none, chars, from_chars, strip, split_once, is_whitespace,
}
use ai_assistant.AgentLoop.Protocol.{extract_tool_call}
use ai_assistant.AgentLoop.Fence.{captures, leftmost, match_here, blank_line, lazy_body}
use ai_assistant.AgentLoop.Fence.Leftmost.{Captured, captures-Captured}
use ai_assistant.AgentLoop.Fence.RoundTrip.{fenced, extract_tool_call-fenced}
use ai_assistant.Samples.{stx, call}

extract_tool_call-fenced_example :
    extract_tool_call stx (fenced "I look.\n\n" "files" "\n\nDone.") ≡ some (call "files")
unfolding chars split_once strip is_whitespace
extract_tool_call-fenced_example =
    extract_tool_call-fenced stx "I look.\n\n" "files" "\n\nDone." refl refl refl

captures-Captured_example :
    Captured "```tool_call \n\n{}\n```\n```" (captures "```tool_call \n\n{}\n```\n```")
captures-Captured_example = captures-Captured "```tool_call \n\n{}\n```\n```"

-- White space is passed over, and the first closing fence ends the body.
greedy_and_lazy : captures "```tool_call \n\n{}\n```\n```" ≡ some "{}"
unfolding captures leftmost match_here blank_line lazy_body chars from_chars split_once strip
    is_whitespace
greedy_and_lazy = refl

-- A fence that is not closed is none, and the second newline may be the closing fence's.
unclosed : captures "```tool_call\n{}" ≡ none
unfolding captures leftmost match_here blank_line lazy_body chars from_chars split_once strip
    is_whitespace
unclosed = refl

empty_body : captures "```tool_call\n\n```" ≡ some ""
unfolding captures leftmost match_here blank_line lazy_body chars from_chars split_once strip
    is_whitespace
empty_body = refl
