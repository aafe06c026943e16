-- ===== src/Runner/Strip.antt =====
-- cmd/gocoon-runner/tools_translate.go: stripThinkBlocks, and the loop of stripThinkAndToolCalls.
pub mod Spans
use gocoon.Common.{
  ℕ, zero, suc, ◌+◌, Bytes, List, [], ◌∷◌, ◌++◌, Option, none, some, length, take, drop,
}
use gocoon.Tl.Ids.{codes}
use gocoon.Runner.Text.{index}

unfoldable pub think_open_tag : Bytes
think_open_tag = codes "<think>"

unfoldable pub think_close_tag : Bytes
think_close_tag = codes "</think>"

unfoldable pub tool_call_open_tag : Bytes
tool_call_open_tag = codes "<tool_call>"

unfoldable pub tool_call_close_tag : Bytes
tool_call_close_tag = codes "</tool_call>"

-- The loop of both functions: the text is what is behind the cursor, and the first argument counts
-- the rounds that are left.
unfoldable pub strip_loop : ℕ → Bytes → Bytes → Bytes → Bytes
strip_loop zero open_tag close_tag text = []
strip_loop (suc n) open_tag close_tag text = elim (index open_tag text) [
  | none ↦ text
  | some i ↦ take i text ++ elim (index close_tag (drop i text)) [
    | none ↦ []
    | some j ↦ strip_loop n open_tag close_tag (drop (j + length close_tag) (drop i text))
  ]
]

-- A round that goes on takes a tag off the text.
unfoldable pub strip_blocks : Bytes → Bytes → Bytes → Bytes
strip_blocks open_tag close_tag text = strip_loop (suc (length text)) open_tag close_tag text

unfoldable pub strip_think_blocks : Bytes → Bytes
strip_think_blocks = strip_blocks think_open_tag think_close_tag

-- `strings.TrimSpace` is a parameter.
unfoldable pub strip_think_and_tool_calls : (Bytes → Bytes) → Bytes → Bytes
strip_think_and_tool_calls trim_space text =
    trim_space (strip_blocks tool_call_open_tag tool_call_close_tag (strip_think_blocks text))
