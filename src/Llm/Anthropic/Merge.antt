-- ===== src/Llm/Anthropic/Merge.antt =====
-- The merge of tool results in src/openvoice/llm/providers/anthropic.py, and the way of a message through the
-- wire format.
use open_voice.Base.{
  All, ◌≡◌, refl, ◌⊎◌, inl, inr, ◌&&◌, append-nil, ap, ◌∙◌, Bool, true, false, Option, none, some,
  List, [], ◌∷◌, ◌++◌, append_assoc, map,
}
use open_voice.Base.Text.{Text}
use open_voice.Llm.{text_message, Role, ToolCall, LlmMessage, calls_of}
use open_voice.Llm.Anthropic.{
  text_block, tool_use, tool_result, unread, Block, WireMessage, plain, blocks, result_block,
  text_blocks, use_block, assistant_message, convert, to_anthropic_messages, read_blocks,
}

read-map-use_block : (calls : List ToolCall) → read_blocks (map use_block calls) ≡ ([], calls)
unfolding read_blocks
read-map-use_block [] = refl
read-map-use_block (c ∷ calls) =
    ap (λ (p : Text × List ToolCall). (p.0, c ∷ p.1)) (read-map-use_block calls)

-- The blocks that an assistant message with calls is sent as are read back as its text and its
-- calls.
pub read_blocks_sent :
    (content : Text) (calls : List ToolCall)
    → read_blocks (text_blocks content ++ map use_block calls) ≡ (content, calls)
unfolding read_blocks
read_blocks_sent [] calls = read-map-use_block calls
read_blocks_sent (c ∷ content) calls =
    ap (λ (p : Text × List ToolCall). ((c ∷ content) ++ p.0, p.1)) (read-map-use_block calls)
    ∙ ap (λ r. (r, calls)) (append-nil (c ∷ content))

-- a message of the model that calls tools, and an answer to a call
abbrev pub calling : Text × List ToolCall → LlmMessage
calling (content, calls) = record {
  role = Role.assistant;
  content = content;
  tool_calls = some calls;
  tool_call_id = none;
  tool_call_is_error = false;
}

abbrev pub answer : Option Text → Text → Bool → LlmMessage
answer id content is_error = record {
  role = Role.tool;
  content = content;
  tool_calls = none;
  tool_call_id = id;
  tool_call_is_error = is_error;
}

-- The messages that the program makes: text of the caller or of the model, the model's calls of tools, and the answer to
-- one of them.
pub data IsMade : LlmMessage → Type 0 where
  said_by_caller : (content : Text) → IsMade (text_message Role.user content)
  said_by_model : (content : Text) → IsMade (text_message Role.assistant content)
  called :
      (content : Text) (c : ToolCall) (calls : List ToolCall)
      → IsMade (calling (content, c ∷ calls))
  answered :
      (id : Option Text) (content : Text) (is_error : Bool) → IsMade (answer id content is_error)

-- What a reader of Anthropic's format makes of a message: a block of tool results is as many answers.
abbrev pub results_of : List Block → List LlmMessage
results_of [] = []
results_of (tool_result id content is_error ∷ bs) = answer id content is_error ∷ results_of bs
results_of (_ ∷ bs) = results_of bs

abbrev pub read_back : List WireMessage → List LlmMessage
read_back [] = []
read_back (plain role content ∷ ms) = text_message role content ∷ read_back ms
read_back (blocks Role.user bs ∷ ms) = results_of bs ++ read_back ms
read_back (blocks role bs ∷ ms) = calling (read_blocks bs) ∷ read_back ms

results_of-append : (bs cs : List Block) → results_of (bs ++ cs) ≡ results_of bs ++ results_of cs
results_of-append [] cs = refl
results_of-append (tool_result id content is_error ∷ bs) cs =
    ap (λ r. answer id content is_error ∷ r) (results_of-append bs cs)
results_of-append (text_block t ∷ bs) cs = results_of-append bs cs
results_of-append (tool_use id name arguments ∷ bs) cs = results_of-append bs cs
results_of-append (unread ∷ bs) cs = results_of-append bs cs

-- what the inner loop has collected
abbrev pub pending : Option (List Block) → List LlmMessage
pending none = []
pending (some results) = results_of results

-- a block more
pending_more :
    (results : List Block) (id : Option Text) (content : Text) (is_error : Bool)
    (ms : List LlmMessage)
    → results_of (results ++ tool_result id content is_error ∷ []) ++ ms
      ≡ results_of results ++ (results_of (tool_result id content is_error ∷ []) ++ ms)
pending_more results id content is_error ms =
    ap (λ r. r ++ ms) (results_of-append results (tool_result id content is_error ∷ []))
    ∙ append_assoc (results_of results) (results_of (tool_result id content is_error ∷ [])) ms

calls_read :
    (content : Text) (calls : List ToolCall) (read rest : List LlmMessage)
    → read ≡ rest
    → calling (read_blocks (text_blocks content ++ map use_block calls)) ∷ read
      ≡ calling (content, calls) ∷ rest
calls_read content calls read rest h =
    ap (λ p. calling p ∷ read) (read_blocks_sent content calls)
    ∙ ap (λ r. calling (content, calls) ∷ r) h

read_back-convert :
    (p : Option (List Block)) (ms : List LlmMessage)
    → All IsMade ms
    → read_back (convert p ms) ≡ pending p ++ ms
unfolding convert
read_back-convert none [] h = refl
read_back-convert (some results) [] h = refl
read_back-convert none (_ ∷ ms) (said_by_caller content, h) =
    ap (λ r. text_message Role.user content ∷ r) (read_back-convert none ms h)
read_back-convert none (_ ∷ ms) (said_by_model content, h) =
    ap (λ r. text_message Role.assistant content ∷ r) (read_back-convert none ms h)
read_back-convert none (_ ∷ ms) (called content c calls, h) =
    calls_read content (c ∷ calls) _ ms (read_back-convert none ms h)
read_back-convert none (_ ∷ ms) (answered id content is_error, h) =
    read_back-convert (some (tool_result id content is_error ∷ [])) ms h
read_back-convert (some results) (_ ∷ ms) (said_by_caller content, h) =
    ap (λ r. results_of results ++ text_message Role.user content ∷ r) (read_back-convert none ms h)
read_back-convert (some results) (_ ∷ ms) (said_by_model content, h) =
    ap (λ r. results_of results ++ text_message Role.assistant content ∷ r)
      (read_back-convert none ms h)
read_back-convert (some results) (_ ∷ ms) (called content c calls, h) =
    ap (λ r. results_of results ++ r)
      (calls_read content (c ∷ calls) _ ms (read_back-convert none ms h))
read_back-convert (some results) (_ ∷ ms) (answered id content is_error, h) =
    read_back-convert (some (results ++ tool_result id content is_error ∷ [])) ms h
    ∙ pending_more results id content is_error ms

-- Of messages as the program makes them, what is sent to Anthropic is read back as the history: every message with its
-- role, its text, its calls with their arguments, or the call that it answers and whether it reports an error, in
-- the same order.
pub read_back-to_anthropic_messages :
    (ms : List LlmMessage) → All IsMade ms → read_back (to_anthropic_messages ms) ≡ ms
read_back-to_anthropic_messages ms h = read_back-convert none ms h

Role-cases : (r : Role) → (r ≡ Role.tool) ⊎ ((r ≡ Role.assistant) ⊎ (r ≡ Role.user))
Role-cases Role.tool = inl refl
Role-cases Role.assistant = inr (inl refl)
Role-cases Role.user = inr (inr refl)

-- a message of tool results
abbrev pub is_results : WireMessage → Bool
is_results (blocks Role.user bs) = true
is_results m = false

abbrev pub first_is_results : List WireMessage → Bool
first_is_results [] = false
first_is_results (m ∷ ms) = is_results m

-- No two messages of tool results stand side by side.
abbrev pub Merged : List WireMessage → Type 0
Merged [] = Unit
Merged (m ∷ ms) = ((is_results m && first_is_results ms) ≡ false) × Merged ms

assistant-is_results :
    (m : LlmMessage) (calls : List ToolCall) → is_results (assistant_message m calls) ≡ false
assistant-is_results m [] = refl
assistant-is_results m (c ∷ calls) = refl

after_single :
    (w : WireMessage) (ms : List WireMessage) → is_results w ≡ false → Merged ms → Merged (w ∷ ms)
after_single w ms h k = (rw h refl, k)

convert-Merged : (p : Option (List Block)) (ms : List LlmMessage) → Merged (convert p ms)
unfolding convert
convert-Merged none [] = tt
convert-Merged (some results) [] = (refl, tt)
convert-Merged none (m ∷ ms) = elim (Role-cases m.role) [
  | inl tool ↦ rw (tool, convert) (convert-Merged (some (result_block m ∷ [])) ms)
  | inr (inl assistant) ↦
      rw (assistant, convert)
        (after_single (assistant_message m (calls_of m.tool_calls)) (convert none ms)
          (assistant-is_results m (calls_of m.tool_calls)) (convert-Merged none ms))
  | inr (inr user) ↦ rw (user, convert) (refl, convert-Merged none ms)
]
convert-Merged (some results) (m ∷ ms) = elim (Role-cases m.role) [
  | inl tool ↦ rw (tool, convert) (convert-Merged (some (results ++ result_block m ∷ [])) ms)
  | inr (inl assistant) ↦
      rw (assistant, convert)
        (
          assistant-is_results m (calls_of m.tool_calls),
          after_single (assistant_message m (calls_of m.tool_calls)) (convert none ms)
              (assistant-is_results m (calls_of m.tool_calls)) (convert-Merged none ms),
        )
  | inr (inr user) ↦ rw (user, convert) (refl, (refl, convert-Merged none ms))
]

-- All results that answer one turn's calls are in a single message: whatever the history, no two
-- messages of tool results stand side by side.
pub to_anthropic_messages-Merged : (ms : List LlmMessage) → Merged (to_anthropic_messages ms)
to_anthropic_messages-Merged ms = convert-Merged none ms
