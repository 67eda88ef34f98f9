-- ===== src/Services/Line.antt =====
-- A call with booking tools: the conversation of src/openvoice/agent/conversation.py with the executor of
-- src/openvoice/agent/tools/booking.py, as src/openvoice/telephony/worker.py puts them together.
use open_voice.Base.{ℕ, ◌≡◌, refl, sym, subst, ◌∙◌, Option, some, List, [], ◌∷◌, arith}
use open_voice.Base.Text.{Text}
use open_voice.Base.Result.{Result}
use open_voice.Llm.{ToolCall, LlmMessage, ToolDefinition}
use open_voice.Conversation.{Providers, State}
use open_voice.Conversation.Loop.{run_executor}
use open_voice.Conversation.Loop.Stable.{Stable, handle_utterance-keeps}
use open_voice.Conversation.Loop.Limit.{talk}
use open_voice.Booking.Service.{World}
use open_voice.Tools.{Binding}
use open_voice.Tools.Executor.{Answer, execute}
use open_voice.Tools.Guards.Rows.{KeepsOthers}
use open_voice.Tools.Guards.Ownership.{execute_others}

-- What a call acts on: the database, calendar and messages, and whatever else the providers use.
pub record Line (R : Type 0) : Type 0 where
  pub world : World
  pub rest : R

run_executor_world :
    {W : Type 0} (p : Providers W) (run : ToolCall → W → Result Answer × W) (call : ToolCall)
    (w : W)
    → p.tool_executor ≡ some run
    → (run_executor p call w).1 ≡ (run call w).1
unfolding run_executor
run_executor_world p run call w h = ground arith

module _ {R : Type 0} where
  -- the executor, at the instant that `datetime.now` gives
  abbrev pub line_executor : Binding → (Line R → ℕ) → ToolCall → Line R → Result Answer × Line R
  line_executor b now call line =
      let (r, w) = execute (record b { now = now line }) call line.world in
      (r, record line { world = w })

  -- The language model is asked over the network: it has no hand in the database.
  abbrev pub LeavesWorld : Providers (Line R) → Type 0
  LeavesWorld p =
      (history : List LlmMessage) (prompt : Text) (tools : Option (List ToolDefinition))
      (line : Line R)
      → (p.generate history prompt tools line).1.world ≡ line.world

  abbrev pub with_tools : Binding → Providers (Line R) → Providers (Line R)
  with_tools b p = record p { tool_executor = some (line_executor b p.now) }

  module _ (b : Binding) (p : Providers (Line R)) (leaves : LeavesWorld p) (Q : World → Type 0)
      (runs : (now : ℕ) (w : World) (call : ToolCall)
        → Q w
        → Q (execute (record b { now = now }) call w).1) where
    abbrev OfWorld : State (Line R) → Type 0
    OfWorld s = Q s.world.world

    tool_step :
        (call : ToolCall) (line : Line R)
        → Q line.world
        → Q (run_executor (with_tools b p) call line).1.world
    tool_step call line h =
        subst (λ (line' : Line R). Q line'.world)
          (sym (run_executor_world (with_tools b p) (line_executor b p.now) call line refl))
          (runs (p.now line) line.world call h)

    OfWorld-Stable : Stable (with_tools b p) OfWorld
    OfWorld-Stable = record {
      on_history = λ h s k. k;
      on_metrics = λ m s k. k;
      on_generate =
          λ s k. subst Q (sym (leaves s.conv.history s.conv.system_prompt s.conv.tools s.world)) k;
      on_tool = λ call s k. tool_step call s.world k;
    }

    -- what the executor keeps, a call keeps
    pub talk_keeps :
        (texts : List Text) (s : State (Line R))
        → Q s.world.world
        → Q (talk (with_tools b p) texts s).world.world
    unfolding talk
    talk_keeps [] s h = h
    talk_keeps (caller_text ∷ texts) s h =
        talk_keeps texts _
          (handle_utterance-keeps (with_tools b p) OfWorld OfWorld-Stable caller_text s h h)

  module _ (b : Binding) (p : Providers (Line R)) (leaves : LeavesWorld p) where
    -- However long a caller speaks with the agent, and whatever the language model makes of it, with
    -- the booking tools of one client the call leaves the appointments of every other client as they are,
    -- provided that asking the model does not touch the database.
    pub talk_others :
        (texts : List Text) (s : State (Line R))
        → KeepsOthers b.client_id s.world.world (talk (with_tools b p) texts s).world.world
    talk_others texts s =
        talk_keeps b p leaves (KeepsOthers b.client_id s.world.world)
          (λ now w call h. execute_others (record b { now = now }) w call ∙ h) texts s refl
