-- ===== src/Services/Models/Tests.antt =====
-- An instance of the theorem about the language models: OpenAI is down, and the caller still gets a reply.
use open_voice.Base.{ℕ, ◌≡◌, none, some, []}
use open_voice.Base.Text.{codes}
use open_voice.Base.Result.{ok}
use open_voice.Llm.Anthropic
use open_voice.Llm.Anthropic.Streaming
use open_voice.Llm.Openai.Generate
use open_voice.Reply.{AgentReply}
use open_voice.Config.Factories.{LlmConfig, openai_llm}
use open_voice.Conversation.{Providers, State}
use open_voice.Conversation.Loop.{handle_utterance}
use open_voice.Services.Models.{Sdks, Behaves, with_model, model_replies}

abbrev sdks : Sdks ℕ
sdks = record {
  anthropic_create =
      λ config w messages prompt tools. Anthropic.failed (Anthropic.api_error (codes "down"));
  anthropic_enter = λ config w messages prompt. Streaming.stream [] none;
  openai_create = λ config w request. Generate.failed (Generate.api_error (codes "down"));
  openai_stream = λ config w request. Generate.answer ([], none);
  called = λ w. w;
  dumps = λ j. codes "null";
  loads = λ t. none;
}

behaves : Behaves sdks
behaves = record {
  anthropic_raises = λ config w messages prompt tools e h. cc;
  openai_raises = λ config w request e h. cc;
  openai_answers = λ config w request c h. cc;
}

abbrev config : LlmConfig
config = openai_llm (some (codes "sk")) (codes "gpt-4o") 15000000 3 none

abbrev providers : Providers ℕ
providers = record {
  generate = λ history prompt tools w. (
    ok (record {
      content = [];
      model = [];
      input_tokens = none;
      output_tokens = none;
      tool_calls = none;
    }),
    w,
  );
  generate_stream = λ history prompt w. (([], none), w);
  tool_executor = none;
  now = λ w. 0;
}

abbrev started : State ℕ
started = record {
  conv = record {
    system_prompt = codes "Be kind.";
    max_history_turns = 20;
    tools = none;
    max_tool_iterations = 4;
    max_conversation_turns = some 40;
    max_call_duration = none;
    call_started_at = 0;
    turn_count = 0;
    history = [];
    last_reply = none;
  };
  world = 0;
  metrics = [];
  requests = [];
}

model_replies_example :
    (a : AgentReply) × ((handle_utterance
        (with_model sdks config providers)
        (codes "Hello")
        started).0
      ≡ ok a)
model_replies_example = model_replies sdks config providers (codes "Hello") started behaves
