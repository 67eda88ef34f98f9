-- ===== src/Conversation/History.antt =====
-- The history of a conversation (src/openvoice/agent/conversation.py) as a list of whole turns, and
-- what `_trim_history` keeps of it.
use open_voice.Base.{
  ℕ, zero, suc, ◌+◌, ◌-◌, ◌<◌, ◌≡◌, refl, sym, ap, ◌∙◌, inl, inr, Bool, false, some, none, List, [],
  ◌∷◌, ◌++◌, map, append-nil, append_assoc, arith, Bool-cases, length, drop, concat, ltb, ◌==◌, any,
  length-append, drop-append_add,
}
use open_voice.Base.Text.{Text}
use open_voice.Llm.{Role, ToolCall, LlmMessage, text_message, is_role}
use open_voice.Conversation.{user_indices, nth, trim_history, tool_message}

-- A tool call with what was answered.
pub record Answered : Type 0 where
  pub call : ToolCall
  pub result : Text × Bool

-- One response that asked for tools, with the answer to each call.
pub record Round : Type 0 where
  pub content : Text
  pub answers : List Answered

-- A caller's utterance, the rounds of tool calls and the reply.
pub record Turn : Type 0 where
  pub caller_text : Text
  pub rounds : List Round
  pub reply : Text

abbrev pub answer_message : Answered → LlmMessage
answer_message a = tool_message a.call a.result

abbrev pub call_message : Text → List ToolCall → LlmMessage
call_message content calls = record {
  role = Role.assistant;
  content = content;
  tool_calls = some calls;
  tool_call_id = none;
  tool_call_is_error = false;
}

abbrev pub round_messages : Round → List LlmMessage
round_messages r =
    call_message r.content (map (λ a. a.call) r.answers) ∷ map answer_message r.answers

-- The messages of a turn that has had these rounds and no reply yet.
abbrev pub opening : Text → List Round → List LlmMessage
opening caller_text rounds = text_message Role.user caller_text ∷ concat (map round_messages rounds)

abbrev pub turn_messages : Turn → List LlmMessage
turn_messages t = opening t.caller_text t.rounds ++ text_message Role.assistant t.reply ∷ []

-- A history of whole turns.
abbrev pub transcript : List Turn → List LlmMessage
transcript ts = concat (map turn_messages ts)

pub transcript-append_one :
    (ts : List Turn) (t : Turn) → transcript (ts ++ t ∷ []) ≡ transcript ts ++ turn_messages t
transcript-append_one [] t = append-nil (turn_messages t)
transcript-append_one (u ∷ ts) t =
    ap (λ x. turn_messages u ++ x) (transcript-append_one ts t)
    ∙ sym (append_assoc (turn_messages u) (transcript ts) (turn_messages t))

rounds-append_one :
    (rs : List Round) (r : Round)
    → concat (map round_messages (rs ++ r ∷ []))
      ≡ concat (map round_messages rs) ++ round_messages r
rounds-append_one [] r = append-nil (round_messages r)
rounds-append_one (u ∷ rs) r =
    ap (λ x. round_messages u ++ x) (rounds-append_one rs r)
    ∙ sym (append_assoc (round_messages u) (concat (map round_messages rs)) (round_messages r))

pub opening-append_one :
    (caller_text : Text) (rs : List Round) (r : Round)
    → opening caller_text (rs ++ r ∷ []) ≡ opening caller_text rs ++ round_messages r
opening-append_one caller_text rs r =
    ap (λ x. text_message Role.user caller_text ∷ x) (rounds-append_one rs r)

-- The last `n` of a list.
abbrev pub last : {A : Type 0} → ℕ → List A → List A
last n xs = drop (length xs - n) xs

-- Where each turn begins, in a history that has `i` messages before.
offsets : ℕ → List Turn → List ℕ
offsets i [] = []
offsets i (t ∷ ts) = i ∷ offsets (i + length (turn_messages t)) ts

length-offsets : (i : ℕ) (ts : List Turn) → length (offsets i ts) ≡ length ts
unfolding offsets
length-offsets i [] = refl
length-offsets i (t ∷ ts) = ap suc (length-offsets (i + length (turn_messages t)) ts)

-- no message of the list is the caller's
abbrev NoUser : List LlmMessage → Type 0
NoUser ms = any (λ m. is_role m.role Role.user) ms ≡ false

NoUser-append : (xs ys : List LlmMessage) → NoUser xs → NoUser ys → NoUser (xs ++ ys)
NoUser-append [] ys h k = k
NoUser-append (x ∷ xs) ys h k = ground (arith, NoUser-append xs ys)

NoUser-answers : (xs : List Answered) → NoUser (map answer_message xs)
NoUser-answers [] = refl
NoUser-answers (x ∷ xs) = NoUser-answers xs

NoUser-rounds : (rs : List Round) → NoUser (concat (map round_messages rs))
NoUser-rounds [] = refl
NoUser-rounds (r ∷ rs) =
    NoUser-append (map answer_message r.answers) (concat (map round_messages rs))
      (NoUser-answers r.answers) (NoUser-rounds rs)

user_indices-append :
    (i : ℕ) (xs ys : List LlmMessage)
    → NoUser xs
    → user_indices i (xs ++ ys) ≡ user_indices (i + length xs) ys
user_indices-append i [] ys h = ap (λ n. user_indices n ys) (omega arith)
user_indices-append i (x ∷ xs) ys h = ground (arith, user_indices-append (suc i) xs ys)

user_indices-transcript : (i : ℕ) (ts : List Turn) → user_indices i (transcript ts) ≡ offsets i ts
unfolding offsets
user_indices-transcript i [] = refl
user_indices-transcript i (t ∷ ts) =
    let body = concat (map round_messages t.rounds) ++ text_message Role.assistant t.reply ∷ [] in
    ap (λ is. i ∷ is)
      (user_indices-append (suc i) body (transcript ts) (
          NoUser-append (concat (map round_messages t.rounds))
            (text_message Role.assistant t.reply ∷ []) (NoUser-rounds t.rounds) refl)
        ∙ user_indices-transcript (suc i + length body) ts
        ∙ ap (λ n. offsets n ts) (omega arith))

drop-offset :
    (pre : List LlmMessage) (ts : List Turn) (k : ℕ)
    → k < length ts
    → drop (nth (offsets (length pre) ts) k) (pre ++ transcript ts) ≡ transcript (drop k ts)
unfolding offsets
drop-offset pre [] k h = elim h [ ]
drop-offset pre (t ∷ ts) zero h =
    ap (λ n. drop n (pre ++ transcript (t ∷ ts))) (omega arith)
    ∙ drop-append_add pre (transcript (t ∷ ts)) 0
drop-offset pre (t ∷ ts) (suc k) h =
    let here = turn_messages t in
    ap (λ n. drop (nth (offsets n ts) k) (pre ++ (here ++ transcript ts)))
      (sym (length-append pre here))
    ∙ ap (drop (nth (offsets (length (pre ++ here)) ts) k))
        (sym (append_assoc pre here (transcript ts)))
    ∙ drop-offset (pre ++ here) ts k (omega arith)

ne_zero : (n : ℕ) → 0 < n → (n == 0) ≡ false
ne_zero n h = ground arith

-- `_trim_history` on whole turns keeps the last `max_history_turns` of them, whole, for every
-- limit but 0.
pub trim_history-transcript :
    (n : ℕ) (ts : List Turn) → 0 < n → trim_history n (transcript ts) ≡ transcript (last n ts)
unfolding trim_history
trim_history-transcript n ts h = elim (Bool-cases (ltb n (length ts))) [
  | inl long ↦ rw (user_indices-transcript 0 ts) (
      rw (length-offsets 0 ts)
        (rw long (rw (ne_zero n h) (drop-offset [] ts (length ts - n) (ground arith)))))
  | inr short ↦ rw (user_indices-transcript 0 ts) (
      rw (length-offsets 0 ts)
        (rw short (let e : 0 ≡ length ts - n = ground arith in ap (λ k. transcript (drop k ts)) e)))
]

-- At the limit 0 it keeps every turn, since `user_indices[-0]` is the first index.
pub trim_history_zero : (ts : List Turn) → trim_history 0 (transcript ts) ≡ transcript ts
unfolding trim_history
trim_history_zero [] = refl
trim_history_zero (t ∷ ts) = ground arith
