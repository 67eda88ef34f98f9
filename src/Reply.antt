-- ===== src/Reply.antt =====
-- src/openvoice/agent/base.py and src/openvoice/agent/structured_reply.py: the intent of a turn,
-- and the two ways in which a model's completion is read, whole and as a stream.
pub mod Batch
pub mod Stream
mod Tests
use open_voice.Base.{
  ℕ, ◌+◌, ◌-◌, Bool, true, false, Option, none, some, List, [], ◌∷◌, ◌++◌, if◌then◌else◌, leb,
  length, take, drop, is_empty,
}
use open_voice.Base.Text.{Text, codes, text_eq, rstrip, strip, lower, find}

pub data Intent : Type 0 where
  booking support_question urgent human_transfer general : Intent

-- `Intent.value`
abbrev pub value : Intent → Text
value Intent.booking = codes "booking"
value Intent.support_question = codes "support_question"
value Intent.urgent = codes "urgent"
value Intent.human_transfer = codes "human_transfer"
value Intent.general = codes "general"

-- The members in the order of their declaration, which `for intent in Intent` follows.
abbrev pub intents : List Intent
intents =
    Intent.booking ∷ Intent.support_question ∷ Intent.urgent ∷ Intent.human_transfer
    ∷ Intent.general ∷ []

-- `Intent(label)`, with `none` for the `ValueError`
unfoldable pub intent_of : Text → Option Intent
intent_of label =
    if text_eq label (value Intent.booking)
    then some Intent.booking
    else if text_eq label (value Intent.support_question)
    then some Intent.support_question
    else if text_eq label (value Intent.urgent)
    then some Intent.urgent
    else if text_eq label (value Intent.human_transfer)
    then some Intent.human_transfer
    else if text_eq label (value Intent.general)
    then some Intent.general
    else none

pub record AgentReply : Type 0 where
  pub text : Text
  pub intent : Intent
  pub transfer_to_human : Bool

abbrev pub intent_marker : Text
intent_marker = codes "###INTENT:"

-- A line break of the source's texts.
abbrev pub newline : Text
newline = 10 ∷ []

quoted : Intent → Text
quoted i = codes "\"" ++ (value i ++ codes "\"")

-- `", ".join(...)`
join_labels : List Intent → Text
unfolding quoted
join_labels [] = []
join_labels (i ∷ []) = quoted i
join_labels (i ∷ j ∷ rest) = quoted i ++ (codes ", " ++ join_labels (j ∷ rest))

unfoldable pub structured_output_instructions : Text
unfolding join_labels
structured_output_instructions =
    newline
    ++ (newline
        ++ (codes "Additionally, classify the caller's latest message. First write your natural "
            ++ (codes
                  "spoken reply to the caller, in the caller's own language. Then, on its own new "
                ++ (codes "line, write exactly \""
                    ++ (intent_marker
                        ++ (codes " <label>\" where <label> is one of "
                            ++ (join_labels intents
                                ++ (codes
                                      ". Do not write anything after the intent line. Do not use markdown code fences "
                                    ++ (codes "or any other formatting around either part."
                                        ++ (newline
                                            ++ (newline
                                                ++ (codes "Example:"
                                                    ++ (newline
                                                        ++ (codes "Sure, I can help with that."
                                                            ++ (newline
                                                            ++ (intent_marker
                                                            ++ (codes " general"
                                                            ++ newline)))))))))))))))))

unfoldable pub build_structured_system_prompt : Text → Text
unfolding structured_output_instructions
build_structured_system_prompt base_prompt = base_prompt ++ structured_output_instructions

-- What `parse_structured_reply` and `finalize` do with the text behind the marker: a label that
-- names no intent counts as `general`.
unfoldable pub intent_of_label : Text → Intent
intent_of_label raw = elim (intent_of (lower (strip raw))) [ none ↦ Intent.general | some i ↦ i ]

unfoldable pub parse_structured_reply : Text → Intent × Text
parse_structured_reply raw = elim (find intent_marker raw) [
  | none ↦ (Intent.general, strip raw)
  | some marker_index ↦
      let reply = strip (take marker_index raw) in
      let intent = intent_of_label (drop (marker_index + length intent_marker) raw) in
      if is_empty reply then (intent, strip raw) else (intent, reply)
]

-- `StreamingReplyExtractor`
pub record Extractor : Type 0 where
  pub pending : Text
  pub released : Text
  pub marker_found : Bool
  pub after_marker : Text

abbrev pub fresh : Extractor
fresh = record { pending = []; released = []; marker_found = false; after_marker = [] }

-- the branch of `feed` that has found the marker at `marker_index` of `pending`
abbrev pub release_to_marker : Extractor → Text → ℕ → Text × Extractor
release_to_marker e pending marker_index =
    let newly_safe = rstrip (take marker_index pending) in
    (
      newly_safe,
      record {
        pending = [];
        released = e.released ++ newly_safe;
        marker_found = true;
        after_marker = drop (marker_index + length intent_marker) pending;
      },
    )

-- the branch of `feed` that has not: the last `len(marker) - 1` characters are held back
abbrev pub release_settled : Extractor → Text → Text × Extractor
release_settled e pending =
    let hold_back = length intent_marker - 1 in
    if leb (length pending) hold_back
    then ([], record e { pending = pending })
    else (let cut = length pending - hold_back in
        let newly_safe = take cut pending in
        (newly_safe, record e { pending = drop cut pending; released = e.released ++ newly_safe }))

-- The text that can be spoken now, and the extractor after the delta.
unfoldable pub feed : Extractor → Text → Text × Extractor
feed e [] = ([], e)
feed e (c ∷ delta) =
    if e.marker_found
    then ([], record e { after_marker = e.after_marker ++ (c ∷ delta) })
    else (let pending = e.pending ++ (c ∷ delta) in
        elim (find intent_marker pending) [
          | some marker_index ↦ release_to_marker e pending marker_index
          | none ↦ release_settled e pending
        ])

-- `(full_reply_text, trailing_unspoken_text, intent)`, and the extractor that is left
unfoldable pub finalize : Extractor → (Text × Text × Intent) × Extractor
finalize e = if e.marker_found then ((e.released, [], intent_of_label e.after_marker), e) else (
  (e.released ++ e.pending, e.pending, Intent.general),
  record e { pending = []; released = e.released ++ e.pending },
)

-- The loop over a stream of deltas: what was released at each delta, and the last extractor.
unfoldable pub feed_all : Extractor → List Text → List Text × Extractor
feed_all e [] = ([], e)
feed_all e (d ∷ ds) =
    let (out, e') = feed e d in let (outs, e'') = feed_all e' ds in (out ∷ outs, e'')
