-- ===== src/Reply/Batch.antt =====
-- `parse_structured_reply` of src/openvoice/agent/structured_reply.py: the reply is never lost, and
-- a completion in the format that the prompt asks for is read back.
use open_voice.Base.{
  ◌+◌, ◌≡◌, ◌≢◌, refl, sym, ap, ◌∙◌, true, none, some, [], ◌∷◌, ◌++◌, append-nil, arith, length,
  drop, take-append_add, drop-append_add,
}
use open_voice.Base.Text.{
  Text, codes, is_space, strip, rstrip, lower, starts_with, find, find-barrier, strip_of_rstrip,
  rstrip-append-rstrip,
}
use open_voice.Reply.{
  Intent, value, intent_of, intent_of_label, intent_marker, newline, parse_structured_reply,
}

-- A completion that is not blank gives a reply that is not empty.
pub parse_structured_reply-ne-nil :
    (raw : Text) → strip raw ≢ [] → (parse_structured_reply raw).1 ≢ []
unfolding parse_structured_reply
parse_structured_reply-ne-nil raw h = ground arith

-- A completion in the format of the prompt.
abbrev pub written : Text → Intent → Text
written reply i = reply ++ 10 ∷ (intent_marker ++ (codes " " ++ value i))

label-value : (i : Intent) → intent_of_label (codes " " ++ value i) ≡ i
unfolding intent_of_label intent_of strip lower is_space
label-value Intent.booking = refl
label-value Intent.support_question = refl
label-value Intent.urgent = refl
label-value Intent.human_transfer = refl
label-value Intent.general = refl

marker_at : (s : Text) → starts_with intent_marker (intent_marker ++ s) ≡ true
unfolding starts_with
marker_at s = refl

find-written :
    (reply : Text) (i : Intent)
    → find intent_marker reply ≡ none
    → find intent_marker (written reply i) ≡ some (length reply + 1)
find-written reply i h =
    find-barrier intent_marker reply (intent_marker ++ (codes " " ++ value i)) 10 refl (λ e. cc) h
      (marker_at (codes " " ++ value i))

strip-newline : (reply : Text) → strip (reply ++ newline) ≡ strip reply
unfolding rstrip is_space
strip-newline reply =
    strip_of_rstrip (reply ++ newline) reply
      (sym (rstrip-append-rstrip reply newline) ∙ ap rstrip (append-nil reply))

label_part :
    (reply : Text) (i : Intent)
    → drop (length reply + 1 + 10) (written reply i) ≡ codes " " ++ value i
label_part reply i =
    ap (λ m. drop m (written reply i)) (omega arith)
    ∙ drop-append_add reply (10 ∷ (intent_marker ++ (codes " " ++ value i))) 11

-- A reply that holds no marker and is not blank, written out with its intent as the prompt asks,
-- is parsed to that intent and to the reply with the blanks at its ends stripped.
pub parse_structured_reply-written :
    (reply : Text) (i : Intent)
    → find intent_marker reply ≡ none
    → strip reply ≢ []
    → parse_structured_reply (written reply i) ≡ (i, strip reply)
unfolding parse_structured_reply
parse_structured_reply-written reply i h ne = ground (
  arith,
  find-written reply i h,
  take-append_add reply (10 ∷ (intent_marker ++ (codes " " ++ value i))) 1,
  strip-newline reply,
  label_part reply i,
  label-value i,
)
